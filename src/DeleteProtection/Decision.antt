-- ===== src/DeleteProtection/Decision.antt =====
-- Which requests the deletion protection lets through.
use mathlib.Core.Logic.{◌↔◌}
use tamoss.Base.{
  String, ◌≡◌, refl, sym, ap, ◌∙◌, Bool, true, false, ◌⊎◌, inl, inr, decided, of_decided,
  decided_of, arith, if◌then◌else◌,
}
use tamoss.Kube.{ObjectMeta}
use tamoss.Effect.{Result, ok, err}
use tamoss.DeleteProtection.{
  Operation, create, update, delete, connect, Request, Handler, Response, allowed, is_allowed,
  deletion_confirmed, operator_cleanup_allowed, object_spec, old_object_metadata, compare_specs,
  check_confirmation, handle,
}

module _ {V : Type 0} (same : Discrete V) (unmarshal_spec : String → Result V)
    (unmarshal_metadata : String → Result ObjectMeta) where
  -- The two specs are there and are equal.
  unfoldable pub IsUnchanged : Request → Type 0
  IsUnchanged req =
      (v : V) × (object_spec same unmarshal_spec unmarshal_metadata req.old_object ≡ ok v)
      × (object_spec same unmarshal_spec unmarshal_metadata req.object ≡ ok v)

  -- The object that is to be deleted is there and its annotation confirms it.
  unfoldable pub IsConfirmed : Request → Type 0
  IsConfirmed req =
      (m : ObjectMeta) × (old_object_metadata same unmarshal_spec unmarshal_metadata req ≡ ok m)
      × (deletion_confirmed m.annotations ≡ true)

  -- What is let through of an operation.
  abbrev PermittedBy : Handler → Request → Operation → Type 0
  PermittedBy h req create = Unit
  PermittedBy h req connect = Unit
  PermittedBy h req update = (h.immutable_spec ≡ false) ⊎ IsUnchanged req
  PermittedBy h req delete = (operator_cleanup_allowed h req.username ≡ true) ⊎ IsConfirmed req

  unfoldable pub IsPermitted : Handler → Request → Type 0
  IsPermitted h req = PermittedBy h req req.operation

  allowed_same :
      (h : Handler) (old new : V) (b : Bool)
      → decided (same old new) ≡ b
      → (is_allowed (compare_specs same unmarshal_spec unmarshal_metadata h (ok old) (ok new))
          ≡ true)
        ↔ (old ≡ new)
  unfolding compare_specs
  allowed_same h old new true e = rw e (λ x. of_decided _ e, λ p. refl)
  allowed_same h old new false e =
      rw e (λ x. ground arith, λ p. let t = decided_of (same old new) p in ground arith)

  ok_inj : (a b : V) (r : Result V) → r ≡ ok a → r ≡ ok b → a ≡ b
  ok_inj a b r p q = ap (λ (x : Result V). elim x [ ok y ↦ y | err e ↦ a ]) (sym p ∙ q)

  allowed_specs :
      (h : Handler) (r r' : Result V)
      → (is_allowed (compare_specs same unmarshal_spec unmarshal_metadata h r r') ≡ true)
        ↔ ((v : V) × (r ≡ ok v) × (r' ≡ ok v))
  unfolding compare_specs
  allowed_specs h (err e) r' = (λ x. ground arith, λ p. ground arith)
  allowed_specs h (ok old) (err e) = (λ x. ground arith, λ p. ground arith)
  allowed_specs h (ok old) (ok new) =
      let i = allowed_same h old new _ refl in
      (
        λ x. (old, refl, ap (λ v. ok v) (sym (i.0 x))),
        λ (v, p, q). i.1 (ok_inj old v (ok old) refl p ∙ sym (ok_inj new v (ok new) refl q)),
      )

  allowed_if :
      (b : Bool) (m : String) (r : Response)
      → is_allowed r ≡ false
      → is_allowed (if b then allowed m else r) ≡ b
  allowed_if true m r e = refl
  allowed_if false m r e = e

  confirmed_ok :
      (m n : ObjectMeta)
      → ok m ≡ ok n
      → deletion_confirmed n.annotations ≡ true
      → deletion_confirmed m.annotations ≡ true
  confirmed_ok m n p q =
      ap
        (λ (x : Result ObjectMeta). elim x [
          | ok y ↦ deletion_confirmed y.annotations
          | err e ↦ true
        ])
        p
      ∙ q

  allowed_confirmation :
      (h : Handler) (req : Request) (r : Result ObjectMeta)
      → (is_allowed (check_confirmation same unmarshal_spec unmarshal_metadata h req r) ≡ true)
        ↔ ((m : ObjectMeta) × (r ≡ ok m) × (deletion_confirmed m.annotations ≡ true))
  unfolding check_confirmation
  allowed_confirmation h req (err e) = (λ x. ground arith, λ p. ground arith)
  allowed_confirmation h req (ok m) = (
    λ x. (m, refl, sym (allowed_if _ _ _ refl) ∙ x),
    λ (n, p, q). allowed_if _ _ _ refl ∙ confirmed_ok m n p q,
  )

  unless :
      {A : Type 0} (b : Bool) (m : String) (r : Response)
      → (is_allowed r ≡ true) ↔ A
      → (is_allowed (if b then r else allowed m) ≡ true) ↔ ((b ≡ false) ⊎ A)
  unless true m r i = (λ x. inr (i.0 x), λ p. ground (arith, i.1))
  unless false m r i = (λ x. inl refl, λ p. refl)

  or_else :
      {A : Type 0} (b : Bool) (m : String) (r : Response)
      → (is_allowed r ≡ true) ↔ A
      → (is_allowed (if b then allowed m else r) ≡ true) ↔ ((b ≡ true) ⊎ A)
  or_else true m r i = (λ x. inl refl, λ p. refl)
  or_else false m r i = (λ x. inr (i.0 x), λ p. ground (arith, i.1))

  allowed_operation :
      (h : Handler) (req : Request) (o : Operation)
      → req.operation ≡ o
      → (is_allowed (handle same unmarshal_spec unmarshal_metadata h req) ≡ true)
        ↔ PermittedBy h req o
  unfolding handle IsUnchanged IsConfirmed
  allowed_operation h req create e = rw e (λ x. tt, λ p. refl)
  allowed_operation h req connect e = rw e (λ x. tt, λ p. refl)
  allowed_operation h req update e = rw e (unless _ _ _ (allowed_specs h _ _))
  allowed_operation h req delete e = rw e (or_else _ _ _ (allowed_confirmation h req _))

  -- A request is let through exactly if it neither updates nor deletes; or it updates an object whose
  -- spec may change, or does not change; or it deletes for a cleanup user of the operator, or an
  -- object whose annotation confirms it.
  pub handle_iff :
      (h : Handler) (req : Request)
      → (is_allowed (handle same unmarshal_spec unmarshal_metadata h req) ≡ true)
        ↔ IsPermitted h req
  unfolding IsPermitted
  handle_iff h req = allowed_operation h req _ refl
