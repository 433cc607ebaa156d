-- ===== src/DeleteProtection.antt =====
-- operator/internal/webhook/deleteprotection/deleteprotection.go: the decision on an admission
-- request. The decoding of the objects (encoding/json) is a parameter.
pub mod Decision
use Prim.Native.Char.{Char, code}
use Prim.Native.Nat.{◌+◌}
use mathlib.Core.Bool.{not}
use mathlib.Core.Logic.{◌↔◌}
use tamoss.Base.{
  ℕ, String, ◌==◌, ◌≡◌, refl, Bool, true, false, ◌&&◌, ◌||◌, ◌⊎◌, inl, inr, Option, none, some,
  List, [], ◌∷◌, any, decided, leb, nat_eq, arith, if◌then◌else◌,
}
use tamoss.Base.Assoc.{get}
use tamoss.Base.Text.{trim_space}
use tamoss.Kube.{Error, errorf, wrapf, Message, literal, sprintf, ObjectMeta}
use tamoss.Effect.{Result, ok, err}

-- `admissionv1.Operation`.
pub data Operation : Type 0 where
  create update delete connect : Operation

-- `admission.Request`: the raw objects as texts, the empty text for none.
pub record Request : Type 0 where
  pub operation : Operation
  pub kind : String
  pub name : String
  pub username : String
  pub old_object : String
  pub object : String

-- `admission.Response`, by the function that makes it.
pub data Response : Type 0 where
  allowed : String → Response
  denied : Message → Response
  errored : Error → Response

-- `Handler`; `users` is the set `OperatorCleanupUsers`.
pub record Handler : Type 0 where
  pub kind : String
  pub users : List String
  pub immutable_spec : Bool

-- The loop of `NewHandler`.
unfoldable pub cleanup_users : List String → List String
unfolding trim_space
cleanup_users [] = []
cleanup_users (u ∷ us) =
    let rest = cleanup_users us in if trim_space u == "" then rest else trim_space u ∷ rest

-- `NewHandler`.
unfoldable pub new_handler : String → List String → Handler
unfolding cleanup_users
new_handler kind users = record { kind = kind; users = cleanup_users users; immutable_spec = false }

-- `NewImmutableSpecHandler`.
unfoldable pub new_immutable_spec_handler : String → List String → Handler
unfolding new_handler
new_immutable_spec_handler kind users = record (new_handler kind users) { immutable_spec = true }

abbrev pub confirmation_annotation : String
confirmation_annotation = "confirmation.tamoss.livewyer.io/deletion"

abbrev lower_code : Char → ℕ
lower_code c = let n = code c in if leb b'A' n && leb n b'Z' then n + 32 else n

-- `strings.EqualFold`, of a text whose characters fold with ASCII letters only, as those of "true" do.
unfoldable pub equal_fold : String → String → Bool
equal_fold String.[] String.[] = true
equal_fold String.[] (String.◌∷◌ d t) = false
equal_fold (String.◌∷◌ c s) String.[] = false
equal_fold (String.◌∷◌ c s) (String.◌∷◌ d t) =
    let rest = equal_fold s t in nat_eq (lower_code c) (lower_code d) && rest

-- `deletionConfirmed`.
unfoldable pub deletion_confirmed : List (String × String) → Bool
unfolding equal_fold trim_space get
deletion_confirmed annotations =
    equal_fold (trim_space (get confirmation_annotation annotations)) "true"

-- `operatorCleanupAllowed`.
unfoldable pub operator_cleanup_allowed : Handler → String → Bool
operator_cleanup_allowed h username = any (λ u. u == username) h.users

abbrev pub is_update : Operation → Bool
is_update update = true
is_update o = false

abbrev pub is_delete : Operation → Bool
is_delete delete = true
is_delete o = false

abbrev pub is_allowed : Response → Bool
is_allowed (allowed m) = true
is_allowed r = false

-- The values of a spec, with `reflect.DeepEqual`.
module _ {V : Type 0} (same : Discrete V) (unmarshal_spec : String → Result V)
    (unmarshal_metadata : String → Result ObjectMeta) where
  abbrev decoded : {A : Type 0} → String → Result A → Result A
  decoded f (ok a) = ok a
  decoded f (err e) = err (wrapf f [] e)

  -- `objectSpec`.
  unfoldable pub object_spec : String → Result V
  object_spec raw =
      if raw == ""
      then err (errorf "admission request did not include an object" [])
      else decoded "decode admission object: %w" (unmarshal_spec raw)

  -- `oldObjectMetadata`.
  unfoldable pub old_object_metadata : Request → Result ObjectMeta
  old_object_metadata req =
      if req.old_object == ""
      then err (
          errorf "delete request for %s %q did not include old object metadata"
            (req.kind ∷ req.name ∷ []))
      else decoded "decode old object metadata: %w" (unmarshal_metadata req.old_object)

  unfoldable pub compare_specs : Handler → Result V → Result V → Response
  compare_specs h (err e) new = errored e
  compare_specs h (ok old) (err e) = errored e
  compare_specs h (ok old) (ok new) =
      if decided (same old new)
      then allowed "immutable spec is unchanged"
      else denied (sprintf "%s spec is immutable; create a new resource instead." (h.kind ∷ []))

  unfoldable pub check_confirmation : Handler → Request → Result ObjectMeta → Response
  unfolding deletion_confirmed
  check_confirmation h req (err e) = errored e
  check_confirmation h req (ok metadata) =
      if deletion_confirmed metadata.annotations
      then allowed "delete confirmation annotation is present"
      else denied (
          sprintf "%s %q is protected from deletion. Annotate it with %s=true before deleting." (
            h.kind
            ∷ (if req.name == "" then metadata.name else req.name)
            ∷ confirmation_annotation
            ∷ []))

  -- `(Handler).Handle`.
  unfoldable pub handle : Handler → Request → Response
  unfolding object_spec compare_specs check_confirmation old_object_metadata
      operator_cleanup_allowed
  handle h req =
      if is_update req.operation && h.immutable_spec
      then compare_specs h (object_spec req.old_object) (object_spec req.object)
      else if not (is_delete req.operation)
      then allowed "delete protection only handles delete requests"
      else if operator_cleanup_allowed h req.username
      then allowed "operator cleanup is allowed"
      else check_confirmation h req (old_object_metadata req)
