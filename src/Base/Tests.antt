-- ===== src/Base/Tests.antt =====
-- Boolean tests, the conditional, and ways to split on a computed value.
use Prim.Native.Nat.{ℕ, compare, Ordering}
use Prim.Native.String.{String}
use mathlib.Core.Path.{◌≡◌, refl}
use mathlib.Core.Logic.{◌⊎◌, inl, inr}
use mathlib.Core.Bool.{Bool, true, false}
use mathlib.Core.Option.{Option, none, some}
use native.Mathlib.Omega.{arith}
use text.Mathlib.Text.{◌==◌}
use text.Mathlib.TextEquality.{eq_iff}

abbrev pub ltb : ℕ → ℕ → Bool
ltb a b = elim (compare a b) [ Ordering.lt ↦ true | _ ↦ false ]

abbrev pub leb : ℕ → ℕ → Bool
leb a b = elim (compare a b) [ Ordering.gt ↦ false | _ ↦ true ]

abbrev pub nat_eq : ℕ → ℕ → Bool
nat_eq a b = elim (compare a b) [ Ordering.eq ↦ true | _ ↦ false ]

infix 1 if◌then◌else◌
abbrev pub if◌then◌else◌ {ℓ} : {A : Type ℓ} → Bool → A → A → A
if true then x else y = x
if false then x else y = y

pub Bool-cases : (b : Bool) → (b ≡ true) ⊎ (b ≡ false)
Bool-cases true = inl refl
Bool-cases false = inr refl

abbrev pub is_some {ℓ} : {A : Type ℓ} → Option A → Bool
is_some none = false
is_some (some a) = true

abbrev pub is_none {ℓ} : {A : Type ℓ} → Option A → Bool
is_none none = true
is_none (some a) = false

-- The Boolean of a decision.
abbrev pub decided {ℓ} : {A : Type ℓ} → Dec A → Bool
decided (yes p) = true
decided (no p) = false

pub of_decided {ℓ} : {A : Type ℓ} (d : Dec A) → decided d ≡ true → A
of_decided (yes p) e = p
of_decided (no p) e = ground arith

pub decided_of {ℓ} : {A : Type ℓ} (d : Dec A) → A → decided d ≡ true
decided_of (yes p) a = refl
decided_of (no p) a = absurd (p a)

-- Equality of texts as a decision, for the equality of records that hold texts.
String-decide : (s t : String) (b : Bool) → (s == t) ≡ b → Dec (s ≡ t)
String-decide s t true e = yes ((eq_iff s t).0 e)
String-decide s t false e = no (λ p. ground (arith, (eq_iff s t).1 p))

pub String-discrete : Discrete String
String-discrete s t = String-decide s t (s == t) refl
