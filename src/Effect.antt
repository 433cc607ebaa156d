-- ===== src/Effect.antt =====
-- Controller code as actions over the log of the calls that it has made, the latest first. What a
-- call answers is a function of that log, which the environment chooses, so two reads of one object
-- may differ. An action returns, or stops with a Go error; the calls made before stay made.
pub mod Preserves
pub mod Yields
use tamoss.Base.{Option, none, some, List, ◌∷◌}
use tamoss.Kube.{Error, not_found, already_exists}

pub data Result {ℓ} (A : Type ℓ) : Type ℓ where
  ok : A → Result A
  err : Error → Result A

abbrev pub Action : Type 0 → Type 0 → Type 0
Action C A = List C → Result A × List C

module _ {C A : Type 0} where
  pub return : A → Action C A
  return a log = (ok a, log)

  pub throw : Error → Action C A
  throw e log = (err e, log)

  -- Makes the call; `answer` is the environment's.
  pub call : C → (List C → Result A) → Action C A
  call c answer log = (answer log, c ∷ log)

  -- A pure result that may be an error.
  pub lift : Result A → Action C A
  lift r log = (r, log)

  -- The result as a value, where the code goes on after an error.
  pub attempt : Action C A → Action C (Result A)
  attempt m log = let (r, log') = m log in (ok r, log')

  -- A look at the environment that leaves no trace, such as the clock's.
  pub observe : (List C → A) → Action C A
  observe f log = (ok (f log), log)

module _ {C A B : Type 0} where
  abbrev pub resume : Result A → (A → Action C B) → Action C B
  resume (ok a) f log = f a log
  resume (err e) f log = (err e, log)

  infixl 10 ◌>>=◌ ◌>>◌
  -- To unfold a sequence is to unfold the basic actions too.
  unfoldable pub ◌>>=◌ : Action C A → (A → Action C B) → Action C B
  unfolding return throw call lift attempt observe
  ◌>>=◌ m f log = let (r, log') = m log in resume r f log'

  abbrev pub ◌>>◌ : Action C A → Action C B → Action C B
  m >> n = m >>= λ _. n

module _ {A : Type 0} where
  -- A read whose `IsNotFound` error the code takes for the absence of the object.
  unfoldable pub or_absent : Result A → Result (Option A)
  or_absent (ok a) = ok (some a)
  or_absent (err not_found) = ok none
  or_absent (err e) = err e

-- `client.IgnoreNotFound(err)`, and the same for `IsAlreadyExists`.
unfoldable pub ignore_not_found : Result (Unit {0}) → Result (Unit {0})
ignore_not_found (err not_found) = ok tt
ignore_not_found r = r

unfoldable pub ignore_already_exists : Result (Unit {0}) → Result (Unit {0})
ignore_already_exists (err already_exists) = ok tt
ignore_already_exists r = r
