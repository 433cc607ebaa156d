-- ===== src/Effect/Preserves.antt =====
-- Invariants of the log of calls: an action preserves one whether it returns or stops, and a rule
-- for each way to build an action lets `search` prove it of a whole `do` block.
use tamoss.Base.{◌≡◌, refl, Bool, true, false, List, [], ◌∷◌, if◌then◌else◌}
use tamoss.Kube.{Error}
use tamoss.Effect.{
  Result, ok, err, Action, return, throw, call, lift, attempt, observe, resume, ◌>>=◌,
}

pub record Preserves {C A : Type 0} (P : List C → Type 0) (m : Action C A) : Type 0 where
  pub holds : (log : List C) → P log → P (m log).1

module _ {C A : Type 0} {P : List C → Type 0} where
  pub Preserves-return : (a : A) → Preserves P (return a)
  unfolding ◌>>=◌
  Preserves-return a = record { holds = λ log h. h }

  pub Preserves-throw : (e : Error) → Preserves P (throw {A = A} e)
  unfolding ◌>>=◌
  Preserves-throw e = record { holds = λ log h. h }

  pub Preserves-lift : (r : Result A) → Preserves P (lift r)
  unfolding ◌>>=◌
  Preserves-lift r = record { holds = λ log h. h }

  pub Preserves-observe : (f : List C → A) → Preserves P (observe f)
  unfolding ◌>>=◌
  Preserves-observe f = record { holds = λ log h. h }

  pub Preserves-attempt : (m : Action C A) → Preserves P m → Preserves P (attempt m)
  unfolding ◌>>=◌
  Preserves-attempt m k = record { holds = k.holds }

  -- A call is allowed where it keeps the invariant.
  pub Preserves-call :
      (c : C) (answer : List C → Result A)
      → ((log : List C) → P log → P (c ∷ log))
      → Preserves P (call c answer)
  unfolding ◌>>=◌
  Preserves-call c answer allowed = record { holds = allowed }

  pub Preserves-if :
      (b : Bool) (m n : Action C A)
      → (b ≡ true → Preserves P m)
      → (b ≡ false → Preserves P n)
      → Preserves P (if b then m else n)
  Preserves-if true m n km kn = km refl
  Preserves-if false m n km kn = kn refl

module _ {C A B : Type 0} {P : List C → Type 0} where
  Preserves-resume :
      (r : Result A) (f : A → Action C B)
      → ((a : A) → Preserves P (f a))
      → (log : List C) → P log
      → P (resume r f log).1
  Preserves-resume (ok a) f kf log h = (kf a).holds log h
  Preserves-resume (err e) f kf log h = h

  pub Preserves-bind :
      (m : Action C A) (f : A → Action C B)
      → Preserves P m
      → ((a : A) → Preserves P (f a))
      → Preserves P (m >>= f)
  unfolding ◌>>=◌
  Preserves-bind m f km kf = record {
    holds = λ log h. let (r, log') = m log in Preserves-resume r f kf log' (km.holds log h);
  }

-- The same of a run from one log.
pub record Ends {C A : Type 0} (P : List C → Type 0) (m : Action C A) (log : List C) : Type 0 where
  pub holds : P (m log).1

module _ {C A : Type 0} {P : List C → Type 0} where
  pub Ends-Preserves : (m : Action C A) (log : List C) → Preserves P m → P log → Ends P m log
  Ends-Preserves m log km k = record { holds = km.holds log k }

  pub Ends-if :
      (b : Bool) (m n : Action C A) (log : List C)
      → Ends P m log
      → Ends P n log
      → Ends P (if b then m else n) log
  Ends-if true m n log km kn = km
  Ends-if false m n log km kn = kn

module _ {C A B : Type 0} {P : List C → Type 0} where
  pub Ends-observe :
      (f : List C → A) (k : A → Action C B) (log : List C)
      → Ends P (k (f log)) log
      → Ends P (observe f >>= k) log
  unfolding ◌>>=◌
  Ends-observe f k log h = record { holds = h.holds }

  -- Behind the call that `m` makes.
  pub Ends-call :
      (c : C) (answer : List C → Result A) (f : A → Action C B) (log : List C)
      → P (c ∷ log)
      → ((a : A) → Preserves P (f a))
      → Ends P (call c answer >>= f) log
  unfolding ◌>>=◌
  Ends-call c answer f log km kf = record {
    holds = Preserves-resume (answer log) f kf (c ∷ log) km;
  }

  pub Ends-bind :
      (m : Action C A) (f : A → Action C B) (log : List C)
      → Ends P m log
      → ((a : A) → Preserves P (f a))
      → Ends P (m >>= f) log
  unfolding ◌>>=◌
  Ends-bind m f log km kf = record {
    holds = let (r, log') = m log in Preserves-resume r f kf log' km.holds;
  }

pub ruleset preserves_rules = (
  Preserves-return, Preserves-throw, Preserves-lift, Preserves-observe, Preserves-attempt,
  Preserves-if, Preserves-bind,
)

-- A discipline of calls: what is allowed of a call may depend on the calls before it.
module _ {C : Type 0} where
  unfoldable pub Every : (C → List C → Type 0) → List C → Type 0
  Every allowed [] = Unit
  Every allowed (c ∷ log) = allowed c log × Every allowed log

module _ {C : Type 0} (allowed : C → List C → Type 0) where
  pub Every-cons :
      (c : C) (log : List C) → allowed c log → Every allowed log → Every allowed (c ∷ log)
  unfolding Every
  Every-cons c log a k = (a, k)

module _ {C A : Type 0} (allowed : C → List C → Type 0) where
  pub Preserves-Every :
      (c : C) (answer : List C → Result A)
      → ((log : List C) → allowed c log)
      → Preserves (Every allowed) (call c answer)
  unfolding Every
  Preserves-Every c answer ok_call = Preserves-call c answer (λ log h. (ok_call log, h))
