-- ===== src/Effect/Yields.antt =====
-- What an action's result satisfies whenever it returns, and the rule that hands it to the action
-- behind; and what the log satisfies behind an action, whatever it was before.
use tamoss.Base.{◌≡◌, ◌∙◌, refl, ap, Option, List}
use tamoss.Kube.{Error}
use tamoss.Effect.{
  Result, ok, err, Action, return, throw, call, lift, attempt, observe, resume, or_absent, ◌>>=◌,
}
use tamoss.Effect.Preserves.{Preserves, Preserves-attempt, Preserves-lift}

-- A property of a value that is there.
abbrev pub OfResult {ℓ κ} : {A : Type ℓ} → (A → Type κ) → Result A → Type κ
OfResult Q (ok a) = Q a
OfResult Q (err e) = Unit

pub of_itself {ℓ} : {A : Type ℓ} (r : Result A) → OfResult (λ a. r ≡ ok a) r
of_itself (ok a) = refl
of_itself (err e) = tt

pub record Yields {C A : Type 0} (Q : A → Type 0) (m : Action C A) : Type 0 where
  pub holds : (log : List C) → OfResult Q (m log).0

module _ {C A : Type 0} {Q : A → Type 0} where
  pub Yields-throw : (e : Error) → Yields {C = C} Q (throw e)
  unfolding ◌>>=◌
  Yields-throw e = record { holds = λ log. tt }

  pub Yields-return : (a : A) → Q a → Yields {C = C} Q (return a)
  unfolding ◌>>=◌
  Yields-return a q = record { holds = λ log. q }

  pub Yields-lift : (r : Result A) → OfResult Q r → Yields {C = C} Q (lift r)
  unfolding ◌>>=◌
  Yields-lift r q = record { holds = λ log. q }

  pub Yields-call :
      (c : C) (answer : List C → Result A)
      → ((log : List C) → OfResult Q (answer log))
      → Yields Q (call c answer)
  unfolding ◌>>=◌
  Yields-call c answer q = record { holds = q }

  pub Yields-attempt : (m : Action C A) → Yields Q m → Yields (OfResult Q) (attempt m)
  unfolding ◌>>=◌
  Yields-attempt m k = record { holds = k.holds }

module _ {A : Type 0} {R Q : A → Type 0} where
  OfResult-imply : (r : Result A) → OfResult R r → ((a : A) → R a → Q a) → OfResult Q r
  OfResult-imply (ok a) h k = k a h
  OfResult-imply (err e) h k = tt

module _ {C A : Type 0} {R Q : A → Type 0} where
  pub Yields-imply : (m : Action C A) → Yields R m → ((a : A) → R a → Q a) → Yields Q m
  Yields-imply m h k = record { holds = λ log. OfResult-imply _ (h.holds log) k }

module _ {C A B : Type 0} {R : A → Type 0} {Q : B → Type 0} where
  Yields-resume :
      (r : Result A) (f : A → Action C B) (log : List C)
      → OfResult R r
      → ((a : A) → R a → Yields Q (f a))
      → OfResult Q (resume r f log).0
  Yields-resume (ok a) f log q k = (k a q).holds log
  Yields-resume (err e) f log q k = tt

  pub Yields-bind :
      (m : Action C A) (f : A → Action C B)
      → Yields R m
      → ((a : A) → R a → Yields Q (f a))
      → Yields Q (m >>= f)
  unfolding ◌>>=◌
  Yields-bind m f km kf = record {
    holds = λ log. let (r, log') = m log in Yields-resume r f log' (km.holds log) kf;
  }

module _ {C A B : Type 0} {P : List C → Type 0} {R : A → Type 0} where
  Preserves-resume_yield :
      (r : Result A) (f : A → Action C B) (log : List C)
      → OfResult R r
      → ((a : A) → R a → Preserves P (f a))
      → P log
      → P (resume r f log).1
  Preserves-resume_yield (ok a) f log q k h = (k a q).holds log h
  Preserves-resume_yield (err e) f log q k h = h

  -- The action behind may rely on what the first one yields.
  pub Preserves-bind_yield :
      (m : Action C A) (f : A → Action C B)
      → Preserves P m
      → Yields R m
      → ((a : A) → R a → Preserves P (f a))
      → Preserves P (m >>= f)
  unfolding ◌>>=◌
  Preserves-bind_yield m f km ym kf = record {
    holds = λ log h.
        let (r, log') = m log in Preserves-resume_yield r f log' (ym.holds log) kf (km.holds log h);
  }

OfResult-any : {A : Type 0} (r : Result A) → OfResult (λ a. Unit {0}) r
OfResult-any (ok a) = tt
OfResult-any (err e) = tt

module _ {C A : Type 0} where
  pub Yields-any : (m : Action C A) → Yields (λ a. Unit {0}) m
  Yields-any m = record { holds = λ log. OfResult-any _ }

-- An answer that the action has at some log.
pub record Answers {C A : Type 0} (m : Action C A) (a : A) : Type 0 where
  pub at : List C
  pub answered : (m at).0 ≡ ok a

module _ {C A : Type 0} where
  pub Yields-Answers : (m : Action C A) → Yields (Answers m) m
  Yields-Answers m = record {
    holds = λ log.
        OfResult-imply {Q = Answers m} (m log).0 (of_itself (m log).0)
          (λ a e. record { at = log; answered = e });
  }

-- What a read found, or that there was nothing: the answer at some log.
pub record Found {C A : Type 0} (answer : List C → Result A) (found : Option A) : Type 0 where
  pub at : List C
  pub answered : or_absent (answer at) ≡ ok found

module _ {C A : Type 0} (c : C) (answer : List C → Result A) where
  pub Yields-answer : Yields (λ r. (log : List C) × (answer log ≡ r)) (attempt (call c answer))
  unfolding ◌>>=◌
  Yields-answer = record { holds = λ log. (log, refl) }

  Yields-Found :
      (r : Result A)
      → ((log : List C) × (answer log ≡ r))
      → Yields {C = C} (Found answer) (lift (or_absent r))
  Yields-Found r (log, e) =
      Yields-imply _ (Yields-lift _ (of_itself (or_absent r)))
        (λ found h. record { at = log; answered = ap or_absent e ∙ h })

module _ {C A B : Type 0} {P : List C → Type 0} (c : C) (answer : List C → Result A) where
  -- The action behind a read may rely on what was found.
  pub Preserves-Found :
      (f : Option A → Action C B)
      → Preserves P (call c answer)
      → ((found : Option A) → Found answer found → Preserves P (f found))
      → Preserves P (attempt (call c answer) >>= λ r. lift (or_absent r) >>= f)
  Preserves-Found f k h =
      Preserves-bind_yield _ _ (Preserves-attempt _ k) (Yields-answer c answer)
        (λ r e. Preserves-bind_yield _ _ (Preserves-lift _) (Yields-Found c answer r e) h)

pub record Leads {C A : Type 0} (P : List C → Type 0) (m : Action C A) : Type 0 where
  pub holds : (log : List C) → P (m log).1

module _ {C A B : Type 0} {P : List C → Type 0} {R : A → Type 0} where
  -- Behind an action whose error is a value.
  pub Leads-attempt :
      (m : Action C A) (f : Result A → Action C B)
      → Yields R m
      → ((r : Result A) → OfResult R r → Leads P (f r))
      → Leads P (attempt m >>= f)
  unfolding ◌>>=◌
  Leads-attempt m f ym kf = record {
    holds = λ log. let (r, log') = m log in (kf r (ym.holds log)).holds log';
  }

module _ {C A B : Type 0} {P : List C → Type 0} where
  pub Leads-observe :
      (f : List C → A) (k : A → Action C B)
      → ((log : List C) → P ((k (f log) log).1))
      → Leads P (observe f >>= k)
  unfolding ◌>>=◌
  Leads-observe f k h = record { holds = h }
