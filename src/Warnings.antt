-- ===== src/Warnings.antt =====
-- operator/internal/status/events.go: the memory of the warnings that were sent, which keeps one
-- from being sent again within a window.
use tamoss.Base.{
  ℕ, String, String-discrete, ◌+◌, ◌≤◌, ◌<◌, ◌≡◌, refl, sym, ◌∙◌, subst, Bool, true, false, not,
  ◌&&◌, ◌⊎◌, inl, inr, List, [], ◌∷◌, All, ltb, nat_eq, decided, of_decided, decided_of, arith,
  if◌then◌else◌,
}
use tamoss.Kube.{Time}

pub record WarningEventKey : Type 0 where
  pub namespace : String
  pub name : String
  pub reason : String
  pub message : String

pub WarningEventKey-discrete : Discrete WarningEventKey
WarningEventKey-discrete = hlevel (String-discrete)

-- `WarningEventDeduper.last`; a missing key has the zero time.
abbrev pub Memory : Type 0
Memory = WarningEventKey → Time

abbrev pub is_same : WarningEventKey → WarningEventKey → Bool
is_same k j = decided (WarningEventKey-discrete k j)

-- `d.last[key] = now`.
unfoldable pub remember : WarningEventKey → Time → Memory → Memory
remember key now last = λ j. if is_same key j then now else last j

-- The test of `ShouldRecord`: the last time is not zero and less than the window ago.
unfoldable pub is_recent : Time → Time → ℕ → Bool
is_recent last now window = not (nat_eq last 0) && ltb now (last + window)

-- `ShouldRecord`, with the memory behind it; a window that is not positive is zero.
unfoldable pub should_record : WarningEventKey → Time → ℕ → Memory → Bool × Memory
unfolding is_recent remember
should_record key now window last =
    if nat_eq window 0
    then (true, last)
    else if is_recent (last key) now window
    then (false, last)
    else (true, remember key now last)

-- The warnings of a sequence of `EmitWarningEvent` that are sent, in order.
unfoldable pub emitted : ℕ → Memory → List (WarningEventKey × Time) → List (WarningEventKey × Time)
unfolding should_record
emitted window last [] = []
emitted window last ((key, now) ∷ events) =
    let (send, last') = should_record key now window last in
    let rest = emitted window last' events in if send then (key, now) ∷ rest else rest

-- A warning of the key is at the time or later.
unfoldable pub IsFrom : WarningEventKey → Time → WarningEventKey × Time → Type 0
IsFrom key t (j, now) = (is_same key j ≡ false) ⊎ (t ≤ now)

-- Every two warnings with one key are at least the window apart.
unfoldable pub IsSpaced : ℕ → List (WarningEventKey × Time) → Type 0
IsSpaced window [] = Unit
IsSpaced window ((key, t) ∷ events) = All (IsFrom key (t + window)) events × IsSpaced window events

-- Every event has a time that is not zero.
unfoldable pub IsTimed : List (WarningEventKey × Time) → Type 0
IsTimed [] = Unit
IsTimed ((key, t) ∷ events) = (0 < t) × IsTimed events

All-weaken :
    (key : WarningEventKey) (t u : Time) (events : List (WarningEventKey × Time))
    → t ≤ u
    → All (IsFrom key u) events
    → All (IsFrom key t) events
unfolding IsFrom
All-weaken key t u [] h k = tt
All-weaken key t u ((j, now) ∷ events) h (inl e, k) = (inl e, All-weaken key t u events h k)
All-weaken key t u ((j, now) ∷ events) h (inr e, k) =
    (inr (omega arith), All-weaken key t u events h k)

same_sym : (k j : WarningEventKey) (d : Dec (k ≡ j)) (d' : Dec (j ≡ k)) → decided d ≡ decided d'
same_sym k j (yes p) (yes q) = refl
same_sym k j (yes p) (no q) = absurd (q (sym p))
same_sym k j (no p) (yes q) = absurd (p (sym q))
same_sym k j (no p) (no q) = refl

remember_self :
    (key : WarningEventKey) (now : Time) (last : Memory) → remember key now last key ≡ now
unfolding remember
remember_self key now last = rw (decided_of (WarningEventKey-discrete key key) refl) refl

remember_other :
    (key j : WarningEventKey) (now : Time) (last : Memory)
    → is_same key j ≡ false
    → remember j now last key ≡ last key
unfolding remember
remember_other key j now last e =
    rw (same_sym j key (WarningEventKey-discrete j key) (WarningEventKey-discrete key j) ∙ e) refl

-- What is sent behind a warning at the time that the memory has of its key.
module _ (window : ℕ) (positive : nat_eq window 0 ≡ false) where
  abbrev Spaced : WarningEventKey → List (WarningEventKey × Time) → Memory → Type 0
  Spaced key events last = All (IsFrom key (last key + window)) (emitted window last events)

  Spaced-self :
      (key : WarningEventKey) (now : Time) (events : List (WarningEventKey × Time)) (last : Memory)
      → 0 < last key
      → is_recent (last key) now window ≡ false
      → Spaced key events (remember key now last)
      → All
          (IsFrom key (last key + window))
          ((key, now) ∷ emitted window (remember key now last) events)
  unfolding IsFrom is_recent
  Spaced-self key now events last known late h =
      (inr (ground arith), All-weaken key _ _ _ (rw (remember_self key now last) (ground arith)) h)

  Spaced-sent :
      (key j : WarningEventKey) (now : Time) (events : List (WarningEventKey × Time))
      (last : Memory) (c : Bool)
      → is_same key j ≡ c
      → 0 < last key
      → is_recent (last j) now window ≡ false
      → Spaced key events (remember j now last)
      → All
          (IsFrom key (last key + window))
          ((j, now) ∷ emitted window (remember j now last) events)
  unfolding IsFrom
  Spaced-sent key j now events last true same known late h =
      subst
        (λ i.
          is_recent (last i) now window ≡ false
          → Spaced key events (remember i now last)
          → All (IsFrom key (last key + window))
              ((i, now) ∷ emitted window (remember i now last) events))
        (of_decided _ same) (Spaced-self key now events last known) late h
  Spaced-sent key j now events last false other known late h = (
    inl other,
    subst (λ t. All (IsFrom key (t + window)) (emitted window (remember j now last) events))
        (remember_other key j now last other) h,
  )

  remember_known :
      (key j : WarningEventKey) (now : Time) (last : Memory)
      → 0 < now
      → 0 < last key
      → 0 < remember j now last key
  unfolding remember
  remember_known key j now last time known = ground arith

  -- Of one event: what is sent of it and behind it.
  emitted_step :
      (key j : WarningEventKey) (now : Time) (events : List (WarningEventKey × Time))
      (last : Memory) (b : Bool)
      → is_recent (last j) now window ≡ b
      → 0 < last key
      → Spaced key events last
      → Spaced key events (remember j now last)
      → Spaced key ((j, now) ∷ events) last
  unfolding emitted should_record
  emitted_step key j now events last true recent known h k = rw (positive, recent) h
  emitted_step key j now events last false recent known h k =
      rw (positive, recent) (Spaced-sent key j now events last _ refl known recent k)

  Spaced-emitted :
      (key : WarningEventKey) (events : List (WarningEventKey × Time)) (last : Memory)
      → 0 < last key
      → IsTimed events
      → Spaced key events last
  unfolding IsTimed emitted
  Spaced-emitted key [] last known timed = tt
  Spaced-emitted key ((j, now) ∷ events) last known (time, timed) =
      emitted_step key j now events last _ refl known (Spaced-emitted key events last known timed) (
        Spaced-emitted key events (remember j now last) (remember_known key j now last time known)
          timed)

  IsSpaced-step :
      (key : WarningEventKey) (now : Time) (events : List (WarningEventKey × Time)) (last : Memory)
      (b : Bool)
      → is_recent (last key) now window ≡ b
      → 0 < now
      → IsTimed events
      → IsSpaced window (emitted window last events)
      → IsSpaced window (emitted window (remember key now last) events)
      → IsSpaced window (emitted window last ((key, now) ∷ events))
  unfolding emitted should_record IsSpaced
  IsSpaced-step key now events last true recent time timed h k = rw (positive, recent) h
  IsSpaced-step key now events last false recent time timed h k =
      rw (positive, recent)
        (
          subst (λ t. All (IsFrom key (t + window)) (emitted window (remember key now last) events))
              (remember_self key now last)
              (Spaced-emitted key events (remember key now last)
                (rw (remember_self key now last) time) timed),
          k,
        )

  -- Whatever warnings are emitted, in whatever order and at whatever times, and whatever is
  -- remembered at first: of one key, those that are sent are at least the window apart, if the window
  -- is positive and no time is Go's zero time.
  pub emitted-IsSpaced :
      (events : List (WarningEventKey × Time)) (last : Memory)
      → IsTimed events
      → IsSpaced window (emitted window last events)
  unfolding IsTimed emitted IsSpaced
  emitted-IsSpaced [] last timed = tt
  emitted-IsSpaced ((key, now) ∷ events) last (time, timed) =
      IsSpaced-step key now events last _ refl time timed (emitted-IsSpaced events last timed)
        (emitted-IsSpaced events (remember key now last) timed)
