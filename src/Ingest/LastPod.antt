-- ===== src/Ingest/LastPod.antt =====
-- The Pod that terminalIngestPodResult of ingest_stream.go selects ended last.
use tamoss.Base.{
  String, ◌==◌, ◌≤◌, ◌≡◌, refl, Bool, true, false, ◌⊎◌, inl, inr, Option, none, some, List, [], ◌∷◌,
  All, ltb, arith, if◌then◌else◌,
}
use mathlib.Core.List.{Mem, mem-cons_of_mem, mem-cons_self}
use tamoss.Kube.{Time}
use tamoss.Ingest.Run.{Pod, ContainerStatus, Terminated}
use tamoss.Ingest.Pods.{
  Selected, later, considered, consider, consider_owned, is_owned, consider_containers,
  consider_pods,
}

-- The selected container ended at the time or later.
unfoldable pub Covers : Selected → Time → Type 0
Covers none n = ⊥
Covers (some (name, t)) n = n ≤ t.finished_at

-- A container that TAMSin ran in, and that has ended, ended no later than the selected one.
abbrev CoveredBy : Selected → Bool → Option Terminated → Type 0
CoveredBy s is_tamsin none = Unit
CoveredBy s is_tamsin (some t) = (is_tamsin ≡ false) ⊎ Covers s t.finished_at

unfoldable pub IsCovered : Selected → ContainerStatus → Type 0
IsCovered s c = CoveredBy s (c.name == "tamsin") c.terminated

-- Of two containers the later one is taken.
Covers-pick :
    (b : Bool) (name m : String) (t u : Terminated)
    → ltb u.finished_at t.finished_at ≡ b
    → Covers (if b then some (name, t) else some (m, u)) t.finished_at
      × Covers (if b then some (name, t) else some (m, u)) u.finished_at
unfolding Covers
Covers-pick true name m t u e = ground arith
Covers-pick false name m t u e = ground arith

Covers-trans : (s : Selected) (n m : Time) → n ≤ m → Covers s m → Covers s n
unfolding Covers
Covers-trans none n m h k = k
Covers-trans (some (name, t)) n m h k = omega arith

Covers-later :
    (s : Selected) (name : String) (t : Terminated) (n : Time)
    → Covers s n
    → Covers (later s name t) n
unfolding Covers
Covers-later none name t n h = absurd h
Covers-later (some (m, u)) name t n h =
    Covers-trans (later (some (m, u)) name t) n u.finished_at h (Covers-pick _ name m t u refl).1

Covers-own : (s : Selected) (name : String) (t : Terminated) → Covers (later s name t) t.finished_at
unfolding Covers
Covers-own none name t = omega arith
Covers-own (some (m, u)) name t = (Covers-pick _ name m t u refl).0

Covers-considered :
    (name : String) (s : Selected) (b : Bool) (t : Option Terminated) (n : Time)
    → Covers s n
    → Covers (considered name s b t) n
Covers-considered name s b none n h = h
Covers-considered name s true (some t) n h = Covers-later s name t n h
Covers-considered name s false (some t) n h = h

-- What later steps leave covered.
abbrev Grows : Selected → Selected → Type 0
Grows s s' = (n : Time) → Covers s n → Covers s' n

Grows-containers :
    (name : String) (cs : List ContainerStatus) (s : Selected)
    → Grows s (consider_containers name s cs)
unfolding consider_containers consider
Grows-containers name [] s n h = h
Grows-containers name (c ∷ cs) s n h =
    Grows-containers name cs _ n (Covers-considered name s _ c.terminated n h)

Grows-owned : (p : Pod) (s : Selected) (b : Bool) → Grows s (consider_owned p s b)
Grows-owned p s true n h = Grows-containers _ p.container_statuses s n h
Grows-owned p s false n h = h

Grows-pods : (uid : String) (ps : List Pod) (s : Selected) → Grows s (consider_pods uid s ps)
unfolding consider_pods
Grows-pods uid [] s n h = h
Grows-pods uid (p ∷ ps) s n h = Grows-pods uid ps _ n (Grows-owned p s (is_owned uid p) n h)

CoveredBy-considered :
    (name : String) (s s' : Selected) (b : Bool) (t : Option Terminated)
    → Grows (considered name s b t) s'
    → CoveredBy s' b t
CoveredBy-considered name s s' b none g = tt
CoveredBy-considered name s s' true (some t) g = inr (g _ (Covers-own s name t))
CoveredBy-considered name s s' false (some t) g = inl refl

All-containers :
    (name : String) (s' : Selected) (cs : List ContainerStatus) (s : Selected)
    → Grows (consider_containers name s cs) s'
    → All (IsCovered s') cs
unfolding consider_containers consider IsCovered
All-containers name s' [] s g = tt
All-containers name s' (c ∷ cs) s g = (
  CoveredBy-considered name s s' _ c.terminated (λ n h. g n (Grows-containers name cs _ n h)),
  All-containers name s' cs _ g,
)

-- Every container of an owned Pod is covered.
unfoldable pub IsPodCovered : String → Selected → Pod → Type 0
IsPodCovered uid s p = (is_owned uid p ≡ false) ⊎ All (IsCovered s) p.container_statuses

All-owned :
    (uid : String) (p : Pod) (s s' : Selected) (b : Bool)
    → is_owned uid p ≡ b
    → Grows (consider_owned p s b) s'
    → IsPodCovered uid s' p
unfolding IsPodCovered
All-owned uid p s s' true e g = inr (All-containers _ s' p.container_statuses s g)
All-owned uid p s s' false e g = inl e

All-pods :
    (uid : String) (s' : Selected) (ps : List Pod) (s : Selected)
    → Grows (consider_pods uid s ps) s'
    → All (IsPodCovered uid s') ps
unfolding consider_pods
All-pods uid s' [] s g = tt
All-pods uid s' (p ∷ ps) s g =
    (All-owned uid p s s' _ refl (λ n h. g n (Grows-pods uid ps _ n h)), All-pods uid s' ps _ g)

-- The selected end is one that a container of TAMSin's, of an owned Pod of the list, has.
unfoldable pub IsFrom : String → List Pod → Selected → Type 0
IsFrom uid pods none = Unit
IsFrom uid pods (some (name, t)) =
    (p : Pod) × (c : ContainerStatus) × Mem p pods
    × (is_owned uid p ≡ true)
    × (name ≡ p.metadata.name)
    × Mem c p.container_statuses
    × ((c.name == "tamsin") ≡ true)
    × (c.terminated ≡ some t)

module _ (uid : String) (pods : List Pod) where
  module _ (p : Pod) (in_list : Mem p pods) (owned : is_owned uid p ≡ true) where
    IsFrom-later :
        (s : Selected) (t : Terminated)
        → IsFrom uid pods s
        → IsFrom uid pods (some (p.metadata.name, t))
        → IsFrom uid pods (later s p.metadata.name t)
    IsFrom-later none t h k = k
    IsFrom-later (some (n, u)) t h k =
        elim (ltb u.finished_at t.finished_at)
          as (λ b. IsFrom uid pods (if b then some (p.metadata.name, t) else some (n, u))) [
            | true ↦ k
            | false ↦ h
          ]

    IsFrom-considered :
        (c : ContainerStatus) (s : Selected) (b : Bool) (t : Option Terminated)
        → Mem c p.container_statuses
        → (c.name == "tamsin") ≡ b
        → c.terminated ≡ t
        → IsFrom uid pods s
        → IsFrom uid pods (considered p.metadata.name s b t)
    unfolding IsFrom
    IsFrom-considered c s b none m e f h = h
    IsFrom-considered c s false (some t) m e f h = h
    IsFrom-considered c s true (some t) m e f h =
        IsFrom-later s t h (p, c, in_list, owned, refl, m, e, f)

    IsFrom-containers :
        (cs : List ContainerStatus) (s : Selected)
        → ((c : ContainerStatus) → Mem c cs → Mem c p.container_statuses)
        → IsFrom uid pods s
        → IsFrom uid pods (consider_containers p.metadata.name s cs)
    unfolding consider_containers consider
    IsFrom-containers [] s inside h = h
    IsFrom-containers (c ∷ cs) s inside h =
        IsFrom-containers cs _ (λ d m. inside d (mem-cons_of_mem _ m))
          (IsFrom-considered c s _ _ (inside c mem-cons_self) refl refl h)

  IsFrom-owned :
      (p : Pod) (s : Selected) (b : Bool)
      → Mem p pods
      → is_owned uid p ≡ b
      → IsFrom uid pods s
      → IsFrom uid pods (consider_owned p s b)
  IsFrom-owned p s true m e h = IsFrom-containers p m e _ s (λ c m. m) h
  IsFrom-owned p s false m e h = h

  IsFrom-pods :
      (ps : List Pod) (s : Selected)
      → ((p : Pod) → Mem p ps → Mem p pods)
      → IsFrom uid pods s
      → IsFrom uid pods (consider_pods uid s ps)
  unfolding consider_pods
  IsFrom-pods [] s inside h = h
  IsFrom-pods (p ∷ ps) s inside h =
      IsFrom-pods ps _ (λ q m. inside q (mem-cons_of_mem _ m))
        (IsFrom-owned p s _ (inside p mem-cons_self) refl h)

-- Among the Pods of a Job, the selected end is one of a container of TAMSin's in a Pod that the Job
-- owns, and every ended container of TAMSin's in such a Pod ended no later; in particular one is
-- selected exactly if there is any.
pub consider_pods-last :
    (uid : String) (ps : List Pod)
    → IsFrom uid ps (consider_pods uid none ps)
      × All (IsPodCovered uid (consider_pods uid none ps)) ps
unfolding IsFrom
consider_pods-last uid ps =
    (IsFrom-pods uid ps ps none (λ p m. m) tt, All-pods uid _ ps none (λ n h. h))
