-- ===== src/Releases/Select.antt =====
-- What `Catalogue.Select` accepts, as a statement without the order of its checks.
use mathlib.Core.Logic.{◌↔◌}
use tamoss.Base.{String, eq_iff, ◌≡◌, ◌≢◌, ◌⊎◌, refl, true, false, Option, none, some, arith}
use tamoss.Base.Assoc.{find}
use tamoss.Effect.{ok}
use tamoss.Releases.{Release, Catalogue, contains, unknown_release, select_target, select}

-- An instance may move from a release to another if there is none yet, if it stays, or if the
-- target lists the release as one that it upgrades from, and the catalogue knows it.
abbrev pub MayUpgrade : Catalogue → String → String → Release → Type 0
MayUpgrade c current version target =
    (current ≡ "")
    ⊎ (current ≡ version)
    ⊎ ((unknown_release c current ≡ false) × (contains target.upgrade_from current ≡ true))

pub record IsSelectable (c : Catalogue) (version current pending : String) (r : Release)
    : Type 0 where
  pub named : version ≢ ""
  pub listed : find version c ≡ some r
  pub not_switching : (pending ≡ "") ⊎ (pending ≡ version)
  pub upgradable : MayUpgrade c current version r

module _ (c : Catalogue) (version current pending : String) (r : Release) where
  select_target_sound :
      (o : Option Release)
      → version ≢ ""
      → find version c ≡ o
      → select_target c version current pending o ≡ ok r
      → IsSelectable c version current pending r
  unfolding select_target
  select_target_sound none v l h = ground (arith)
  select_target_sound (some t) v l h =
      ground (
        arith,
        eq_iff pending "",
        eq_iff pending version,
        eq_iff current "",
        eq_iff current version,
      )

  select_sound : select c version current pending ≡ ok r → IsSelectable c version current pending r
  unfolding select
  select_sound h =
      select_target_sound (find version c) (ground (arith, eq_iff version "")) refl (ground (arith))

  select_target_complete :
      (o : Option Release)
      → find version c ≡ o
      → IsSelectable c version current pending r
      → select_target c version current pending o ≡ ok r
  unfolding select_target
  select_target_complete none l s = cc (s.listed)
  select_target_complete (some t) l s =
      ground (
        arith,
        eq_iff pending "",
        eq_iff pending version,
        eq_iff current "",
        eq_iff current version,
      )

  select_complete :
      IsSelectable c version current pending r → select c version current pending ≡ ok r
  unfolding select
  select_complete s =
      ground (arith, eq_iff version "", select_target_complete (find version c) refl s)

  -- `Select` returns a release exactly when the instance names a listed release, no other upgrade
  -- is under way, and the release may follow the current one; it returns the listed one then.
  pub select_iff :
      (select c version current pending ≡ ok r) ↔ IsSelectable c version current pending r
  select_iff = (select_sound, select_complete)
