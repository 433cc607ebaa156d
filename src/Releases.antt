-- ===== src/Releases.antt =====
-- operator/internal/releases/catalogue.go and operator/internal/schema: the releases that an
-- installation of the operator knows, which of them an instance may select, and the database
-- schemas that a release supports.
pub mod Select
pub mod Load
pub mod Catalogue
use mathlib.Core.Bool.{not}
use tamoss.Base.{
  String, ◌==◌, Bool, true, false, ◌&&◌, ◌||◌, Option, none, some, List, [], ◌∷◌, any,
  if◌then◌else◌,
}
use tamoss.Base.Assoc.{Assoc, find, put}
use tamoss.Base.Text.{trim_space}
use tamoss.Kube.{Error, errorf, selection, wrapf}
use tamoss.Effect.{Result, ok, err}

-- `schema.Target`.
pub record Target : Type 0 where
  pub version : String
  pub previous_version : String
  pub database_revision : String
  pub tams_api : String

-- `Target.Supports`.
unfoldable pub supports : Target → String → Bool
supports t version =
    let value = trim_space version in
    value == ""
    || value == t.version
    || not (t.previous_version == "") && value == t.previous_version

-- `schema.ValidateVersion`.
unfoldable pub validate_version : String → Result (Unit {0})
validate_version version =
    let value = trim_space version in
    if value == ""
    then err (errorf "schema version is empty" [])
    else if value == "0.0.0" || value == "v0.0.0"
    then err (errorf "schema version %q is a placeholder" (version ∷ []))
    else ok tt

pub record Images : Type 0 where
  pub api : String
  pub ui : String
  pub console : String
  pub postgres_client : String
  pub cnpg_postgres_version : String
  pub rustfs : String
  pub tamsin : String

pub record Release : Type 0 where
  pub version : String
  pub source_commit : String
  pub upgrade_from : List String
  pub schema : Target
  pub images : Images

abbrev pub Catalogue : Type 0
Catalogue = Assoc Release

-- `slices.Contains`.
abbrev pub contains : List String → String → Bool
contains xs s = any (λ x. x == s) xs

-- `c[current].Version == ""`: no such release, or one with no version.
unfoldable pub unknown_release : Catalogue → String → Bool
unknown_release c v = elim (find v c) [ none ↦ true | some r ↦ r.version == "" ]

-- The checks of `Select` behind the lookup of the target.
unfoldable pub select_target :
    Catalogue → String → String → String → Option Release → Result Release
unfolding unknown_release
select_target c version current pending none = err (
    selection "UnsupportedVersion" "Release %q is not supported by this operator installation"
      (version ∷ []))
select_target c version current pending (some target) =
    if not (pending == "") && not (pending == version)
    then err (
        selection "UpgradeInProgress"
          "Complete the selected upgrade to %q before changing spec.version" (pending ∷ []))
    else if not (current == "")
        && not (current == version)
        && (unknown_release c current || not (contains target.upgrade_from current))
    then err (
        selection "UnsupportedUpgrade" "Release %q cannot be upgraded directly to %q"
          (current ∷ version ∷ []))
    else ok target

-- `Catalogue.Select`.
unfoldable pub select : Catalogue → String → String → String → Result Release
unfolding select_target
select c version current pending =
    if version == ""
    then err (
        selection "VersionRequired"
          "Set spec.version to the installed TAMOSS release before reconciliation can continue" [])
    else select_target c version current pending (find version c)

-- The fields of a release that must be there and hold no white space. The source ranges over a
-- map, so which of several faults it names is not fixed; here it is the first of this list.
abbrev pub required_fields : Release → List (String × String)
required_fields r =
    ("databaseRevision", r.schema.database_revision)
    ∷ ("tamsAPI", r.schema.tams_api)
    ∷ ("api", r.images.api)
    ∷ ("ui", r.images.ui)
    ∷ ("console", r.images.console)
    ∷ ("postgresClient", r.images.postgres_client)
    ∷ ("cnpgPostgresVersion", r.images.cnpg_postgres_version)
    ∷ ("rustfs", r.images.rustfs)
    ∷ ("tamsin", r.images.tamsin)
    ∷ []
