-- ===== src/Config.antt =====
-- What a lifecycle controller is built with: `TamossHibernateReconciler`, `TamossReconciler`
-- (tamosshibernate_controller.go, tamoss_controller.go), and the resolution of an instance's
-- release (releases.go).
use mathlib.Core.Bool.{not}
use tamoss.Base.{
  ℕ, String, ◌==◌, Bool, true, ◌&&◌, List, [], ◌∷◌, none, some, any, ltb, is_none, if◌then◌else◌,
}
use tamoss.Kube.{Error, selection, errorf, wrapf}
use tamoss.Effect.{Result, ok, err}
use tamoss.Releases.{Catalogue, Release, Images, Target, select}
use tamoss.Base.Assoc.{find}
use tamoss.Resources.{Tamoss, TamossSpec}

-- `defaultProviderReadinessProbeInterval`, in seconds.
abbrev pub default_provider_readiness_probe_interval : ℕ
default_provider_readiness_probe_interval = 10

-- `watch_namespaces` is the allow-list; `poll_interval` is zero if unset. The defaults of an
-- installation and of a release (operator/internal/controller/defaults) are not modelled: the two
-- functions stand for `(*Installation).Apply` and `defaults.Apply`.
pub record Config : Type 0 where
  pub watch_namespaces : List String
  pub poll_interval : ℕ
  pub releases : Catalogue
  pub defaults_revision : String
  pub apply_installation : Tamoss → Result Tamoss
  pub apply_release_defaults : Tamoss → Images → Tamoss

-- `WatchNamespaceSet.Allows`.
unfoldable pub allows : List String → String → Bool
allows [] namespace = true
allows (n ∷ ns) namespace = any (λ m. m == namespace) (n ∷ ns)

-- `pollInterval`.
unfoldable pub poll : Config → ℕ
poll cfg =
    if ltb 0 cfg.poll_interval then cfg.poll_interval else default_provider_readiness_probe_interval

-- `InstanceDefaults.AppliedTo`.
unfoldable pub defaults_applied_to : Config → Tamoss → Bool
defaults_applied_to cfg t = t.status.applied_defaults_revision == cfg.defaults_revision

-- The test in `resolveTamoss` for an instance that nothing has configured.
unfoldable pub is_unconfigured : TamossSpec → Bool
is_unconfigured s =
    s.profile == ""
    && (s.db.provided_by == ""
        && not s.db.has_external
        && not s.db.has_bundled
        && not s.db.has_cnpg
        && is_none s.db.apply_fixtures)
    && s.s3.provided_by == ""
    && not s.s3.has_external
    && not s.s3.has_rustfs_operator

-- A `SelectionError` with the text of another error.
unfoldable pub selection_of : String → Error → Error
selection_of reason (errorf f args) = selection reason f args
selection_of reason (wrapf f args e) = selection reason f args
selection_of reason e = selection reason "%v" []

-- The part of `resolveTamoss` behind the installation's defaults.
unfoldable pub resolve_installed : Config → Release → Result Tamoss → Result Tamoss
unfolding is_unconfigured selection_of
resolve_installed cfg release (err e) = err (selection_of "InvalidInstallationDefaults" e)
resolve_installed cfg release (ok t) =
    if is_unconfigured t.spec
    then err (
        selection "InstallationDefaultsRequired"
          "Configure installation defaults or set spec.profile and the instance settings explicitly"
          [])
    else ok (cfg.apply_release_defaults t release.images)

unfoldable pub resolve_release : Config → Tamoss → Result Release → Result Tamoss
unfolding resolve_installed
resolve_release cfg t (err e) = err e
resolve_release cfg t (ok release) = resolve_installed cfg release (cfg.apply_installation t)

-- `resolveTamoss`.
unfoldable pub resolve_tamoss : Config → Tamoss → Result Tamoss
unfolding resolve_release
resolve_tamoss cfg t =
    resolve_release cfg t
      (select cfg.releases t.spec.version t.status.current_version t.status.upgrade.target_version)

-- `releaseErrorReason`.
unfoldable pub release_error_reason : Error → String
release_error_reason (selection reason f args) = reason
release_error_reason e = "VersionUnavailable"

abbrev pub no_target : Target
no_target = record { version = ""; previous_version = ""; database_revision = ""; tams_api = "" }

-- `r.Releases[version].Schema`, the zero value for a version that is not there.
unfoldable pub schema_of : Config → String → Target
schema_of cfg version = elim (find version cfg.releases) [ none ↦ no_target | some r ↦ r.schema ]
