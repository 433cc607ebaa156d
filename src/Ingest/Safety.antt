-- ===== src/Ingest/Safety.antt =====
-- What a reconcile of an ingest run may do.
use tamoss.Base.{Bool, Option}
use tamoss.Effect.Yields.{Found}
use tamoss.Config.{Config}
use tamoss.Resources.{Tamoss}
use tamoss.Ingest.Run.{IngestRun}
use tamoss.Ingest.Job.{Job}
use tamoss.Ingest.Api.{IngestApi}
use tamoss.Ingest.Discipline.{wanted_spec}

module _ (api : IngestApi) (cfg : Config) (run : IngestRun) where
  -- A read of the run's instance.
  abbrev InstanceFound : Option Tamoss → Type 0
  InstanceFound t =
      Found (λ log. api.tamoss_at log run.metadata.namespace (wanted_spec api cfg run).tamoss_ref) t
