-- ===== src/Examples/Hibernate.antt =====
-- The hibernation of the example's instance.
use tamoss.Base.{true, some, []}
use tamoss.Base.{none}
use tamoss.Resources.{Tamoss}
use tamoss.Cluster.{Api}
use tamoss.Driver.{reconcile_hibernation_spec}
use tamoss.Driver.Guarded as Driven
use tamoss.Examples.Cluster.{instance, absent}
use tamoss.Effect.Preserves.{Every}
use tamoss.Resources.Lifecycle.{OperationPhase}
use tamoss.Hibernate.Reconcile.{reconcile_found}
use tamoss.Hibernate.Discipline.{MayCall}
use tamoss.Hibernate.Guarantees.{reconcile_found-Every}
use tamoss.Examples.Cluster.{api, config, hibernate_in}

-- An operation whose backup is complete.
reconcile_found-Every_example :
    Every
      (MayCall api (hibernate_in OperationPhase.capturing_database))
      (reconcile_found api config (some (hibernate_in OperationPhase.capturing_database)) []).1
unfolding Every
reconcile_found-Every_example =
    reconcile_found-Every api config (hibernate_in OperationPhase.capturing_database) [] tt

-- The instance with hibernation declared, before its first cycle.
abbrev declared : Tamoss
declared = record instance {
  spec = record (instance.spec) {
    hibernation = record {
      enabled = true;
      destination = some (record { storage_backend_ref = "archive"; prefix = "" });
      resume_from = none;
    };
  };
}

abbrev fresh : Api
fresh = record api { hibernate_at = λ log ns n. absent }

reconcile_hibernation_spec-Every_example :
    Every (Driven.MayCall fresh declared) (reconcile_hibernation_spec fresh declared []).1
unfolding Every
reconcile_hibernation_spec-Every_example =
    Driven.reconcile_hibernation_spec-Every fresh declared [] tt
