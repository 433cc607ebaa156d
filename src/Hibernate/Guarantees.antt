-- ===== src/Hibernate/Guarantees.antt =====
-- What a reconcile of a hibernation may call, as one statement.
use tamoss.Base.{some, List}
use tamoss.Effect.Preserves.{Every}
use tamoss.Config.{Config}
use tamoss.Resources.{TamossHibernate}
use tamoss.Cluster.{Api, Call}
use tamoss.Hibernate.Reconcile.{reconcile_found}
use tamoss.Hibernate.Discipline.{MayCall}
use tamoss.Hibernate.Guarded.{Keeps-reconcile_found}

module _ (api : Api) (cfg : Config) (h : TamossHibernate) where
  -- A reconcile of an operation, whatever the API server and the object store answer and whether it
  -- returns or stops with an error, adds to a disciplined log only calls that keep it disciplined:
  -- the status DeprovisioningSource is reported by an operation in that phase or right behind the
  -- upload of its manifest, of a completed backup, with the checksum that the store answered; the
  -- status Completed is reported, an instance made Hibernated, and a cluster deleted, one that
  -- an instance controls, by an operation in the phase DeprovisioningSource only; a backup is deleted
  -- if the operation controls it and it failed; a manifest is written of a completed backup; and no
  -- artifact and no operation is deleted.
  pub reconcile_found-Every :
      (log : List Call)
      → Every (MayCall api h) log
      → Every (MayCall api h) (reconcile_found api cfg (some h) log).1
  reconcile_found-Every log k = (Keeps-reconcile_found api h cfg).holds log k
