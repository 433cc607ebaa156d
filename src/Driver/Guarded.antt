-- ===== src/Driver/Guarded.antt =====
-- What the driver of the declared hibernation may create and delete, and that it does no more.
use tamoss.Base.{
  ℕ, ◌==◌, ◌≡◌, refl, Bool, true, false, not, ◌⊎◌, inl, inr, Option, none, some, List, [], ◌∷◌,
  arith, is_none,
}
use tamoss.Base.Assoc.{get}
use tamoss.Base.Int32.{next, is_positive, decimal}
use tamoss.Base.Text.{concat}
use tamoss.Kube.{Time, ObjectMeta, ObjectReference}
use tamoss.Effect.{ok, Action, lift, ◌>>=◌}
use tamoss.Effect.Preserves.{
  Preserves, Every, Preserves-Every, Preserves-return, Preserves-lift, Preserves-if,
  preserves_rules,
}
use tamoss.Effect.Yields.{Found, of_itself, Yields-lift, Preserves-bind_yield, Preserves-Found}
use tamoss.Resources.{Tamoss, TamossHibernate}
use tamoss.Resources.Lifecycle.{HibernationDestination}
use tamoss.Cluster.{
  Api, Call, create_hibernate, delete_hibernate, patch_tamoss_status, event, write,
}
use tamoss.Hibernate.Source.{hibernate_kind}
use tamoss.Lifecycle.{with_lifecycle, stamp_transition}
use tamoss.Lifecycle.Preserved.{Preserves-patch_lifecycle}
use tamoss.Driver.{
  with_cycle, is_startable, is_hibernating, cycle_operation_name, operation_terminal,
  cycle_operation, record_hibernation_cycle, create_cycle, materialise, start_cycle,
  start_unless_in_flight, start_behind, ensure_cycle_operation, abort_found, abort_spec_hibernation,
  reconcile_hibernation_spec,
}

module _ (api : Api) (t : Tamoss) where
  -- The cycle that is recorded, and the one behind it.
  abbrev current : ℕ
  current = t.status.lifecycle.hibernation_cycle

  -- What some read of the operation of a cycle found.
  unfoldable pub IsFound : ℕ → Option TamossHibernate → Type 0
  IsFound cycle found =
      Found (λ log. api.hibernate_at log t.metadata.namespace (cycle_operation_name t cycle)) found

  -- The recorded cycle is not in flight: none is recorded, or its operation was found to be over or
  -- gone.
  unfoldable pub IsIdle : Type 0
  IsIdle =
      (is_positive current ≡ false)
      ⊎ (IsFound current none
          ⊎ ((h : TamossHibernate) × IsFound current (some h) × (operation_terminal h ≡ true)))

  -- An operation of the instance's next cycle, to its declared destination, that has not been
  -- found, and whose metadata are those of the cycle with the instance as its owner.
  pub record IsNextCycle (h : TamossHibernate) : Type 0 where
    pub wanted : t.spec.hibernation.enabled ≡ true
    pub startable : is_startable api t.status.lifecycle.phase ≡ true
    pub idle : IsIdle
    pub fresh : IsFound (next current) none
    pub to_destination : t.spec.hibernation.destination ≡ some h.spec.destination
    pub of_instance : h.spec.tamoss_ref ≡ t.metadata.name
    pub metadata : ObjectMeta
    pub named :
        metadata.name ≡ concat (t.metadata.name ∷ "-hibernation-" ∷ decimal (next current) ∷ [])
    pub beside : metadata.namespace ≡ t.metadata.namespace
    pub labelled :
        get "tamoss.livewyer.io/hibernation-cycle" metadata.labels ≡ decimal (next current)
    pub owned : api.set_controller_reference t.metadata metadata ≡ ok h.metadata

  -- The operation that the instance's lifecycle refers to, as some read found it.
  pub record IsActive (h : TamossHibernate) : Type 0 where
    pub off : t.spec.hibernation.enabled ≡ false
    pub hibernating : is_hibernating api t.status.lifecycle.phase ≡ true
    pub ref : ObjectReference
    pub active : t.status.lifecycle.active_operation_ref ≡ some ref
    pub kind : (ref.kind == hibernate_kind) ≡ true
    pub found : Found (λ log. api.hibernate_at log t.metadata.namespace ref.name) (some h)
    pub controlled : api.is_controlled_by h.metadata t.metadata ≡ true
    pub kept : is_none h.metadata.deletion_timestamp ≡ true

  -- A patch records the next cycle.
  unfoldable pub MayCall : Call → List Call → Type 0
  MayCall (create_hibernate h) log = IsNextCycle h
  MayCall (delete_hibernate h) log = IsActive h
  MayCall (patch_tamoss_status u) log =
      (t.spec.hibernation.enabled ≡ true)
      × (is_startable api t.status.lifecycle.phase ≡ true)
      × (u.status.lifecycle.hibernation_cycle ≡ next current)
  MayCall (tamoss.Cluster.get kind ns n) log = Unit
  MayCall (event type name reason message) log = Unit
  MayCall c log = ⊥

  abbrev Keeps : {A : Type 0} → Action Call A → Type 0
  Keeps m = Preserves (Every MayCall) m

  with_cycle-cycle :
      (now : Time) (cycle : ℕ) (u : Tamoss)
      → (with_lifecycle now (with_cycle cycle) u).status.lifecycle.hibernation_cycle ≡ cycle
  unfolding with_lifecycle stamp_transition with_cycle
  with_cycle-cycle now cycle u = ground arith

  module _ (wanted : t.spec.hibernation.enabled ≡ true)
      (startable : is_startable api t.status.lifecycle.phase ≡ true) where
    Keeps-record : Keeps (record_hibernation_cycle api t (next current))
    unfolding MayCall record_hibernation_cycle
    Keeps-record =
        search
          (
            preserves_rules,
            Preserves-patch_lifecycle api MayCall (λ _ _ _. tt) (with_cycle (next current))
                (λ now u log. (wanted, startable, with_cycle-cycle now (next current) u)),
          )
          depth 20

    module _ (d : HibernationDestination) (declared : t.spec.hibernation.destination ≡ some d)
        (idle : IsIdle) where
      module _ (fresh : IsFound (next current) none) where
        cycle_operation-IsNextCycle :
            (metadata : ObjectMeta)
            → api.set_controller_reference t.metadata (cycle_operation t (next current) d).metadata
              ≡ ok metadata
            → IsNextCycle (record (cycle_operation t (next current) d) { metadata = metadata })
        unfolding cycle_operation cycle_operation_name get
        cycle_operation-IsNextCycle metadata e = record {
          wanted = wanted;
          startable = startable;
          idle = idle;
          fresh = fresh;
          to_destination = declared;
          of_instance = refl;
          metadata = (cycle_operation t (next current) d).metadata;
          named = refl;
          beside = refl;
          labelled = refl;
          owned = e;
        }

        send :
            (metadata : ObjectMeta)
            → api.set_controller_reference t.metadata (cycle_operation t (next current) d).metadata
              ≡ ok metadata
            → Keeps
                (create_cycle api t (next current) (cycle_operation t (next current) d) metadata)
        unfolding MayCall create_cycle
        send metadata owner =
            search
              (
                preserves_rules,
                Preserves-Every MayCall,
                cycle_operation-IsNextCycle metadata owner,
                Keeps-record,
              )
              depth 20

        Keeps-created : Keeps (
            lift (
              api.set_controller_reference t.metadata (cycle_operation t (next current) d).metadata)
            >>= create_cycle api t (next current) (cycle_operation t (next current) d))
        Keeps-created =
            Preserves-bind_yield _ _ (Preserves-lift _) (Yields-lift _ (of_itself _)) send

      Keeps-materialise :
          (found : Option TamossHibernate)
          → IsFound (next current) found
          → Keeps (materialise api t (next current) d found)
      unfolding MayCall materialise
      Keeps-materialise (some h) f = Keeps-record
      Keeps-materialise none f = Keeps-created f

      Keeps-start : Keeps (start_cycle api t d)
      unfolding MayCall start_cycle IsFound
      Keeps-start =
          Preserves-Found _ _ _ (Preserves-Every MayCall _ _ (λ log. tt)) Keeps-materialise

    module _ (d : HibernationDestination) (declared : t.spec.hibernation.destination ≡ some d) where
      Keeps-unless_in_flight :
          (found : Option TamossHibernate)
          → IsFound current found
          → Keeps (start_unless_in_flight api t d found)
      unfolding start_unless_in_flight IsIdle
      Keeps-unless_in_flight none f = Keeps-start d declared (inr (inl f))
      Keeps-unless_in_flight (some h) f =
          Preserves-if (operation_terminal h) _ _
            (λ over. Keeps-start d declared (inr (inr (h, f, over)))) (λ _. Preserves-return _)

      Keeps-behind : Keeps (start_behind api t d current)
      unfolding MayCall start_behind IsFound
      Keeps-behind =
          Preserves-Found _ _ _ (Preserves-Every MayCall _ _ (λ log. tt)) Keeps-unless_in_flight

    Keeps-ensure :
        (destination : Option HibernationDestination)
        → t.spec.hibernation.destination ≡ destination
        → Keeps (ensure_cycle_operation api t destination)
    unfolding ensure_cycle_operation IsIdle
    Keeps-ensure none e = Preserves-return _
    Keeps-ensure (some d) e =
        Preserves-if (is_positive current) _ _ (λ _. Keeps-behind d e)
          (λ idle. Keeps-start d e (inl idle))

  not-false : (b : Bool) → not b ≡ false → b ≡ true
  not-false b e = ground arith

  module _ (off : t.spec.hibernation.enabled ≡ false)
      (hibernating : is_hibernating api t.status.lifecycle.phase ≡ true) where
    Keeps-abort_found :
        (ref : ObjectReference)
        → t.status.lifecycle.active_operation_ref ≡ some ref
        → (ref.kind == hibernate_kind) ≡ true
        → (found : Option TamossHibernate)
        → Found (λ log. api.hibernate_at log t.metadata.namespace ref.name) found
        → Keeps (abort_found api t found)
    unfolding MayCall abort_found
    Keeps-abort_found ref active kind none f = Preserves-return _
    Keeps-abort_found ref active kind (some h) f =
        Preserves-if (not (api.is_controlled_by h.metadata t.metadata)) _ _
          (λ _. Preserves-return _)
          (λ controlled.
            Preserves-if (not (is_none h.metadata.deletion_timestamp)) _ _ (λ _. Preserves-return _)
              (λ kept.
                let deletable : IsActive h = (record {
                  off = off;
                  hibernating = hibernating;
                  ref = ref;
                  active = active;
                  kind = kind;
                  found = f;
                  controlled = not-false _ controlled;
                  kept = not-false _ kept;
                }) in
                search (preserves_rules, Preserves-Every MayCall, deletable) depth 20))

    Keeps-abort :
        (ref : Option ObjectReference)
        → t.status.lifecycle.active_operation_ref ≡ ref
        → Keeps (abort_spec_hibernation api t ref)
    unfolding MayCall abort_spec_hibernation
    Keeps-abort none e = Preserves-return _
    Keeps-abort (some ref) e =
        Preserves-if _ _ _ (λ _. Preserves-return _)
          (λ kind.
            Preserves-Found _ _ _ (Preserves-Every MayCall _ _ (λ log. tt))
              (Keeps-abort_found ref e (not-false _ kind)))

  -- The driver of the declared hibernation, whatever the API server answers, makes no call but
  -- reads, events and these: it creates an operation only if hibernation is enabled and the
  -- instance's lifecycle is unset or Running, if no cycle is recorded or the recorded cycle's
  -- operation was found to be over or gone, and if the next cycle's was found to be absent, and then
  -- one of the instance, to the declared destination, with the name, the label and the namespace of
  -- the next cycle and the owner that the library sets; it patches the status of an instance, while
  -- hibernation is enabled and the lifecycle unset or Running, to record that cycle; and it deletes
  -- an operation only if hibernation is disabled while the lifecycle is Hibernating, and then the
  -- one that the lifecycle refers to, as it was found, controlled by the instance and not being
  -- deleted.
  pub reconcile_hibernation_spec-Every :
      (log : List Call) → Every MayCall log → Every MayCall (reconcile_hibernation_spec api t log).1
  unfolding reconcile_hibernation_spec
  reconcile_hibernation_spec-Every log k = driven.holds log k
    where
      driven_on :
          t.spec.hibernation.enabled ≡ true
          → is_startable api t.status.lifecycle.phase ≡ true
          → Keeps (ensure_cycle_operation api t t.spec.hibernation.destination)
      driven_on wanted startable = Keeps-ensure wanted startable _ refl

      driven_off :
          t.spec.hibernation.enabled ≡ false
          → is_hibernating api t.status.lifecycle.phase ≡ true
          → Keeps (abort_spec_hibernation api t t.status.lifecycle.active_operation_ref)
      driven_off off hibernating = Keeps-abort off hibernating _ refl

      driven : Keeps (reconcile_hibernation_spec api t)
      driven = search (preserves_rules, driven_on, driven_off) depth 20
