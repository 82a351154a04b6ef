-- ===== src/Docker/Consistency.antt =====
-- The invariant of the manager, and that it holds after any history of calls.
use vmdockerv.Base.{List, Result-cases, Text, ap, inl, inr, lookup, none, ok, refl, ◌≡◌}
use vmdockerv.Docker.{
  DockerManager, System, create_instance, exec_instance, new_docker_manager, remove_instance,
  start_instance, stop_instance, tables,
}
use vmdockerv.Docker.Lifecycle.{
  Sets, create_instance-err, create_instance-ok, remove_instance-err, remove_instance-ok,
  start_instance-Sets, stop_instance-Sets,
}
use vmdockerv.Docker.Snapshots.{
  checkpoint_instance, checkpoint_instance_keeps, restore_instance, restore_instance_keeps,
}
use vmdockerv.Promotion.{Store}
use vmdockerv.Host.{Host}
use vmdockerv.Schema.{InstanceInfo, RuntimeSpec, Status, running, stopped}
use vmdockerv.Tables.{IsConsistent}
use vmdockerv.Tables.Steps.{
  SameTables-refl, TableReach, TableReach-IsConsistent, TableStep, adds, deletes,
  empty-IsConsistent, no_steps, one_more, sets, unchanged,
}

new_docker_manager-IsConsistent : IsConsistent (tables new_docker_manager)
unfolding new_docker_manager
new_docker_manager-IsConsistent = empty-IsConsistent 10000 20000

Sets-TableStep :
    (m m' : DockerManager) (pid : Text) (status : Status)
    → Sets pid status m m'
    → TableStep (tables m) (tables m')
Sets-TableStep m m' pid status (inl same) = unchanged (SameTables-refl (ap tables same))
Sets-TableStep m m' pid status (inr (i, found, e)) =
    sets pid i status found (ap (λ n. n.instances) e) (ap (λ n. n.ports) e)

module _ (host : Host) where
  open host use {World}

  -- One call on the manager. `CreateInstance` does not look for an instance under its pid, so a history
  -- has that condition: a creation that succeeds is one of a pid without an instance.
  pub data Step (s : System World) : System World → Type 0 where
    create :
        (pid : Text) (spec : RuntimeSpec) (env : List Text)
        → ((i : InstanceInfo)
            → (create_instance host pid spec env s).0 ≡ ok i
            → lookup pid s.manager.instances ≡ none)
        → Step s (create_instance host pid spec env s).1
    remove : (pid : Text) → Step s (remove_instance host pid s).1
    start : (pid : Text) → Step s (start_instance host pid s).1
    stop : (pid : Text) → Step s (stop_instance host pid s).1
    exec :
        (pid : Text) (env : List Text) (command : Text)
        → Step s (exec_instance host pid env command s).1
    checkpoint :
        (store : Store World) (pid checkpoint_name : Text)
        → Step s (checkpoint_instance host store pid checkpoint_name s).1
    restore :
        (store : Store World) (pid checkpoint_name snapshot : Text)
        → Step s (restore_instance host store pid checkpoint_name snapshot s).1

  pub data Reach (s : System World) : System World → Type 0 where
    here : Reach s s
    next : {t u : System World} → Reach s t → Step t u → Reach s u

  create_instance-TableStep :
      (pid : Text) (spec : RuntimeSpec) (env : List Text) (s : System World)
      → ((i : InstanceInfo)
          → (create_instance host pid spec env s).0 ≡ ok i
          → lookup pid s.manager.instances ≡ none)
      → TableStep (tables s.manager) (tables (create_instance host pid spec env s).1.manager)
  create_instance-TableStep pid spec env s missing =
      elim (Result-cases (create_instance host pid spec env s).0) [
        | inl (i, done) ↦
            let (lo, hi, unused, stored, marked) = create_instance-ok host pid spec env s i done in
            adds pid i (missing i done) lo hi unused stored marked
        | inr (e, failed) ↦ unchanged (create_instance-err host pid spec env s e failed)
      ]

  remove_instance-TableStep :
      (pid : Text) (s : System World)
      → TableStep (tables s.manager) (tables (remove_instance host pid s).1.manager)
  remove_instance-TableStep pid s = elim (Result-cases (remove_instance host pid s).0) [
    | inl (d, done) ↦
        let (i, found, deleted, freed) = remove_instance-ok host pid s d done in
        deletes pid i found deleted freed
    | inr (e, failed) ↦
        unchanged (SameTables-refl (ap tables (remove_instance-err host pid s e failed)))
  ]

  Step-TableStep : {s t : System World} → Step s t → TableStep (tables s.manager) (tables t.manager)
  unfolding exec_instance
  Step-TableStep {s} (create pid spec env missing) =
      create_instance-TableStep pid spec env s missing
  Step-TableStep {s} (remove pid) = remove_instance-TableStep pid s
  Step-TableStep {s} (start pid) =
      Sets-TableStep s.manager _ pid running (start_instance-Sets host pid s)
  Step-TableStep {s} (stop pid) =
      Sets-TableStep s.manager _ pid stopped (stop_instance-Sets host pid s)
  Step-TableStep (exec pid env command) = unchanged (SameTables-refl refl)
  Step-TableStep {s} (checkpoint store pid checkpoint_name) =
      unchanged
        (SameTables-refl (ap tables (checkpoint_instance_keeps host store pid checkpoint_name s)))
  Step-TableStep {s} (restore store pid checkpoint_name snapshot) = unchanged (
      SameTables-refl
        (ap tables (restore_instance_keeps host store pid checkpoint_name snapshot s)))

  -- Every history of calls on the Docker manager, each failing or not, in which a creation succeeds only
  -- for a pid without an instance, is a history of the abstract tables: each call leaves them, or
  -- creates, removes or sets one instance as they allow.
  pub Reach-TableReach :
      {s t : System World} → Reach s t → TableReach (tables s.manager) (tables t.manager)
  Reach-TableReach here = no_steps
  Reach-TableReach (next r st) = one_more (Reach-TableReach r) (Step-TableStep st)

  -- After any history of calls from the new manager, each failing or not, in which a creation succeeds
  -- only for a pid without an instance, a port is marked exactly while some instance holds it, and no two
  -- instances share a port or a pid.
  pub Reach-IsConsistent :
      {w : World} {t : System World}
      → Reach (record { manager = new_docker_manager; world = w }) t
      → IsConsistent (tables t.manager)
  Reach-IsConsistent r =
      TableReach-IsConsistent new_docker_manager-IsConsistent (Reach-TableReach r)
