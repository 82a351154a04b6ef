-- ===== src/Sandbox/Consistency.antt =====
-- The invariants of the sandbox manager after any history of calls.
use vmdockerv.Base.{
  Bool-cases, List, Option, Result, Result-cases, Text, ap, delete, inl, inr, insert, lookup,
  lookup-delete, lookup-insert, none, ok, refl, some, subst, text_eq, text_eq_iff, ◌≡◌,
}
use vmdockerv.Sandbox.Snapshots.{
  checkpoint_sandbox_instance, checkpoint_sandbox_instance_keeps, restore_sandbox_instance,
  restore_sandbox_instance_keeps,
}
use vmdockerv.Promotion.{Store}
use vmdockerv.Host.{Host}
use vmdockerv.Sandbox.{
  SandboxLaunchSpec, SandboxManager, SandboxSystem, create_sandbox_instance, exec_sandbox_instance,
  new_sandbox_manager, remove_sandbox_instance, sandbox_tables, start_sandbox_instance,
  stop_sandbox_instance,
}
use vmdockerv.Sandbox.Lifecycle.{
  IsLaunchedBy, SetsStatus, create_sandbox_instance-err, create_sandbox_instance-ok,
  exec_sandbox_instance_keeps, remove_sandbox_instance-err, remove_sandbox_instance-ok,
  start_sandbox_instance-SetsStatus, stop_sandbox_instance-SetsStatus,
}
use vmdockerv.SandboxCli.{TemplateInspect}
use vmdockerv.Schema.{InstanceInfo, RuntimeSpec, Status, running, stopped}
use vmdockerv.Tables.{IsConsistent}
use vmdockerv.Tables.Steps.{
  SameTables-refl, TableReach, TableReach-IsConsistent, TableStep, adds, deletes,
  empty-IsConsistent, no_steps, one_more, sets, unchanged,
}

-- An instance and a launch spec stand under a pid together or not at all, and tell the same runtime.
abbrev pub ArePaired : Option InstanceInfo → Option SandboxLaunchSpec → Type 0
ArePaired none none = Unit
ArePaired (some i) (some launch) = IsLaunchedBy i launch
ArePaired none (some launch) = ⊥
ArePaired (some i) none = ⊥

abbrev pub HasLaunchSpecs : SandboxManager → Type 0
HasLaunchSpecs m = (pid : Text) → ArePaired (lookup pid m.instances) (lookup pid m.launch_specs)

stored-HasLaunchSpecs :
    (m m' : SandboxManager) (pid : Text) (i : InstanceInfo) (launch : SandboxLaunchSpec)
    → HasLaunchSpecs m
    → IsLaunchedBy i launch
    → m'.instances ≡ insert pid i m.instances
    → m'.launch_specs ≡ insert pid launch m.launch_specs
    → HasLaunchSpecs m'
stored-HasLaunchSpecs m m' pid i launch h same eqi eql k =
    rw (eqi, eql, lookup-insert pid k i m.instances, lookup-insert pid k launch m.launch_specs)
      (elim (Bool-cases (text_eq pid k)) [ inl e ↦ rw e same | inr e ↦ rw e (h k) ])

deleted-HasLaunchSpecs :
    (m m' : SandboxManager) (pid : Text)
    → HasLaunchSpecs m
    → m'.instances ≡ delete pid m.instances
    → m'.launch_specs ≡ delete pid m.launch_specs
    → HasLaunchSpecs m'
deleted-HasLaunchSpecs m m' pid h eqi eql k =
    rw (eqi, eql, lookup-delete pid k m.instances, lookup-delete pid k m.launch_specs)
      (elim (Bool-cases (text_eq pid k)) [ inl e ↦ rw e tt | inr e ↦ rw e (h k) ])

-- What `ArePaired` says of an instance that is found.
paired_launch :
    (i : InstanceInfo) (l : Option SandboxLaunchSpec)
    → ArePaired (some i) l
    → (launch : SandboxLaunchSpec) × (l ≡ some launch) × IsLaunchedBy i launch
paired_launch i none h = elim h [ ]
paired_launch i (some launch) h = (launch, refl, h)

restatus-ArePaired :
    (i : InstanceInfo) (status : Status) (l : Option SandboxLaunchSpec)
    → ArePaired (some i) l
    → ArePaired (some (record i { status = status })) l
restatus-ArePaired i status none h = h
restatus-ArePaired i status (some launch) h = record {
  workspace = h.workspace;
  runtime_env = h.runtime_env;
  image = h.image;
  root = h.root;
}

SetsStatus-HasLaunchSpecs :
    (m m' : SandboxManager) (pid : Text) (status : Status)
    → HasLaunchSpecs m
    → SetsStatus pid status m m'
    → HasLaunchSpecs m'
SetsStatus-HasLaunchSpecs m m' pid status h (inl same) = rw same h
SetsStatus-HasLaunchSpecs m m' pid status h (inr (i, found, e)) = rw e λ k.
    rw (lookup-insert pid k (record i { status = status }) m.instances)
      (elim (Bool-cases (text_eq pid k)) [
        | inl t ↦ rw t (
            restatus-ArePaired i status (lookup k m.launch_specs) (
              subst (λ o. ArePaired o (lookup k m.launch_specs))
                (subst (λ x. lookup x m.instances ≡ some i) ((text_eq_iff pid k).0 t) found) (h k)))
        | inr f ↦ rw f (h k)
      ])

SetsStatus-TableStep :
    (m m' : SandboxManager) (pid : Text) (status : Status)
    → SetsStatus pid status m m'
    → TableStep (sandbox_tables m) (sandbox_tables m')
SetsStatus-TableStep m m' pid status (inl same) =
    unchanged (SameTables-refl (ap sandbox_tables same))
SetsStatus-TableStep m m' pid status (inr (i, found, e)) =
    sets pid i status found (ap (λ n. n.instances) e) (ap (λ n. n.ports) e)

module _ (host : Host) (unmarshal_inspect : Text → Result (List TemplateInspect)) where
  open host use {World}

  abbrev State : Type 0
  State = SandboxSystem World

  -- One call on the manager. `CreateInstance` does not look for an instance under its pid, so a history
  -- has that condition: a creation that succeeds is one of a pid without an instance.
  pub data SandboxStep (s : State) : State → Type 0 where
    create_sandbox :
        (pid : Text) (spec : RuntimeSpec) (env : List Text)
        → ((i : InstanceInfo)
            → (create_sandbox_instance host unmarshal_inspect pid spec env s).0 ≡ ok i
            → lookup pid s.manager.instances ≡ none)
        → SandboxStep s (create_sandbox_instance host unmarshal_inspect pid spec env s).1
    remove_sandbox :
        (pid : Text) → SandboxStep s (remove_sandbox_instance host unmarshal_inspect pid s).1
    start_sandbox :
        (pid : Text) → SandboxStep s (start_sandbox_instance host unmarshal_inspect pid s).1
    stop_sandbox :
        (pid : Text) → SandboxStep s (stop_sandbox_instance host unmarshal_inspect pid s).1
    exec_sandbox :
        (pid : Text) (env : List Text) (line : Text)
        → SandboxStep s (exec_sandbox_instance host unmarshal_inspect pid env line s).1
    checkpoint_sandbox :
        (store : Store World) (pid checkpoint_name : Text)
        → SandboxStep s (checkpoint_sandbox_instance host store pid checkpoint_name s).1
    restore_sandbox :
        (store : Store World) (pid checkpoint_name snapshot : Text)
        → SandboxStep s (restore_sandbox_instance host store pid checkpoint_name snapshot s).1

  pub data SandboxReach (s : State) : State → Type 0 where
    at_start : SandboxReach s s
    after : {t u : State} → SandboxReach s t → SandboxStep t u → SandboxReach s u

  SandboxStep-TableStep :
      {s t : State}
      → SandboxStep s t
      → TableStep (sandbox_tables s.manager) (sandbox_tables t.manager)
  SandboxStep-TableStep {s} (create_sandbox pid spec env unused_pid) =
      elim (Result-cases (create_sandbox_instance host unmarshal_inspect pid spec env s).0) [
        | inl (i, done) ↦
            let (lo, hi, unused, stored, marked, _, _) =
              create_sandbox_instance-ok host unmarshal_inspect pid spec env s i done in
            adds pid i (unused_pid i done) lo hi unused stored marked
        | inr (e, failed) ↦
            unchanged (create_sandbox_instance-err host unmarshal_inspect pid spec env s e failed).0
      ]
  SandboxStep-TableStep {s} (remove_sandbox pid) =
      elim (Result-cases (remove_sandbox_instance host unmarshal_inspect pid s).0) [
        | inl (d, done) ↦
            let (i, found, deleted, _, freed) =
              remove_sandbox_instance-ok host unmarshal_inspect pid s d done in
            deletes pid i found deleted freed
        | inr (e, failed) ↦ unchanged (
            SameTables-refl (
              ap sandbox_tables
                (remove_sandbox_instance-err host unmarshal_inspect pid s e failed)))
      ]
  SandboxStep-TableStep {s} (start_sandbox pid) =
      SetsStatus-TableStep s.manager _ pid running
        (start_sandbox_instance-SetsStatus host unmarshal_inspect pid s)
  SandboxStep-TableStep {s} (stop_sandbox pid) =
      SetsStatus-TableStep s.manager _ pid stopped
        (stop_sandbox_instance-SetsStatus host unmarshal_inspect pid s)
  SandboxStep-TableStep {s} (exec_sandbox pid env line) = unchanged (
      SameTables-refl
        (ap sandbox_tables (exec_sandbox_instance_keeps host unmarshal_inspect pid env line s)))
  SandboxStep-TableStep {s} (checkpoint_sandbox store pid checkpoint_name) = unchanged (
      SameTables-refl
        (ap sandbox_tables (checkpoint_sandbox_instance_keeps host store pid checkpoint_name s)))
  SandboxStep-TableStep {s} (restore_sandbox store pid checkpoint_name snapshot) = unchanged (
      SameTables-refl (
        ap sandbox_tables
          (restore_sandbox_instance_keeps host store pid checkpoint_name snapshot s)))

  SandboxStep-HasLaunchSpecs :
      {s t : State} → SandboxStep s t → HasLaunchSpecs s.manager → HasLaunchSpecs t.manager
  SandboxStep-HasLaunchSpecs {s} (create_sandbox pid spec env unused_pid) h =
      elim (Result-cases (create_sandbox_instance host unmarshal_inspect pid spec env s).0) [
        | inl (i, done) ↦
            let (_, _, _, stored, _, noted, same) =
              create_sandbox_instance-ok host unmarshal_inspect pid spec env s i done in
            stored-HasLaunchSpecs s.manager
              (create_sandbox_instance host unmarshal_inspect pid spec env s).1.manager pid i _ h
              same stored noted
        | inr (e, failed) ↦
            let (tables_kept, specs_kept) =
              create_sandbox_instance-err host unmarshal_inspect pid spec env s e failed in
            λ k. rw (tables_kept.instances, specs_kept) (h k)
      ]
  SandboxStep-HasLaunchSpecs {s} (remove_sandbox pid) h =
      elim (Result-cases (remove_sandbox_instance host unmarshal_inspect pid s).0) [
        | inl (d, done) ↦
            let (i, found, deleted, dropped, freed) =
              remove_sandbox_instance-ok host unmarshal_inspect pid s d done in
            deleted-HasLaunchSpecs s.manager
              (remove_sandbox_instance host unmarshal_inspect pid s).1.manager pid h deleted dropped
        | inr (e, failed) ↦ rw (remove_sandbox_instance-err host unmarshal_inspect pid s e failed) h
      ]
  SandboxStep-HasLaunchSpecs {s} (start_sandbox pid) h =
      SetsStatus-HasLaunchSpecs s.manager _ pid running h
        (start_sandbox_instance-SetsStatus host unmarshal_inspect pid s)
  SandboxStep-HasLaunchSpecs {s} (stop_sandbox pid) h =
      SetsStatus-HasLaunchSpecs s.manager _ pid stopped h
        (stop_sandbox_instance-SetsStatus host unmarshal_inspect pid s)
  SandboxStep-HasLaunchSpecs {s} (exec_sandbox pid env line) h =
      rw (exec_sandbox_instance_keeps host unmarshal_inspect pid env line s) h
  SandboxStep-HasLaunchSpecs {s} (checkpoint_sandbox store pid checkpoint_name) h =
      rw (checkpoint_sandbox_instance_keeps host store pid checkpoint_name s) h
  SandboxStep-HasLaunchSpecs {s} (restore_sandbox store pid checkpoint_name snapshot) h =
      rw (restore_sandbox_instance_keeps host store pid checkpoint_name snapshot s) h

  -- Every history of calls on the sandbox manager, each failing or not, in which a creation succeeds
  -- only for a pid without an instance, is a history of the same abstract tables as the Docker manager's.
  pub SandboxReach-TableReach :
      {s t : State}
      → SandboxReach s t
      → TableReach (sandbox_tables s.manager) (sandbox_tables t.manager)
  SandboxReach-TableReach at_start = no_steps
  SandboxReach-TableReach (after r st) =
      one_more (SandboxReach-TableReach r) (SandboxStep-TableStep st)

  SandboxReach-HasLaunchSpecs :
      {s t : State} → SandboxReach s t → HasLaunchSpecs s.manager → HasLaunchSpecs t.manager
  SandboxReach-HasLaunchSpecs at_start h = h
  SandboxReach-HasLaunchSpecs (after r st) h =
      SandboxStep-HasLaunchSpecs st (SandboxReach-HasLaunchSpecs r h)

  new-HasLaunchSpecs : (found : Option Text) → HasLaunchSpecs (new_sandbox_manager found)
  unfolding new_sandbox_manager lookup
  new-HasLaunchSpecs found pid = tt

  new-IsConsistent :
      (found : Option Text) → IsConsistent (sandbox_tables (new_sandbox_manager found))
  unfolding new_sandbox_manager
  new-IsConsistent found = empty-IsConsistent 10000 20000

  -- After any history of calls from the new manager, each failing or not, in which a creation
  -- succeeds only for a pid without an instance, a port is marked exactly
  -- while some instance holds it, no two instances share a port or a pid, and a pid has a launch spec
  -- exactly while it has an instance, with the same workspace, environment and image.
  pub SandboxReach-IsConsistent :
      {w : World} {t : State} (found : Option Text)
      → SandboxReach (record { manager = new_sandbox_manager found; world = w }) t
      → IsConsistent (sandbox_tables t.manager) × HasLaunchSpecs t.manager
  SandboxReach-IsConsistent found r = (
    TableReach-IsConsistent (new-IsConsistent found) (SandboxReach-TableReach r),
    SandboxReach-HasLaunchSpecs r (new-HasLaunchSpecs found),
  )
