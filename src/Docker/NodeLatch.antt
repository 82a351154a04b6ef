-- ===== src/Docker/NodeLatch.antt =====
-- `checkNodeConfinement` asks the daemon until it has a verdict, and keeps the verdict.
use vmdockerv.Base.{
  Bool, Error, List, Result-cases, Text, [], arith, codes, daemon_unreachable, err, false, inl, inr,
  is_ok, node_check_failed, ok, refl, text_eq, true, wrapf, ◌∷◌, ◌≡◌,
}
use vmdockerv.Docker.{System, cached_verdict, check_node_confinement, create_instance}
use vmdockerv.Host.{Host}
use vmdockerv.NodeCheck.{confinement_report, failures, verdict_of}
use vmdockerv.NodeCheck.Verdict.{
  IsConfined, confines, confines-IsConfined, is_none, verdict-failures,
}
use vmdockerv.Schema.{InstanceInfo, RuntimeSpec, SystemInfo}

module _ (host : Host) where
  open host use {World, getenv, daemon_info}

  -- Once a check has its verdict, every later check gives that verdict, without asking the daemon.
  pub check_node_confinement_latched :
      (s : System World)
      → (check_node_confinement host s).1.manager.node_checked ≡ true
      → check_node_confinement host (check_node_confinement host s).1
        ≡ check_node_confinement host s
  unfolding check_node_confinement
  check_node_confinement_latched s h = ground arith

  -- A daemon that does not answer fails the check and leaves the manager as it was, so that the next
  -- creation asks again.
  pub check_node_confinement_unreachable :
      (s : System World) (e : Error)
      → s.manager.node_checked ≡ false
      → (daemon_info s.world).0 ≡ err e
      → ((check_node_confinement host s).0
          ≡ err (wrapf node_check_failed (wrapf daemon_unreachable e)))
        × ((check_node_confinement host s).1.manager ≡ s.manager)
  unfolding check_node_confinement
  check_node_confinement_unreachable s e h a = ground arith

  abbrev pub strict_mode : World → Bool
  strict_mode w = text_eq (getenv w (codes "VMDOCKER_NODE_CHECK_STRICT")) (codes "1")

  verdict_of-is_ok :
      (fs : List Text) → is_ok (cached_verdict (verdict_of fs)) ≡ is_none (verdict_of fs)
  verdict_of-is_ok [] = refl
  verdict_of-is_ok (f ∷ fs) = refl

  -- The first check that the daemon answers passes exactly when the daemon confines containers.
  pub check_node_confinement-confines :
      (s : System World) (i : SystemInfo)
      → s.manager.node_checked ≡ false
      → (daemon_info s.world).0 ≡ ok i
      → is_ok (check_node_confinement host s).0 ≡ confines (strict_mode s.world) i
  unfolding check_node_confinement
  check_node_confinement-confines s i h a = ground (
    arith,
    verdict-failures (strict_mode s.world) i,
    verdict_of-is_ok (failures (strict_mode s.world) (confinement_report i)),
  )

  -- A container is created on a node that has not been checked before only if the daemon answered that
  -- it has a version, enforces memory limits, and does not turn seccomp off in the first of its security
  -- options that names seccomp. In strict mode it also answered that it enforces swap and pid limits and
  -- that it has AppArmor or SELinux.
  pub create_instance-IsConfined :
      (pid : Text) (spec : RuntimeSpec) (env : List Text) (s : System World) (c : InstanceInfo)
      → s.manager.node_checked ≡ false
      → (create_instance host pid spec env s).0 ≡ ok c
      → (i : SystemInfo) × ((daemon_info s.world).0 ≡ ok i)
        × IsConfined (text_eq (getenv s.world (codes "VMDOCKER_NODE_CHECK_STRICT")) (codes "1")) i
  unfolding create_instance
  create_instance-IsConfined pid spec env s c h made = elim (Result-cases (daemon_info s.world).0) [
    | inl (i, a) ↦ (
      i,
      a,
      confines-IsConfined (strict_mode s.world) i
          (ground (arith, check_node_confinement-confines s i h a)),
    )
    | inr (e, a) ↦ absurd (ground (arith, check_node_confinement_unreachable s e h a))
  ]
