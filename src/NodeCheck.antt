-- ===== src/NodeCheck.antt =====
-- vmdocker/runtimemanager/nodecheck.go: does the Docker daemon confine containers as the host
-- configuration asks?
pub mod Verdict
mod Samples
use vmdockerv.Base.{
  Bool, Error, List, Op, Option, Text, [], codes, contains, daemon_unreachable, err, false,
  if◌then◌else◌, is_empty, listf, node_check_failed, none, not, ok, some, true, wrapf, ◌++◌, ◌||◌,
  ◌∷◌,
}
use vmdockerv.Schema.{HostConfig, SystemInfo}

pub data Severity : Type 0 where
  refuse warn info : Severity

pub record CheckResult : Type 0 where
  pub name : Text
  pub passed : Bool
  pub severity : Severity
  pub detail : Text

-- Some option contains `"name=" + name`.
unfoldable pub has_security_option : List Text → Text → Bool
has_security_option [] name = false
has_security_option (o ∷ opts) name =
    contains o (codes "name=" ++ name) || has_security_option opts name

-- The first seccomp entry decides.
unfoldable pub seccomp_effective : List Text → Bool
seccomp_effective [] = false
seccomp_effective (o ∷ opts) =
    if not (contains o (codes "name=seccomp"))
    then seccomp_effective opts
    else not (contains o (codes "profile=unconfined"))

abbrev pub mac_present : List Text → Bool
mac_present opts =
    has_security_option opts (codes "apparmor") || has_security_option opts (codes "selinux")

-- The slice `report` of `RunNodeConfinementCheck`.
abbrev pub confinement_report : SystemInfo → List CheckResult
confinement_report i =
    record {
      name = codes "daemon-version";
      passed = not (is_empty i.server_version);
      severity = refuse;
      detail = codes "ServerVersion=" ++ i.server_version;
    }
    ∷ record {
      name = codes "seccomp";
      passed = seccomp_effective i.security_options;
      severity = refuse;
      detail = codes "seccomp default profile (not unconfined)";
    }
    ∷ record {
      name = codes "memory-limit";
      passed = i.memory_limit;
      severity = refuse;
      detail = codes "HostConfig.Memory enforceable";
    }
    ∷ record {
      name = codes "swap-limit";
      passed = i.swap_limit;
      severity = warn;
      detail = codes "MemorySwap==Memory enforceable";
    }
    ∷ record {
      name = codes "pids-limit";
      passed = i.pids_limit;
      severity = warn;
      detail = codes "PidsLimit enforceable";
    }
    ∷ record {
      name = codes "mac";
      passed = mac_present i.security_options;
      severity = warn;
      detail = codes "AppArmor or SELinux present";
    }
    ∷ []

abbrev is_fatal : Bool → Severity → Bool
is_fatal strict refuse = true
is_fatal strict warn = strict
is_fatal strict info = false

-- The loop over the report: the names of the checks that fail fatally.
unfoldable pub failures : Bool → List CheckResult → List Text
failures strict [] = []
failures strict (r ∷ rs) =
    let rest = failures strict rs in
    if r.passed then rest else if is_fatal strict r.severity then r.name ∷ rest else rest

abbrev pub verdict_of : List Text → Option Error
verdict_of [] = none
verdict_of (f ∷ fs) = some (listf node_check_failed (f ∷ fs))

-- The report is `nil` exactly when the daemon did not answer.
unfoldable pub run_node_confinement_check :
    {W : Type 0} → Op W SystemInfo → Bool → W → (Option (List CheckResult) × Option Error) × W
run_node_confinement_check ask strict w = elim (ask w).0 [
  | err e ↦ ((none, some (wrapf daemon_unreachable e)), (ask w).1)
  | ok i ↦ (
    (some (confinement_report i), verdict_of (failures strict (confinement_report i))),
    (ask w).1,
  )
]
