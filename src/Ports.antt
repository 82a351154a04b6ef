-- ===== src/Ports.antt =====
-- vmdocker/runtimemanager/portallocator.go: the host ports that the runtimes listen on. The mutex
-- makes each call one step; `available` is `isPortAvailable`, a probe of the host's network.
pub mod Laws
mod Samples
use vmdockerv.Base.{
  Bool, Option, Result, err, errorf, false, if◌then◌else◌, no_available_ports, none, not, ok, some,
  suc, true, update, zero, ℕ, ◌&&◌, ◌+◌, ◌-◌,
}

pub record PortAllocator : Type 0 where
  pub start : ℕ
  pub end : ℕ
  pub used : ℕ → Bool

unfoldable pub new_port_allocator : ℕ → ℕ → PortAllocator
new_port_allocator start end = record { start = start; end = end; used = λ _. false }

-- The test in the loop of `Allocate`.
abbrev pub is_free : (ℕ → Bool) → PortAllocator → ℕ → Bool
is_free available pa port = not (pa.used port) && available port

-- `for port := pa.start; port <= pa.end; port++`, by the number of rounds left.
unfoldable pub find_port : (ℕ → Bool) → ℕ → ℕ → Option ℕ
find_port free port zero = none
find_port free port (suc rounds) =
    let rest = find_port free (port + 1) rounds in if free port then some port else rest

unfoldable pub allocate : (ℕ → Bool) → PortAllocator → Result ℕ × PortAllocator
unfolding find_port
allocate available pa = elim (find_port (is_free available pa) pa.start (pa.end + 1 - pa.start)) [
  | none ↦ (err (errorf no_available_ports), pa)
  | some port ↦ (ok port, record pa { used = update pa.used port true })
]

unfoldable pub release : ℕ → PortAllocator → PortAllocator
release port pa = record pa { used = update pa.used port false }
