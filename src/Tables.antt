-- ===== src/Tables.antt =====
-- The two tables that both runtime managers keep (vmdocker/runtimemanager/docker.go and sandbox.go):
-- the instances by their pids, and the port allocator. They agree when a port is marked exactly while
-- an instance holds it.
pub mod Steps
use vmdockerv.Base.{
  Bool, Dict, DistinctKeys, Text, [], arith, delete, delete_absent, false, if◌then◌else◌, lookup,
  refl, some, true, ℕ, ◌==◌, ◌||◌, ◌∷◌, ◌≡◌,
}
use vmdockerv.Ports.{PortAllocator}
use vmdockerv.Schema.{InstanceInfo}

pub record Tables : Type 0 where
  pub instances : Dict InstanceInfo
  pub ports : PortAllocator

abbrev pub holds_port : ℕ → Dict InstanceInfo → Bool
holds_port p [] = false
holds_port p ((k, i) ∷ m) = p == i.port || holds_port p m

abbrev pub DistinctPorts : Dict InstanceInfo → Type 0
DistinctPorts [] = Unit
DistinctPorts ((k, i) ∷ m) = (holds_port i.port m ≡ false) × DistinctPorts m

pub record IsConsistent (m : Tables) : Type 0 where
  pub keys : DistinctKeys m.instances
  pub distinct : DistinctPorts m.instances
  pub marks : (p : ℕ) → m.ports.used p ≡ holds_port p m.instances

holds_port_absent :
    (p : ℕ) (k : Text) (m : Dict InstanceInfo)
    → holds_port p m ≡ false
    → holds_port p (delete k m) ≡ false
unfolding delete
holds_port_absent p k [] h = refl
holds_port_absent p k ((j, i) ∷ m) h = ground (arith, holds_port_absent p k m)

pub delete-DistinctPorts :
    (k : Text) (m : Dict InstanceInfo) → DistinctPorts m → DistinctPorts (delete k m)
unfolding delete
delete-DistinctPorts k [] h = tt
delete-DistinctPorts k ((j, i) ∷ m) h =
    ground (arith, delete-DistinctPorts k m h.1, holds_port_absent i.port k m)

pub holds_port-lookup :
    (k : Text) (m : Dict InstanceInfo) (i : InstanceInfo)
    → lookup k m ≡ some i
    → holds_port i.port m ≡ true
unfolding lookup
holds_port-lookup k [] i h = ground arith
holds_port-lookup k ((j, v) ∷ m) i h = ground (arith, holds_port-lookup k m i)

-- Deleting an instance gives its port free and no other.
pub holds_port-delete :
    (p : ℕ) (k : Text) (m : Dict InstanceInfo) (i : InstanceInfo)
    → DistinctKeys m
    → DistinctPorts m
    → lookup k m ≡ some i
    → holds_port p (delete k m) ≡ (if p == i.port then false else holds_port p m)
unfolding lookup delete
holds_port-delete p k [] i dk dp h = ground arith
holds_port-delete p k ((j, v) ∷ m) i dk dp h =
    ground (arith, holds_port-delete p k m i dk.1 dp.1, delete_absent k m, holds_port-lookup k m i)
