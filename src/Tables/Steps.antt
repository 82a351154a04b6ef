-- ===== src/Tables/Steps.antt =====
-- What a call may do to the tables, whichever manager makes it, and that it keeps them in agreement.
use vmdockerv.Base.{
  Text, [], arith, delete, delete-DistinctKeys, delete_absent, false, insert, insert-DistinctKeys,
  lookup, none, refl, some, true, update, ℕ, ◌∙◌, ◌≡◌, ◌≤◌,
}
use vmdockerv.Ports.{new_port_allocator, release}
use vmdockerv.Schema.{InstanceInfo, Status}
use vmdockerv.Tables.{
  IsConsistent, Tables, delete-DistinctPorts, holds_port-delete, holds_port-lookup,
}

-- Neither table has changed.
pub record SameTables (m m' : Tables) : Type 0 where
  pub instances : m'.instances ≡ m.instances
  pub start : m'.ports.start ≡ m.ports.start
  pub end : m'.ports.end ≡ m.ports.end
  pub marks : (p : ℕ) → m'.ports.used p ≡ m.ports.used p

-- One call, as a client sees it: it leaves the tables as they are, or it stores a new instance on an
-- unmarked port of the range, deletes one and frees its port, or sets the status of one.
pub data TableStep (m m' : Tables) : Type 0 where
  unchanged : SameTables m m' → TableStep m m'
  adds :
      (pid : Text) (i : InstanceInfo)
      → lookup pid m.instances ≡ none
      → m.ports.start ≤ i.port
      → i.port ≤ m.ports.end
      → m.ports.used i.port ≡ false
      → m'.instances ≡ insert pid i m.instances
      → m'.ports ≡ record (m.ports) { used = update m.ports.used i.port true }
      → TableStep m m'
  deletes :
      (pid : Text) (i : InstanceInfo)
      → lookup pid m.instances ≡ some i
      → m'.instances ≡ delete pid m.instances
      → m'.ports ≡ release i.port m.ports
      → TableStep m m'
  sets :
      (pid : Text) (i : InstanceInfo) (status : Status)
      → lookup pid m.instances ≡ some i
      → m'.instances ≡ insert pid (record i { status = status }) m.instances
      → m'.ports ≡ m.ports
      → TableStep m m'

pub data TableReach (m : Tables) : Tables → Type 0 where
  no_steps : TableReach m m
  one_more : {t u : Tables} → TableReach m t → TableStep t u → TableReach m u

pub SameTables-refl : {m m' : Tables} → m' ≡ m → SameTables m m'
SameTables-refl {m} e =
    rw e (record { instances = refl; start = refl; end = refl; marks = λ p. refl })

pub SameTables-IsConsistent : {m m' : Tables} → SameTables m m' → IsConsistent m → IsConsistent m'
SameTables-IsConsistent {m} {m'} same c = record {
  keys = rw same.instances c.keys;
  distinct = rw same.instances c.distinct;
  marks = λ p. same.marks p ∙ rw same.instances (c.marks p);
}

-- An instance on a port that no other holds comes under a pid that has none.
insert-IsConsistent :
    (m m' : Tables) (pid : Text) (i : InstanceInfo)
    → IsConsistent m
    → lookup pid m.instances ≡ none
    → m.ports.used i.port ≡ false
    → m'.instances ≡ insert pid i m.instances
    → m'.ports ≡ record (m.ports) { used = update m.ports.used i.port true }
    → IsConsistent m'
unfolding insert
insert-IsConsistent m m' pid i c missing unused eqi eqp = record {
  keys = rw eqi (insert-DistinctKeys pid i m.instances c.keys);
  distinct =
      rw (eqi, delete_absent pid m.instances missing) (ground (arith, c.marks i.port), c.distinct);
  marks = λ p. rw (eqi, eqp) (ground (arith, c.marks p, delete_absent pid m.instances missing));
}

delete-IsConsistent :
    (m m' : Tables) (pid : Text) (i : InstanceInfo)
    → IsConsistent m
    → lookup pid m.instances ≡ some i
    → m'.instances ≡ delete pid m.instances
    → m'.ports ≡ release i.port m.ports
    → IsConsistent m'
unfolding release
delete-IsConsistent m m' pid i c found eqi eqp = record {
  keys = rw eqi (delete-DistinctKeys pid m.instances c.keys);
  distinct = rw eqi (delete-DistinctPorts pid m.instances c.distinct);
  marks = λ p.
      rw (eqi, eqp)
        (ground (arith, c.marks p, holds_port-delete p pid m.instances i c.keys c.distinct found));
}

status-IsConsistent :
    (m m' : Tables) (pid : Text) (i : InstanceInfo) (status : Status)
    → IsConsistent m
    → lookup pid m.instances ≡ some i
    → m'.instances ≡ insert pid (record i { status = status }) m.instances
    → m'.ports ≡ m.ports
    → IsConsistent m'
unfolding insert
status-IsConsistent m m' pid i status c found eqi eqp = record {
  keys = rw eqi (insert-DistinctKeys pid (record i { status = status }) m.instances c.keys);
  distinct = rw eqi (
    ground (arith, holds_port-delete i.port pid m.instances i c.keys c.distinct found),
    delete-DistinctPorts pid m.instances c.distinct,
  );
  marks = λ p.
      rw (eqi, eqp)
        (ground (
          arith,
          c.marks p,
          holds_port-delete p pid m.instances i c.keys c.distinct found,
          holds_port-lookup pid m.instances i found,
        ));
}

pub TableStep-IsConsistent : {m m' : Tables} → TableStep m m' → IsConsistent m → IsConsistent m'
TableStep-IsConsistent (unchanged same) c = SameTables-IsConsistent same c
TableStep-IsConsistent {m} {m'} (adds pid i missing lo hi unused eqi eqp) c =
    insert-IsConsistent m m' pid i c missing unused eqi eqp
TableStep-IsConsistent {m} {m'} (deletes pid i found eqi eqp) c =
    delete-IsConsistent m m' pid i c found eqi eqp
TableStep-IsConsistent {m} {m'} (sets pid i status found eqi eqp) c =
    status-IsConsistent m m' pid i status c found eqi eqp

pub TableReach-IsConsistent : {m m' : Tables} → IsConsistent m → TableReach m m' → IsConsistent m'
TableReach-IsConsistent c no_steps = c
TableReach-IsConsistent c (one_more r st) = TableStep-IsConsistent st (TableReach-IsConsistent c r)

pub empty-IsConsistent :
    (first last : ℕ)
    → IsConsistent (record { instances = []; ports = new_port_allocator first last })
unfolding new_port_allocator
empty-IsConsistent first last = record { keys = tt; distinct = tt; marks = λ p. refl }
