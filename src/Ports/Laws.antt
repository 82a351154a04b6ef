-- ===== src/Ports/Laws.antt =====
-- What the port allocator promises its clients.
use vmdockerv.Base.{
  Bool, Bool-cases, Error, arith, err, errorf, false, inl, inr, no_available_ports, ok, some, suc,
  true, update, zero, ℕ, ◌+◌, ◌-◌, ◌<◌, ◌≡◌, ◌≢◌, ◌≤◌,
}
use vmdockerv.Ports.{PortAllocator, allocate, find_port, is_free, release}

find_port_sound :
    (free : ℕ → Bool) (from rounds p : ℕ)
    → find_port free from rounds ≡ some p
    → (from ≤ p) × (p < from + rounds) × (free p ≡ true)
unfolding find_port
find_port_sound free from zero p h = ground arith
find_port_sound free from (suc n) p h = ground (arith, find_port_sound free (from + 1) n p)

find_port_complete :
    (free : ℕ → Bool) (from rounds q : ℕ)
    → from ≤ q
    → q < from + rounds
    → free q ≡ true
    → (p : ℕ) × (find_port free from rounds ≡ some p) × (p ≤ q)
unfolding find_port
find_port_complete free from zero q h k f = absurd (omega arith)
find_port_complete free from (suc n) q h k f = elim (Bool-cases (free from)) [
  | inl now ↦ (from, rw now, h)
  | inr later ↦
      let past : from ≢ q = λ e. cc in
      rw later (find_port_complete free (from + 1) n q (omega arith) (omega arith) f)
]

-- A port that `Allocate` returns lies in the range, was unused and available, is marked now, and no
-- other mark changes.
pub allocate-ok :
    (available : ℕ → Bool) (pa : PortAllocator) (p : ℕ)
    → (allocate available pa).0 ≡ ok p
    → (pa.start ≤ p)
      × (p ≤ pa.end)
      × (pa.used p ≡ false)
      × (available p ≡ true)
      × ((allocate available pa).1 ≡ record pa { used = update pa.used p true })
unfolding allocate
allocate-ok available pa p h =
    ground (arith, find_port_sound (is_free available pa) pa.start (pa.end + 1 - pa.start) p)

-- An allocation fails only by its one error, and then changes nothing.
pub allocate-err :
    (available : ℕ → Bool) (pa : PortAllocator) (e : Error)
    → (allocate available pa).0 ≡ err e
    → (e ≡ errorf no_available_ports) × ((allocate available pa).1 ≡ pa)
unfolding allocate
allocate-err available pa e h = ground arith

-- When some port `q` of the range is unused and available, `Allocate` returns a port, and none above
-- `q`: the lowest free one is taken.
pub allocate_lowest :
    (available : ℕ → Bool) (pa : PortAllocator) (q : ℕ)
    → pa.start ≤ q
    → q ≤ pa.end
    → is_free available pa q ≡ true
    → (p : ℕ) × ((allocate available pa).0 ≡ ok p) × (p ≤ q)
unfolding allocate
allocate_lowest available pa q lo hi free =
    let (p, e, le) =
      find_port_complete (is_free available pa) pa.start (pa.end + 1 - pa.start) q lo (omega arith)
        free in
    (p, rw (e, allocate), le)

-- Releasing the port that was just allocated gives back every mark from before.
pub release-allocate :
    (available : ℕ → Bool) (pa : PortAllocator) (p q : ℕ)
    → (allocate available pa).0 ≡ ok p
    → (release p (allocate available pa).1).used q ≡ pa.used q
unfolding release
release-allocate available pa p q h = ground (arith, allocate-ok available pa p h)
