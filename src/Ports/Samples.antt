-- ===== src/Ports/Samples.antt =====
-- The port allocator on a small range.
use vmdockerv.Base.{Bool, arith, false, ok, refl, true, update, ℕ, ◌%◌, ◌==◌, ◌≡◌, ◌≤◌}
use vmdockerv.Ports.{PortAllocator, allocate}
use vmdockerv.Ports.Laws.{allocate-ok, allocate_lowest}

-- Ports 5 to 8 with 5 in use; 6 is bound by another program.
abbrev small : PortAllocator
small = record { start = 5; end = 8; used = update (λ _. false) 5 true }

abbrev odd_only : ℕ → Bool
odd_only p = p % 2 == 1

takes_seven : (allocate odd_only small).0 ≡ ok 7
unfolding allocate
takes_seven = refl

allocate-ok_example :
    (5 ≤ 7)
    × (7 ≤ 8)
    × (small.used 7 ≡ false)
    × (odd_only 7 ≡ true)
    × ((allocate odd_only small).1 ≡ record small { used = update small.used 7 true })
allocate-ok_example = allocate-ok odd_only small 7 takes_seven

allocate_lowest_example : (p : ℕ) × ((allocate odd_only small).0 ≡ ok p) × (p ≤ 7)
allocate_lowest_example = allocate_lowest odd_only small 7 (omega arith) (omega arith) refl
