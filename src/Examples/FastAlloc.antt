-- ===== src/Examples/FastAlloc.antt =====
-- src/fast_alloc.cpp at concrete inputs.
use bg3le.Common.{
  ℕ, ◌+◌, ◌*◌, ◌^◌, ◌<◌, ◌≤◌, ◌≡◌, ◌≢◌, refl, ◌⊎◌, ◌==◌, if◌then◌else◌, none, replicate, arith,
}
use bg3le.FastAlloc.Pool.{Pool, magic, class_of, bytes_of, ours, physx, free_hook}
use bg3le.FastAlloc.Classes.{class_of_lem}
use bg3le.FastAlloc.Recycling.{InUse, free_then_alloc, free_then_alloc_lem, free_hook-twice}

-- One block of class 2, at 4096, in use.
abbrev one_block : Pool
one_block = record {
  free_list = replicate 14 0;
  arena = 4160;
  arena_left = 4194240;
  word = λ p. if p == 4096 then magic else if p == 4104 then 2 else 0;
  served = 1;
  recycled = 0;
  arena_bytes = 4194304;
  passthrough = 0;
}

in_use : InUse one_block 4096 2
in_use = record {
  marked = refl;
  class = refl;
  known = omega arith;
  real = omega arith;
  lists = refl;
}

class_of_example :
    ((class_of 40 < 14)
      × (40 + 16 ≤ bytes_of (class_of 40))
      × ((class_of 40 ≡ 0) ⊎ (bytes_of (class_of 40) < 2 * (40 + 16))))
    ⊎ ((class_of 40 ≡ 14) × (2 ^ 17 < 40 + 16))
class_of_example = class_of_lem 40 (omega arith)

free_then_alloc_example :
    ((free_then_alloc none 4096 40 one_block).0 ≡ ours 4112)
    × ((free_then_alloc none 4096 40 one_block).1.free_list ≡ one_block.free_list)
    × ((free_then_alloc none 4096 40 one_block).1.arena ≡ one_block.arena)
    × ((free_then_alloc none 4096 40 one_block).1.arena_left ≡ one_block.arena_left)
    × InUse (free_then_alloc none 4096 40 one_block).1 4096 2
    × ((p : ℕ)
        → p ≢ 4096
        → p ≢ 4104
        → (free_then_alloc none 4096 40 one_block).1.word p ≡ one_block.word p)
unfolding class_of
free_then_alloc_example = free_then_alloc_lem none 40 one_block 4096 2 in_use refl

free_hook-twice_example :
    free_hook 4112 (free_hook 4112 one_block).1 ≡ (physx, (free_hook 4112 one_block).1)
free_hook-twice_example = free_hook-twice one_block 4096 2 in_use (λ e. omega arith)
