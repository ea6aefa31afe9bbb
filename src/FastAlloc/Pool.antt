-- ===== src/FastAlloc/Pool.antt =====
-- src/fast_alloc.cpp: `class_of`, `bytes_of`, `carve`, `alloc_hook` and `free_hook`.
use bg3le.Common.{
  ℕ, zero, suc, ◌+◌, ◌-◌, ◌*◌, ◌%◌, ◌^◌, ◌&&◌, Option, none, some, List, get_or, set, ltb, leb,
  ◌==◌, if◌then◌else◌,
}

abbrev pub magic : ℕ
magic = 0x42473354454d5031

abbrev pub header_size : ℕ
header_size = 16

abbrev pub classes : ℕ
classes = 14

abbrev pub smallest : ℕ
smallest = 16

abbrev pub arena_chunk : ℕ
arena_chunk = 4 * 2 ^ 20

pub record Pool : Type 0 where
  pub free_list : List ℕ
  pub arena : ℕ
  pub arena_left : ℕ
  pub word : ℕ → ℕ
  pub served : ℕ
  pub recycled : ℕ
  pub arena_bytes : ℕ
  pub passthrough : ℕ

-- `while (cap < need && cls + 1 < kClasses)`, for the classes left.
unfoldable pub class_loop : ℕ → ℕ → ℕ → ℕ → ℕ × ℕ
class_loop zero need cls cap = (cls, cap)
class_loop (suc n) need cls cap =
    let next = class_loop n need (cls + 1) (cap * 2) in
    if ltb cap need && ltb (cls + 1) classes then next else (cls, cap)

-- `size + kHeaderSize` wraps around at 2^64.
unfoldable pub class_of : ℕ → ℕ
unfolding class_loop
class_of size =
    let need = (size + header_size) % 2 ^ 64 in
    let (cls, cap) = class_loop classes need 0 smallest in if leb need cap then cls else classes

unfoldable pub bytes_of : ℕ → ℕ
bytes_of cls = smallest * 2 ^ cls

abbrev pub bump : Pool → ℕ → ℕ × Pool
bump pool want =
    (pool.arena, record pool { arena = pool.arena + want; arena_left = pool.arena_left - want })

-- `mem` is what `mmap` returns for a new chunk, `none` for `MAP_FAILED`.
unfoldable pub carve : Option ℕ → Pool → ℕ → Option (ℕ × Pool)
carve mem pool want =
    if ltb pool.arena_left want
    then (let chunk = if ltb arena_chunk want then want else arena_chunk in
        elim mem [
          | none ↦ none
          | some at ↦ some (
              bump
                (record pool {
                  arena = at;
                  arena_left = chunk;
                  arena_bytes = pool.arena_bytes + chunk;
                })
                want)
        ])
    else some (bump pool want)

-- `word` with `v` written at `at`.
abbrev pub store : (ℕ → ℕ) → ℕ → ℕ → ℕ → ℕ
store word at v p = if p == at then v else word p

-- What a hook does: answer itself, or call PhysX's own function.
pub data Answer : Type 0 where
  ours : ℕ → Answer
  physx : Answer

abbrev pub write_header : Pool → ℕ → ℕ → Pool
write_header pool block cls = record pool {
  word = store (store pool.word block magic) (block + 8) cls;
  served = pool.served + 1;
}

unfoldable pub from_arena : ℕ → Option (ℕ × Pool) → Pool → Answer × Pool
from_arena cls none pool = (physx, pool)
from_arena cls (some (block, pool')) pool =
    (ours (block + header_size), write_header pool' block cls)

unfoldable pub alloc_hook : Option ℕ → ℕ → Pool → Answer × Pool
unfolding carve from_arena
alloc_hook mem size pool =
    let cls = class_of size in
    let block = get_or pool.free_list cls 0 in
    if leb classes cls
    then (physx, record pool { passthrough = pool.passthrough + 1 })
    else if block == 0
    then from_arena cls (carve mem pool (bytes_of cls)) pool
    else (
      ours (block + header_size),
      write_header
          (record pool {
            free_list = set pool.free_list cls (pool.word block);
            recycled = pool.recycled + 1;
          })
          block cls,
    )

-- What `free_hook` does with a pointer: nothing for null, PhysX's function for a block that is not
-- ours, and else the block goes to the head of its list. `ours` holds the block taken back.
unfoldable pub free_hook : ℕ → Pool → Answer × Pool
free_hook ptr pool =
    let head = ptr - header_size in
    let cls = pool.word (head + 8) in
    if ptr == 0
    then (ours 0, pool)
    else if pool.word head == magic
    then (if leb classes cls then (physx, pool) else (
      ours head,
      record pool {
        word = store (store pool.word head 0) head (get_or pool.free_list cls 0);
        free_list = set pool.free_list cls head;
      },
    ))
    else (physx, pool)
