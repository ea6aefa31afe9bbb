-- ===== src/FastAlloc/Recycling.antt =====
-- src/fast_alloc.cpp: a block that is given back is the next one of its class, and is not taken
-- back twice.
use bg3le.Common.{
  ℕ, zero, suc, ◌+◌, ◌-◌, ◌<◌, ◌≡◌, ◌≢◌, refl, ap, arith, false, Option, List, [], ◌∷◌, length,
  get_or, set, get_or-set_self, leb, ◌==◌, ==_iff,
}
use bg3le.FastAlloc.Pool.{
  Pool, magic, class_of, Answer, ours, physx, alloc_hook, free_hook, store, write_header,
}

-- A block in use: its header is what `alloc_hook` wrote.
pub record InUse (pool : Pool) (block cls : ℕ) : Type 0 where
  pub marked : pool.word block ≡ magic
  pub class : pool.word (block + 8) ≡ cls
  pub known : cls < 14
  pub real : 0 < block
  pub lists : length pool.free_list ≡ 14

ne-test : (a b : ℕ) → a ≢ b → (a == b) ≡ false
ne-test a b h = ground arith

not_leb : (a b : ℕ) → b < a → leb a b ≡ false
not_leb a b h = ground arith

-- The pool after a block in use was given back.
freed : Pool → ℕ → ℕ → Pool
freed pool block cls = record pool {
  word = store (store pool.word block 0) block (get_or pool.free_list cls 0);
  free_list = set pool.free_list cls block;
}

free_hook-InUse :
    (pool : Pool) (block cls : ℕ)
    → InUse pool block cls
    → free_hook (block + 16) pool ≡ (ours block, freed pool block cls)
unfolding free_hook freed
free_hook-InUse pool block cls u =
    let here : block + 16 - 16 ≡ block = omega arith in
    rw (ne-test (block + 16) 0 (omega arith), here, u.marked, u.class, not_leb 14 cls u.known)

set-set : (xs : List ℕ) (i a b : ℕ) → set (set xs i a) i b ≡ set xs i b
set-set [] i a b = refl
set-set (x ∷ xs) zero a b = refl
set-set (x ∷ xs) (suc i) a b = ap (λ t. x ∷ t) (set-set xs i a b)

set-get_or : (xs : List ℕ) (i : ℕ) → set xs i (get_or xs i 0) ≡ xs
set-get_or [] i = refl
set-get_or (x ∷ xs) zero = refl
set-get_or (x ∷ xs) (suc i) = ap (λ t. x ∷ t) (set-get_or xs i)

-- The pool after the block is handed out again.
reused : Pool → ℕ → ℕ → Pool
reused pool block cls =
    write_header
      (record (freed pool block cls) { free_list = pool.free_list; recycled = pool.recycled + 1 })
      block cls

alloc_freed :
    (mem : Option ℕ) (size : ℕ) (pool : Pool) (block cls : ℕ)
    → InUse pool block cls
    → class_of size ≡ cls
    → alloc_hook mem size (freed pool block cls) ≡ (ours (block + 16), reused pool block cls)
unfolding alloc_hook freed reused
alloc_freed mem size pool block cls u e = rw (
  e,
  not_leb 14 cls u.known,
  get_or-set_self pool.free_list cls block 0 (omega (arith, u.lists, u.known)),
  ne-test block 0 (omega (arith, u.real)),
  (==_iff block block).1 refl,
  set-set pool.free_list cls block (get_or pool.free_list cls 0),
  set-get_or pool.free_list cls,
)

reused-word :
    (pool : Pool) (block cls p : ℕ)
    → p ≢ block
    → p ≢ block + 8
    → (reused pool block cls).word p ≡ pool.word p
unfolding reused freed
reused-word pool block cls p h k = rw (ne-test p block h, ne-test p (block + 8) k)

reused-InUse :
    (pool : Pool) (block cls : ℕ) → InUse pool block cls → InUse (reused pool block cls) block cls
unfolding reused
reused-InUse pool block cls u = record {
  marked = rw (ne-test block (block + 8) (omega arith), (==_iff block block).1 refl);
  class = rw ((==_iff (block + 8) (block + 8)).1 refl);
  known = u.known;
  real = u.real;
  lists = u.lists;
}

-- The two calls one after the other.
abbrev pub free_then_alloc : Option ℕ → ℕ → ℕ → Pool → Answer × Pool
free_then_alloc mem block size pool = alloc_hook mem size (free_hook (block + 16) pool).1

-- When a block in use is given back and a request of its class follows, the request gets that same
-- block, whatever `mmap` would do: the free lists and the arena are as before, the block is in use
-- again, and no word of memory outside its header has changed.
pub free_then_alloc_lem :
    (mem : Option ℕ) (size : ℕ) (pool : Pool) (block cls : ℕ)
    → InUse pool block cls
    → class_of size ≡ cls
    → ((free_then_alloc mem block size pool).0 ≡ ours (block + 16))
      × ((free_then_alloc mem block size pool).1.free_list ≡ pool.free_list)
      × ((free_then_alloc mem block size pool).1.arena ≡ pool.arena)
      × ((free_then_alloc mem block size pool).1.arena_left ≡ pool.arena_left)
      × InUse (free_then_alloc mem block size pool).1 block cls
      × ((p : ℕ)
          → p ≢ block
          → p ≢ block + 8
          → (free_then_alloc mem block size pool).1.word p ≡ pool.word p)
free_then_alloc_lem mem size pool block cls u e =
    rw (free_hook-InUse pool block cls u, alloc_freed mem size pool block cls u e)
      (
        refl,
        unfold reused freed in refl,
        unfold reused freed in refl,
        unfold reused freed in refl,
        reused-InUse pool block cls u,
        reused-word pool block cls,
      )

freed-word :
    (pool : Pool) (block cls : ℕ) → (freed pool block cls).word block ≡ get_or pool.free_list cls 0
unfolding freed
freed-word pool block cls = rw ((==_iff block block).1 refl)

-- A block that is given back twice is taken back once: the second call goes on to PhysX and leaves
-- the pool as it is, provided that the head of the block's list is not the magic number itself.
pub free_hook-twice :
    (pool : Pool) (block cls : ℕ)
    → InUse pool block cls
    → get_or pool.free_list cls 0 ≢ magic
    → free_hook (block + 16) (free_hook (block + 16) pool).1
      ≡ (physx, (free_hook (block + 16) pool).1)
free_hook-twice pool block cls u h =
    rw (free_hook-InUse pool block cls u)
      (unmarked (freed pool block cls) block (rw (freed-word pool block cls) h))
  where
    unmarked :
        (pool : Pool) (block : ℕ)
        → pool.word block ≢ magic
        → free_hook (block + 16) pool ≡ (physx, pool)
    unmarked pool block h =
        unfold free_hook in
        let here : block + 16 - 16 ≡ block = omega arith in
        rw (ne-test (block + 16) 0 (omega arith), here, ne-test (pool.word block) magic h)
