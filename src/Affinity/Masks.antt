-- ===== src/Affinity/Masks.antt =====
-- src/affinity.cpp: `unrestricted`, `fill`, `cpu_list` and `single_cpu`.
use bg3le.Common.{
  ℕ, zero, suc, ◌+◌, ◌*◌, Bool, true, false, ◌&&◌, Option, none, some, List, [], ◌∷◌, ◌++◌, length,
  get_or, set, replicate, ltb, ◌==◌, if◌then◌else◌,
}
use bg3le.Pak.Cache.{decimal}

-- The bits of a `cpu_set_t` of `size` bytes, `8 * size` of them. `CPU_ISSET_S` answers no outside.
abbrev pub Mask : Type 0
Mask = List Bool

abbrev pub is_set : Mask → ℕ → Bool
is_set mask c = get_or mask c false

-- `CPU_COUNT_S`
abbrev pub count_set : Mask → ℕ
count_set [] = 0
count_set (b ∷ mask) = (if b then 1 else 0) + count_set mask

-- The loop from the cpu `c` on, for the `n` cpus left.
unfoldable pub all_set : ℕ → ℕ → Mask → Bool
all_set zero c mask = true
all_set (suc n) c mask = is_set mask c && all_set n (c + 1) mask

unfoldable pub unrestricted : ℕ → Mask → Bool
unfolding all_set
unrestricted cpu_count mask = all_set cpu_count 0 mask

-- `CPU_SET_S` of each cpu; outside of the set it does nothing.
unfoldable pub set_all : ℕ → ℕ → Mask → Mask
set_all zero c mask = mask
set_all (suc n) c mask = set_all n (c + 1) (set mask c true)

unfoldable pub fill : ℕ → ℕ → Mask
unfolding set_all
fill cpu_count size = set_all cpu_count 0 (replicate (8 * size) false)

unfoldable pub first_set : ℕ → ℕ → Mask → Option ℕ
first_set zero c mask = none
first_set (suc n) c mask =
    let rest = first_set n (c + 1) mask in if is_set mask c then some c else rest

-- The one cpu asked for, `none` for -1.
unfoldable pub single_cpu : ℕ → Mask → Option ℕ
unfolding first_set
single_cpu cpu_count mask = if count_set mask == 1 then first_set cpu_count 0 mask else none

-- `snprintf` of a cpu behind what is there.
abbrev pub with_cpu : List ℕ → ℕ → List ℕ
with_cpu [] c = decimal 10 c []
with_cpu (d ∷ out) c = (d ∷ out) ++ (b',' ∷ decimal 10 c [])

unfoldable pub cpu_list_loop : ℕ → ℕ → Mask → ℕ → List ℕ → List ℕ
unfolding decimal
cpu_list_loop zero c mask cap out = out
cpu_list_loop (suc n) c mask cap out =
    let rest = cpu_list_loop n (c + 1) mask cap (if is_set mask c then with_cpu out c else out) in
    if ltb (length out + 8) cap then rest else out

-- "3" or "0,4", as far as `cap` characters hold them.
unfoldable pub cpu_list : ℕ → Mask → ℕ → List ℕ
unfolding cpu_list_loop
cpu_list cpu_count mask cap = cpu_list_loop cpu_count 0 mask cap []
