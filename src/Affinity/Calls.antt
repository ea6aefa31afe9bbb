-- ===== src/Affinity/Calls.antt =====
-- src/affinity.cpp: `widen`, and the four calls that are interposed.
use bg3le.Common.{
  ℕ, Bool, true, false, ◌&&◌, ◌||◌, not, Option, none, some, List, [], ◌∷◌, set, replicate, ◌==◌,
  if◌then◌else◌,
}
use bg3le.Pak.Read.{same_bytes}
use bg3le.Affinity.Masks.{Mask, unrestricted, fill, single_cpu, cpu_list}
use bg3le.Affinity.Pins.{Pin, Pins, remember, recall}

-- `BG3LE_AFFINITY` and `sysconf`, which do not change.
pub record Machine : Type 0 where
  pub enabled : Bool
  pub cpu_count : ℕ

pub record State : Type 0 where
  pub attr_pins : Pins
  pub thread_pins : Pins
  pub game_cpu : Option ℕ

abbrev pub same_cpu : Option ℕ → Option ℕ → Bool
same_cpu none g = false
same_cpu (some c) none = false
same_cpu (some c) (some d) = c == d

abbrev pub pin_of : Machine → ℕ → Mask → Pin
pin_of m key mask = record {
  key = key;
  cpus = cpu_list m.cpu_count mask 64;
  single = single_cpu m.cpu_count mask;
}

-- A key of 0 is the null pointer, for which nothing is remembered.
unfoldable pub with_pin : Machine → ℕ → Mask → State → State
with_pin m key mask s =
    if key == 0 then s else record s { attr_pins = remember s.attr_pins (pin_of m key mask) }

-- The mask to use in place of the requested one, if there is one. The size of the set is that of the
-- request.
unfoldable pub widen : Machine → Option Mask → ℕ → ℕ → State → Option Mask × State
unfolding with_pin
widen m none size key s = (none, s)
widen m (some mask) size key s = if unrestricted m.cpu_count mask then (none, s) else (
  (if not m.enabled || same_cpu (single_cpu m.cpu_count mask) s.game_cpu
      then none
      else some (fill m.cpu_count size)),
  with_pin m key mask s,
)

abbrev pub or_requested : Option Mask → Option Mask → Option Mask
or_requested none mask = mask
or_requested (some all) mask = some all

-- What the real function is given.
unfoldable pub pthread_attr_setaffinity_np :
    Machine → ℕ → ℕ → Option Mask → State → Option Mask × State
unfolding widen
pthread_attr_setaffinity_np m attr size mask s =
    let (all, s') = widen m mask size attr s in (or_requested all mask, s')

unfoldable pub pthread_setaffinity_np : Machine → ℕ → Option Mask → State → Option Mask × State
unfolding widen
pthread_setaffinity_np m size mask s =
    let (all, s') = widen m mask size 0 s in (or_requested all mask, s')

abbrev pub keep_for_thread : Option Pin → ℕ → State → State
keep_for_thread none thread s = s
keep_for_thread (some pin) thread s = record s {
  thread_pins = remember s.thread_pins (record pin { key = thread });
}

-- `result` and `thread` are what the real function answers.
unfoldable pub pthread_create : ℕ → ℕ → ℕ → State → State
pthread_create attr result thread s =
    if (result == 0) && not (attr == 0)
    then keep_for_thread (recall s.attr_pins.slots attr) thread s
    else s

abbrev pub game_thread : List ℕ
game_thread = b'G' ∷ b'a' ∷ b'm' ∷ b'e' ∷ b'T' ∷ b'h' ∷ b'r' ∷ b'e' ∷ b'a' ∷ b'd' ∷ []

-- A `cpu_set_t` of 1024 bits with one of them set.
abbrev pub only : ℕ → ℕ → Mask
only bits c = set (replicate bits false) c true

abbrev pub pin_back : Machine → List ℕ → Option Pin → State → Option Mask × State
pin_back m name none s = (none, s)
pin_back m name (some pin) s = elim pin.single [
  | none ↦ (none, s)
  | some c ↦
      if m.enabled && same_bytes name game_thread
      then (some (only 1024 c), record s { game_cpu = some c })
      else (none, s)
]

-- The mask that the thread is given, if it is given one.
unfoldable pub pthread_setname_np : Machine → ℕ → List ℕ → State → Option Mask × State
pthread_setname_np m thread name s = pin_back m name (recall s.thread_pins.slots thread) s

-- A call by the engine other than one that names a thread, with what the real functions answer.
pub data Call : Type 0 where
  attr_set : (attr size : ℕ) → Option Mask → Call
  thread_set : (size : ℕ) → Option Mask → Call
  create : (attr result thread : ℕ) → Call

unfoldable pub after : Machine → Call → State → State
unfolding pthread_attr_setaffinity_np pthread_setaffinity_np pthread_create
after m (attr_set attr size mask) s = (pthread_attr_setaffinity_np m attr size mask s).1
after m (thread_set size mask) s = (pthread_setaffinity_np m size mask s).1
after m (create attr result thread) s = pthread_create attr result thread s

unfoldable pub after_all : Machine → List Call → State → State
unfolding after
after_all m [] s = s
after_all m (c ∷ calls) s = after_all m calls (after m c s)
