-- ===== src/Examples/Affinity.antt =====
-- src/affinity.cpp at concrete inputs.
use bg3le.Common.{
  ℕ, ◌≡◌, ◌≢◌, refl, ◌⊎◌, true, Option, none, some, List, [], ◌∷◌, length, get_or, replicate, arith,
}
use bg3le.Affinity.Masks.{Mask}
use bg3le.Affinity.Pins.{Pin, Pins, no_pin, remember, recall}
use bg3le.Affinity.Calls.{
  Machine, State, pthread_attr_setaffinity_np, pthread_setname_np, game_thread, only, Call,
  after_all,
}
use bg3le.Affinity.Table.{slot_for, remember_lem}
use bg3le.Affinity.Game.{IsKept, AllowsAll, made, pthread_attr_setaffinity_np_lem, game_thread_lem}

abbrev two_cpus : Machine
two_cpus = record { enabled = true; cpu_count = 2 }

abbrev empty_pins : Pins
empty_pins = record { slots = replicate 4 no_pin; next = 0 }

abbrev at_start : State
at_start = record { attr_pins = empty_pins; thread_pins = empty_pins; game_cpu = none }

abbrev one_pin : Pin
one_pin = record { key = 7; cpus = b'1' ∷ []; single = some 1 }

remember_example :
    (recall (remember empty_pins one_pin).slots 7 ≡ some one_pin)
    × ((key : ℕ)
        → 7 ≢ key
        → (get_or empty_pins.slots (slot_for empty_pins one_pin) no_pin).key ≢ key
        → recall (remember empty_pins one_pin).slots key ≡ recall empty_pins.slots key)
    × (length (remember empty_pins one_pin).slots ≡ length empty_pins.slots)
remember_example = remember_lem empty_pins one_pin (omega arith)

abbrev first_cpu : Mask
first_cpu = only 8 0

pthread_attr_setaffinity_np_example :
    (((pthread_attr_setaffinity_np two_cpus 7 1 (some first_cpu) at_start).0 ≡ some first_cpu)
      × IsKept two_cpus first_cpu at_start)
    ⊎ ((all : Mask) × ((pthread_attr_setaffinity_np two_cpus 7 1 (some first_cpu) at_start).0
          ≡ some all)
        × AllowsAll two_cpus 1 all
        × (two_cpus.enabled ≡ true))
pthread_attr_setaffinity_np_example =
    pthread_attr_setaffinity_np_lem two_cpus 7 1 first_cpu at_start

abbrev named : Option Mask × State
named =
    pthread_setname_np two_cpus 9 game_thread
      (made two_cpus 8 1 refl (omega arith) (omega arith) (omega arith) 7 1 9 at_start)

game_thread_example :
    (named.0 ≡ some (only 1024 1))
    × ((calls : List Call) (attr' size' : ℕ)
        → (pthread_attr_setaffinity_np two_cpus attr' size'
            (some (only 8 1))
            (after_all two_cpus calls named.1)).0
          ≡ some (only 8 1))
game_thread_example =
    game_thread_lem two_cpus 8 1 refl (omega arith) (omega arith) (omega arith) 7 1 9 at_start
      (omega arith) (omega arith) (omega arith)
