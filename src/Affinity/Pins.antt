-- ===== src/Affinity/Pins.antt =====
-- src/affinity.cpp: the pinned requests that are remembered, `remember` and `recall`.
use bg3le.Common.{
  ℕ, ◌+◌, ◌%◌, ◌^◌, Option, none, some, List, [], ◌∷◌, length, set, ◌==◌, if◌then◌else◌,
}

-- `key` is an address; `single` is `none` for -1.
pub record Pin : Type 0 where
  pub key : ℕ
  pub cpus : List ℕ
  pub single : Option ℕ

abbrev pub no_pin : Pin
no_pin = record { key = 0; cpus = []; single = some 0 }

-- An array of pins, and how many pins took a new slot so far, in 32 bits.
pub record Pins : Type 0 where
  pub slots : List Pin
  pub next : ℕ

-- The first slot with the key, from the index `i` on.
unfoldable pub slot_of : List Pin → ℕ → ℕ → Option ℕ
slot_of [] key i = none
slot_of (p ∷ slots) key i =
    let rest = slot_of slots key (i + 1) in if p.key == key then some i else rest

unfoldable pub remember_at : Option ℕ → Pins → Pin → Pins
remember_at (some i) pins pin = record pins { slots = set pins.slots i pin }
remember_at none pins pin = record {
  slots = set pins.slots (pins.next % length pins.slots) pin;
  next = (pins.next + 1) % 2 ^ 32;
}

unfoldable pub remember : Pins → Pin → Pins
unfolding slot_of remember_at
remember pins pin = remember_at (slot_of pins.slots pin.key 0) pins pin

unfoldable pub recall : List Pin → ℕ → Option Pin
recall [] key = none
recall (p ∷ slots) key = let rest = recall slots key in if p.key == key then some p else rest
