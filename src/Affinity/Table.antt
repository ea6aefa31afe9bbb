-- ===== src/Affinity/Table.antt =====
-- src/affinity.cpp: what `recall` finds after `remember`.
use bg3le.Common.{
  ℕ, zero, suc, ◌+◌, ◌%◌, ◌<◌, ◌≡◌, ◌≢◌, refl, ap, ◌∙◌, none, some, List, [], ◌∷◌, length, get_or,
  set, length-set, ◌==◌, ==_iff, Bool-cases, Option-cases, inl, inr, ◌⊎◌, false, arith,
}
use mathlib.Core.Option.{some-injective}
use native.Mathlib.Nat.{mod-lt}
use bg3le.Affinity.Pins.{Pin, no_pin, Pins, slot_of, remember_at, remember, recall}

differ-test : (a b : ℕ) → a ≢ b → (a == b) ≡ false
differ-test a b h = ground arith

-- A pin that was written to a slot before which no slot has its key is found.
recall-set_self :
    (slots : List Pin) (i j : ℕ) (pin : Pin)
    → i < length slots
    → (slot_of slots pin.key j ≡ none) ⊎ (slot_of slots pin.key j ≡ some (j + i))
    → recall (set slots i pin) pin.key ≡ some pin
unfolding slot_of recall
recall-set_self [] i j pin h free = absurd (omega arith)
recall-set_self (p ∷ slots) zero j pin h free = rw ((==_iff pin.key pin.key).1 refl) refl
recall-set_self (p ∷ slots) (suc i) j pin h free = elim (Bool-cases (p.key == pin.key)) [
  | inr q ↦
      let rest : (slot_of slots pin.key (j + 1) ≡ none)
          ⊎ (slot_of slots pin.key (j + 1) ≡ some ((j + 1) + i)) =
        elim (rw q at free) [
          | inl e ↦ inl e
          | inr e ↦ inr (e ∙ ap (λ (n : ℕ). some n) (omega arith))
        ] in
      rw q (recall-set_self slots i (j + 1) pin (omega arith) rest)
  | inl q ↦
      let found : (some j ≡ none) ⊎ (some j ≡ some (j + suc i)) = rw q at free in
      let far : j ≡ j + suc i → ⊥ = λ e. omega arith in
      elim found [ inl e ↦ cc | inr e ↦ absurd (far (some-injective _ _ e)) ]
]

recall-set_other :
    (slots : List Pin) (i key : ℕ) (pin : Pin)
    → pin.key ≢ key
    → (get_or slots i no_pin).key ≢ key
    → recall (set slots i pin) key ≡ recall slots key
unfolding recall
recall-set_other [] i key pin h k = refl
recall-set_other (p ∷ slots) zero key pin h k =
    rw (differ-test pin.key key h, differ-test p.key key k) refl
recall-set_other (p ∷ slots) (suc i) key pin h k =
    let rest = recall-set_other slots i key pin h k in
    elim (Bool-cases (p.key == key)) [ inl q ↦ rw q refl | inr q ↦ rw q rest ]

-- A slot that is found has the key.
slot_of-key :
    (slots : List Pin) (key j i : ℕ)
    → slot_of slots key j ≡ some i
    → (n : ℕ) × (i ≡ j + n) × (n < length slots) × ((get_or slots n no_pin).key ≡ key)
unfolding slot_of
slot_of-key [] key j i e = cc
slot_of-key (p ∷ slots) key j i e = elim (Bool-cases (p.key == key)) [
  | inl q ↦
      let out : some j ≡ some i = rw q at e in
      (0, omega (arith, some-injective _ _ out), omega arith, (==_iff p.key key).0 q)
  | inr q ↦
      let (n, at, within, same) = slot_of-key slots key (j + 1) i (rw q at e) in
      (suc n, omega (arith, at), omega arith, same)
]

-- Where a pin is kept: the slot that has its key, or the next one in turn.
abbrev pub slot_for : Pins → Pin → ℕ
slot_for pins pin = elim (slot_of pins.slots pin.key 0) [
  | none ↦ pins.next % length pins.slots
  | some i ↦ i
]

remember_slots :
    (pins : Pins) (pin : Pin) → (remember pins pin).slots ≡ set pins.slots (slot_for pins pin) pin
unfolding remember remember_at
remember_slots pins pin = elim (Option-cases (slot_of pins.slots pin.key 0)) [
  | inl e ↦ rw (remember_at, slot_for, e) refl
  | inr (i, e) ↦ rw (remember_at, slot_for, e) refl
]

slot_for-lt :
    (pins : Pins) (pin : Pin) → 0 < length pins.slots → slot_for pins pin < length pins.slots
slot_for-lt pins pin h = elim (Option-cases (slot_of pins.slots pin.key 0)) [
  | inl e ↦ rw (slot_for, e) (mod-lt pins.next h)
  | inr (i, e) ↦
      let (n, at, within, same) = slot_of-key pins.slots pin.key 0 i e in
      rw (slot_for, e) (omega (arith, at))
]

recall-remember_self :
    (pins : Pins) (pin : Pin)
    → 0 < length pins.slots
    → recall (set pins.slots (slot_for pins pin) pin) pin.key ≡ some pin
recall-remember_self pins pin h =
    recall-set_self pins.slots (slot_for pins pin) 0 pin (slot_for-lt pins pin h)
      (elim (Option-cases (slot_of pins.slots pin.key 0)) [
        | inl e ↦ inl e
        | inr (i, e) ↦ rw (slot_for, e) (inr (ap (λ (n : ℕ). some n) (omega arith)))
      ])

-- What was remembered last under a key is what is recalled under it; under every other key that the
-- slot taken did not hold, what is recalled is as before; and no slot is added or lost.
pub remember_lem :
    (pins : Pins) (pin : Pin)
    → 0 < length pins.slots
    → (recall (remember pins pin).slots pin.key ≡ some pin)
      × ((key : ℕ)
          → pin.key ≢ key
          → (get_or pins.slots (slot_for pins pin) no_pin).key ≢ key
          → recall (remember pins pin).slots key ≡ recall pins.slots key)
      × (length (remember pins pin).slots ≡ length pins.slots)
remember_lem pins pin h = rw (remember_slots pins pin) (
  recall-remember_self pins pin h,
  (λ key. recall-set_other pins.slots (slot_for pins pin) key pin),
  length-set pins.slots (slot_for pins pin) pin,
)
