-- ===== src/Inflate/Total.antt =====
-- src/inflate.cpp: `inflate` ends on every input, with the whole output or with `false`.
mod Blocks
mod Dynamic
use bg3le.Common.{
  ℕ, zero, suc, ◌+◌, ◌-◌, ◌*◌, ◌<◌, ◌≤◌, ◌≡◌, refl, ap, subst, ◌∙◌, bit_xor, arith, false, ◌||◌,
  none, some, List, [], ◌∷◌, length, length-append, length-take, length-drop, get_or, set, take,
  drop, replicate, ltb, ltb-false, ◌==◌, ◌>>=◌, >>=-eq-some, if_none-eq-some, if_some-eq-some,
  Bool-cases, Option-cases, inl, inr, All, All-append, All-take, All-drop, Run, ok, fail, stuck,
  ==_iff,
}
use mathlib.Core.Option.{some-injective}
use bg3le.Common.Bytes.{IsByte}
use bg3le.Inflate.Bits.{Bits, take_bits, left}
use bg3le.Inflate.Huffman.{Huffman, decode}
use bg3le.Inflate.Codes.{
  Output, stored_data, stored, more, finished, codes_round, codes, fixed_block,
}
use bg3le.Inflate.Dynamic.{
  code_order, read_code_lengths, run_of, length_round, read_lengths, coded_block, dynamic_header,
  dynamic_body, dynamic_block,
}
use bg3le.Inflate.Stream.{
  run_of_option, block, block_header, with_last, after_header, block_round, blocks, full_output,
  has_zlib_header, start, inflate_from, inflate,
}
use bg3le.Inflate.Spending.{left-take_bits}
use bg3le.Inflate.Advance.{
  IsValid, Advance, Advance-trans, Advance-take_bits, Advance-decode, Advance-codes_round,
}
use bg3le.Inflate.Total.Blocks.{Ends, codes-Ends, stored-Ends}
use bg3le.Inflate.Total.Dynamic.{dynamic_body-Ends}

block-Ends :
    (type fuel : ℕ) (s : Bits) (o : Output) → left s < fuel → Ends s o (block type fuel s o)
unfolding block fixed_block dynamic_block
block-Ends type fuel s o h = elim (Bool-cases (type == 0)) [
  | inl p ↦ rw p (stored-Ends s o)
  | inr p ↦ elim (Bool-cases (type == 1)) [
    | inl q ↦ rw (p, q) (codes-Ends fuel _ _ s o h)
    | inr q ↦ elim (Bool-cases (type == 2)) [
      | inl r ↦ rw (p, q, r) (dynamic_body-Ends fuel s o h)
      | inr r ↦ rw (p, q, r) tt
    ]
  ]
]

-- A block takes at least the three bits of its header.
abbrev EndsRound : Bits → Output → Run (ℕ × Bits × Output) → Type 0
EndsRound s o (ok (last, t, p)) = Advance s o t p × (left t < left s)
EndsRound s o fail = Unit {0}
EndsRound s o stuck = ⊥

with_last-Ends :
    (last : ℕ) (s t : Bits) (o : Output) (r : Run (Bits × Output))
    → Advance s o t o
    → left t < left s
    → Ends t o r
    → EndsRound s o (with_last last r)
with_last-Ends last s t o (ok (u, p)) a h e = (Advance-trans a e, omega (arith, e.shorter))
with_last-Ends last s t o fail a h e = tt
with_last-Ends last s t o stuck a h e = e

block_header-Advance :
    (s : Bits) (o : Output) (last type : ℕ) (t : Bits)
    → block_header s ≡ some (last, type, t)
    → Advance s o t o × (left t < left s)
unfolding block_header
block_header-Advance s o last type t e =
    let ((last1, s1), g1, e1) = >>=-eq-some (take_bits 1 s) _ e in
    let ((type1, s2), g2, e2) = >>=-eq-some (take_bits 2 s1) _ e1 in
    let a =
      Advance-trans (Advance-take_bits 1 s last1 s1 o g1) (Advance-take_bits 2 s1 type1 s2 o g2) in
    subst (λ (q : ℕ × ℕ × Bits). Advance s o q.2 o × (left q.2 < left s)) (some-injective _ _ e2)
      (a, omega (arith, left-take_bits 1 s last1 s1 g1, left-take_bits 2 s1 type1 s2 g2))

block_round-Ends : (s : Bits) (o : Output) → EndsRound s o (block_round s o)
unfolding block_round after_header
block_round-Ends s o = elim (Option-cases (block_header s)) [
  | inl e ↦ rw e tt
  | inr ((last, type, t), e) ↦
      let (a, less) = block_header-Advance s o last type t e in
      rw e (with_last-Ends last s t o _ a less (block-Ends type (suc (left t)) t o (omega arith)))
]

-- What `blocks` promises of its output.
abbrev EndsOutput : Output → Run Output → Type 0
EndsOutput o (ok p) = (p.size ≡ o.size) × All IsByte p.bytes × (length p.bytes ≤ p.size)
EndsOutput o fail = Unit {0}
EndsOutput o stuck = ⊥

EndsOutput-same :
    (o p : Output) (r : Run Output) → p.size ≡ o.size → EndsOutput p r → EndsOutput o r
EndsOutput-same o p (ok q) e h = (h.0 ∙ e, h.1, h.2)
EndsOutput-same o p fail e h = tt
EndsOutput-same o p stuck e h = h

blocks-Ends :
    (fuel : ℕ) (s : Bits) (o : Output)
    → left s < fuel
    → IsValid s o
    → EndsOutput o (blocks fuel s o)
unfolding blocks
blocks-Ends zero s o h v = elim h [ ]
blocks-Ends (suc fuel) s o h v = go (block_round s o) refl (block_round-Ends s o) (blocks-Ends fuel)
  where
    go :
        (r : Run (ℕ × Bits × Output))
        → block_round s o ≡ r
        → EndsRound s o r
        → ((t : Bits) (p : Output) → left t < fuel → IsValid t p → EndsOutput p (blocks fuel t p))
        → EndsOutput o (blocks (suc fuel) s o)
    go fail e a rec = rw (blocks, e) tt
    go stuck e a rec = absurd a
    go (ok (last, t, p)) e (a, less) rec = elim (Bool-cases (last == 0)) [
      | inl q ↦
          rw (blocks, e, q) (EndsOutput-same o p _ a.same_size (rec t p (omega arith) (a.keeps v)))
      | inr q ↦ let g = a.keeps v in rw (blocks, e, q) (a.same_size, g.output, g.within)
    ]

-- The outcome of `inflate`: with success, all of `out` is written, by bytes.
abbrev pub Delivers : ℕ → Run (List ℕ) → Type 0
Delivers size (ok out) = (length out ≡ size) × All IsByte out
Delivers size fail = Unit {0}
Delivers size stuck = ⊥

full_output-Delivers :
    (o : Output) (r : Run Output) → EndsOutput o r → Delivers o.size (full_output r)
full_output-Delivers o (ok p) h = elim (Bool-cases (length p.bytes == p.size)) [
  | inl q ↦ rw q ((==_iff _ _).0 q ∙ h.0, h.1)
  | inr q ↦ rw q tt
]
full_output-Delivers o fail h = tt
full_output-Delivers o stuck h = h

inflate_from-Delivers :
    (input : List ℕ) (size : ℕ) → All IsByte input → Delivers size (inflate_from input size)
unfolding inflate_from
inflate_from-Delivers input size h =
    full_output-Delivers (record { bytes = []; size = size }) _
      (blocks-Ends (suc (8 * length input)) (start input) _ (omega arith)
        (record { input = h; output = tt; within = omega arith }))

-- On every sequence of bytes `inflate` ends, none of its loops running out of fuel; where it
-- succeeds it has written exactly `outSize` values, each of them a byte.
pub inflate-Delivers :
    (input : List ℕ) (size : ℕ) → All IsByte input → Delivers size (inflate input size)
unfolding inflate
inflate-Delivers [] size h = tt
inflate-Delivers (b0 ∷ []) size h = tt
inflate-Delivers (b0 ∷ b1 ∷ rest) size h = elim (Bool-cases (has_zlib_header b0 b1)) [
  | inl p ↦ rw p (inflate_from-Delivers rest size h.1.1)
  | inr p ↦ rw p (inflate_from-Delivers (b0 ∷ b1 ∷ rest) size h)
]
