-- ===== src/Inflate/Total/Dynamic.antt =====
-- src/inflate.cpp: a dynamic block has an answer on every input.
use bg3le.Common.{
  ℕ, zero, suc, ◌+◌, ◌-◌, ◌<◌, ◌≤◌, ◌≡◌, refl, ap, subst, arith, false, ◌||◌, some, List, [], ◌∷◌,
  get_or, set, take, replicate, ltb, ltb-false, ◌==◌, ◌>>=◌, >>=-eq-some, if_none-eq-some,
  Bool-cases, Option-cases, inl, inr, Run, ok, fail, stuck,
}
use mathlib.Core.Option.{some-injective}
use bg3le.Inflate.Bits.{Bits, take_bits, left}
use bg3le.Inflate.Huffman.{Huffman, decode}
use bg3le.Inflate.Codes.{Output}
use bg3le.Inflate.Dynamic.{
  code_order, read_code_lengths, run_of, length_round, read_lengths, coded_block, dynamic_header,
  dynamic_body,
}
use bg3le.Inflate.Advance.{Advance, Advance-trans, Advance-take_bits, Advance-decode}
use bg3le.Inflate.Total.Blocks.{Ends, Ends-trans, codes-Ends}

take_run :
    (n base v : ℕ) (s : Bits) (o : Output) (value count : ℕ) (t : Bits)
    → 1 ≤ base
    → ◌>>=◌ {B = ℕ × ℕ × Bits} (take_bits n s) (λ (extra, s'). some (v, base + extra, s'))
      ≡ some (value, count, t)
    → Advance s o t o × (1 ≤ count)
take_run n base v s o value count t h e =
    let ((extra, s'), got, e1) = >>=-eq-some (take_bits n s) _ e in
    let same = some-injective _ _ e1 in
    (
      subst (λ (q : ℕ × ℕ × Bits). Advance s o q.2 o) same (Advance-take_bits n s extra s' o got),
      omega (arith, ap (λ (q : ℕ × ℕ × Bits). q.1) same),
    )

Advance-refl : (s : Bits) (o : Output) → Advance s o s o
Advance-refl s o = record { shorter = omega arith; same_size = refl; keeps = λ g. g }

run_of_left :
    (symbol index : ℕ) (lengths : List ℕ) (s : Bits) (o : Output) (value count : ℕ) (t : Bits)
    → run_of symbol index lengths s ≡ some (value, count, t)
    → Advance s o t o × (1 ≤ count)
unfolding run_of
run_of_left symbol index lengths s o value count t e = elim (Bool-cases (ltb symbol 16)) [
  | inl p ↦
      let same = some-injective _ _ (rw p at e) in
      (
        subst (λ (q : ℕ × ℕ × Bits). Advance s o q.2 o) same (Advance-refl s o),
        omega (arith, ap (λ (q : ℕ × ℕ × Bits). q.1) same),
      )
  | inr p ↦ elim (Bool-cases (symbol == 16)) [
    | inl q ↦
        let (behind, e1) = if_none-eq-some (index == 0) _ (rw (p, q) at e) in
        take_run 2 3 (get_or lengths (index - 1) 0) s o value count t (omega arith) e1
    | inr q ↦ elim (Bool-cases (symbol == 17)) [
      | inl m ↦ take_run 3 3 0 s o value count t (omega arith) (rw (p, q, m) at e)
      | inr m ↦ take_run 7 11 0 s o value count t (omega arith) (rw (p, q, m) at e)
    ]
  ]
]

-- A round of `dynamic_block`'s loop moves its index on, and stays within the total.
length_round-Advance :
    (total : ℕ) (code : Huffman) (index : ℕ) (lengths : List ℕ) (s : Bits) (o : Output) (index' : ℕ)
    (lengths' : List ℕ) (t : Bits)
    → length_round total code index lengths s ≡ some (index', lengths', t)
    → Advance s o t o × (index < index') × (index' ≤ total)
unfolding length_round
length_round-Advance total code index lengths s o index' lengths' t e =
    let ((symbol, s'), got, e1) = >>=-eq-some (decode s code) _ e in
    let ((value, count, u), got', e2) = >>=-eq-some (run_of symbol index lengths s') _ e1 in
    let (room, e3) = if_none-eq-some (ltb total (index + count)) _ e2 in
    let (a, positive) = run_of_left symbol index lengths s' o value count u got' in
    let same = some-injective _ _ e3 in
    (
      subst (λ (q : ℕ × List ℕ × Bits). Advance s o q.2 o) same
          (Advance-trans (Advance-decode s code symbol s' o got) a),
      omega (arith, ap (λ (q : ℕ × List ℕ × Bits). q.0) same),
      omega (arith, ap (λ (q : ℕ × List ℕ × Bits). q.0) same, ltb-false total (index + count) room),
    )

abbrev EndsLengths : Bits → Output → Run (List ℕ × Bits) → Type 0
EndsLengths s o (ok (lengths, t)) = Advance s o t o
EndsLengths s o fail = Unit {0}
EndsLengths s o stuck = ⊥

EndsLengths-trans :
    (s t : Bits) (o : Output) (r : Run (List ℕ × Bits))
    → Advance s o t o
    → EndsLengths t o r
    → EndsLengths s o r
EndsLengths-trans s t o (ok (lengths, u)) a e = Advance-trans a e
EndsLengths-trans s t o fail a e = tt
EndsLengths-trans s t o stuck a e = e

-- The index grows in each round, so one round for each length and one more is enough.
read_lengths-Ends :
    (fuel total : ℕ) (code : Huffman) (index : ℕ) (lengths : List ℕ) (s : Bits) (o : Output)
    → index ≤ total
    → total < index + fuel
    → EndsLengths s o (read_lengths fuel total code index lengths s)
unfolding read_lengths
read_lengths-Ends zero total code index lengths s o i h = absurd (omega arith)
read_lengths-Ends (suc fuel) total code index lengths s o i h =
    elim (Bool-cases (ltb index total)) [
      | inr p ↦ rw (read_lengths, p) (Advance-refl s o)
      | inl p ↦ elim (Option-cases (length_round total code index lengths s)) [
        | inl e ↦ rw (read_lengths, p, e) tt
        | inr ((index', lengths', t), e) ↦
            let (a, on, within) =
              length_round-Advance total code index lengths s o index' lengths' t e in
            rw (read_lengths, p, e)
              (EndsLengths-trans s t o _ a
                (read_lengths-Ends fuel total code index' lengths' t o within (omega arith)))
      ]
    ]

coded_block-Ends :
    (fuel literals distances : ℕ) (s : Bits) (o : Output) (r : Run (List ℕ × Bits))
    → left s < fuel
    → EndsLengths s o r
    → Ends s o (coded_block fuel literals distances o r)
unfolding coded_block
coded_block-Ends fuel literals distances s o (ok (lengths, t)) h a =
    elim (Bool-cases (get_or lengths 256 0 == 0)) [
      | inl p ↦ rw p tt
      | inr p ↦ rw p (Ends-trans s t o o _ a (codes-Ends fuel _ _ t o (omega (arith, a.shorter))))
    ]
coded_block-Ends fuel literals distances s o fail h a = tt
coded_block-Ends fuel literals distances s o stuck h a = a

code_lengths-Advance :
    (order lengths : List ℕ) (s : Bits) (o : Output) (lengths' : List ℕ) (t : Bits)
    → read_code_lengths order lengths s ≡ some (lengths', t)
    → Advance s o t o
unfolding read_code_lengths
code_lengths-Advance [] lengths s o lengths' t e =
    subst (λ (q : List ℕ × Bits). Advance s o q.1 o) (some-injective _ _ e) (Advance-refl s o)
code_lengths-Advance (at ∷ order) lengths s o lengths' t e =
    let ((bits, s1), got, e1) = >>=-eq-some (take_bits 3 s) _ e in
    Advance-trans (Advance-take_bits 3 s bits s1 o got)
      (code_lengths-Advance order (set lengths at bits) s1 o lengths' t e1)

lengths_fit :
    (nlen ndist : ℕ)
    → (ltb 288 (nlen + 257) || ltb 32 (ndist + 1)) ≡ false
    → nlen + 257 + (ndist + 1) ≤ 320
lengths_fit nlen ndist h = ground arith

header_Advance :
    (s : Bits) (o : Output) (literals distances : ℕ) (lengths : List ℕ) (t : Bits)
    → dynamic_header s ≡ some (literals, distances, lengths, t)
    → Advance s o t o × (literals + distances ≤ 320)
unfolding dynamic_header
header_Advance s o literals distances lengths t e =
    let ((nlen, s1), g1, e1) = >>=-eq-some (take_bits 5 s) _ e in
    let ((ndist, s2), g2, e2) = >>=-eq-some (take_bits 5 s1) _ e1 in
    let ((ncode, s3), g3, e3) = >>=-eq-some (take_bits 4 s2) _ e2 in
    let (small, e4) = if_none-eq-some (ltb 288 (nlen + 257) || ltb 32 (ndist + 1)) _ e3 in
    let ((lengths1, u), g4, e5) =
      >>=-eq-some (read_code_lengths (take (ncode + 4) code_order) (replicate 320 0) s3) _ e4 in
    let same = some-injective _ _ e5 in
    (
      subst (λ (q : ℕ × ℕ × List ℕ × Bits). Advance s o q.3 o) same
          (Advance-trans (Advance-take_bits 5 s nlen s1 o g1) (
            Advance-trans (Advance-take_bits 5 s1 ndist s2 o g2) (
              Advance-trans (Advance-take_bits 4 s2 ncode s3 o g3)
                (code_lengths-Advance _ _ s3 o lengths1 u g4)))),
      subst (λ (q : ℕ × ℕ × List ℕ × Bits). q.0 + q.1 ≤ 320) same (lengths_fit nlen ndist small),
    )

pub dynamic_body-Ends :
    (fuel : ℕ) (s : Bits) (o : Output)
    → left s < fuel
    → Ends s o (dynamic_body fuel o (dynamic_header s))
unfolding dynamic_body
dynamic_body-Ends fuel s o h = elim (Option-cases (dynamic_header s)) [
  | inl e ↦ rw e tt
  | inr ((literals, distances, lengths, t), e) ↦
      let (a, few) = header_Advance s o literals distances lengths t e in
      rw e (
        Ends-trans s t o o _ a (
          coded_block-Ends fuel literals distances t o _ (omega (arith, a.shorter)) (
            read_lengths-Ends 321 (literals + distances) _ 0 lengths t o (omega arith)
              (omega arith))))
]
