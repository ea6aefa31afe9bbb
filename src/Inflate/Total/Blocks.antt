-- ===== src/Inflate/Total/Blocks.antt =====
-- src/inflate.cpp: the loop over codes, and stored and fixed blocks, have an answer on every input.
use bg3le.Common.{
  ℕ, zero, suc, ◌+◌, ◌*◌, ◌<◌, ◌≤◌, ◌≡◌, refl, subst, bit_xor, arith, none, some, List, length,
  length-append, length-take, length-drop, take, drop, ltb, ltb-false, ◌==◌, if_none-eq-some,
  if_some-eq-some, Option-cases, inl, inr, All, All-append, All-take, All-drop, Run, ok, fail,
  stuck,
}
use mathlib.Core.Option.{some-injective}
use bg3le.Common.Bytes.{IsByte}
use bg3le.Inflate.Bits.{Bits, left}
use bg3le.Inflate.Huffman.{Huffman}
use bg3le.Inflate.Codes.{Output, stored_data, stored, more, finished, codes_round, codes}
use bg3le.Inflate.Stream.{run_of_option}
use bg3le.Inflate.Advance.{Advance, Advance-trans, Advance-codes_round}

-- A result and what it keeps: the loop has an answer, and if that is a result, the step to it is
-- an `Advance`.
abbrev pub Ends : Bits → Output → Run (Bits × Output) → Type 0
Ends s o (ok (s', o')) = Advance s o s' o'
Ends s o fail = Unit {0}
Ends s o stuck = ⊥

pub Ends-trans :
    (s t : Bits) (o p : Output) (r : Run (Bits × Output))
    → Advance s o t p
    → Ends t p r
    → Ends s o r
Ends-trans s t o p (ok (s', o')) a e = Advance-trans a e
Ends-trans s t o p fail a e = tt
Ends-trans s t o p stuck a e = e

codes-none :
    (fuel : ℕ) (lit dist : Huffman) (s : Bits) (o : Output)
    → codes_round lit dist s o ≡ none
    → codes (suc fuel) lit dist s o ≡ fail
unfolding codes
codes-none fuel lit dist s o e = rw (codes, e)

codes-more :
    (fuel : ℕ) (lit dist : Huffman) (s t : Bits) (o p : Output)
    → codes_round lit dist s o ≡ some (more t p)
    → codes (suc fuel) lit dist s o ≡ codes fuel lit dist t p
unfolding codes
codes-more fuel lit dist s t o p e = rw (codes, e)

codes-finished :
    (fuel : ℕ) (lit dist : Huffman) (s t : Bits) (o p : Output)
    → codes_round lit dist s o ≡ some (finished t p)
    → codes (suc fuel) lit dist s o ≡ ok (t, p)
unfolding codes
codes-finished fuel lit dist s t o p e = rw (codes, e)

pub codes-Ends :
    (fuel : ℕ) (lit dist : Huffman) (s : Bits) (o : Output)
    → left s < fuel
    → Ends s o (codes fuel lit dist s o)
codes-Ends zero lit dist s o h = elim h [ ]
codes-Ends (suc fuel) lit dist s o h = elim (Option-cases (codes_round lit dist s o)) [
  | inl e ↦ rw (codes-none fuel lit dist s o e) tt
  | inr (finished t p, e) ↦
      rw (codes-finished fuel lit dist s t o p e)
        (Advance-codes_round lit dist s o (finished t p) e).0
  | inr (more t p, e) ↦
      let (a, less) = Advance-codes_round lit dist s o (more t p) e in
      rw (codes-more fuel lit dist s t o p e)
        (Ends-trans s t o p _ a (codes-Ends fuel lit dist t p (omega arith)))
]

length-drop_bits : (n : ℕ) (s : Bits) → 8 * length (drop n s.rest) ≤ left s
length-drop_bits n s = omega (arith, length-drop n s.rest)

Advance-stored_data :
    (len nlen : ℕ) (rest : List ℕ) (s : Bits) (o : Output) (t : Bits) (p : Output)
    → 8 * length rest ≤ left s
    → (All IsByte s.rest → All IsByte rest)
    → stored_data len nlen rest o ≡ some (t, p)
    → Advance s o t p
unfolding stored_data
Advance-stored_data len nlen rest s o t p h k e =
    let (check, e1) = if_some-eq-some (bit_xor len 0xffff == nlen) _ e in
    let (there, e2) = if_none-eq-some (ltb (length rest) len) _ e1 in
    let (room, e3) = if_none-eq-some (ltb o.size (length o.bytes + len)) _ e2 in
    subst (λ (q : Bits × Output). Advance s o q.0 q.1) (some-injective _ _ e3)
      (record {
        shorter = omega (arith, length-drop len rest);
        same_size = refl;
        keeps = λ g. record {
          input = All-drop IsByte len rest (k g.input);
          output = All-append IsByte o.bytes _ g.output (All-take IsByte len rest (k g.input));
          within = omega (
            arith,
            length-append o.bytes (take len rest),
            length-take len rest,
            ltb-false o.size (length o.bytes + len) room,
          );
        };
      })

pub stored-Ends : (s : Bits) (o : Output) → Ends s o (run_of_option (stored s o))
unfolding stored
stored-Ends s o = elim (Option-cases (stored s o)) [
  | inl e ↦ rw e tt
  | inr ((t, p), e) ↦
      let (long, e1) = if_none-eq-some (ltb (length s.rest) 4) _ e in
      rw e (
        Advance-stored_data _ _ (drop 4 s.rest) s o t p (length-drop_bits 4 s)
          (All-drop IsByte 4 s.rest) e1)
]
