-- ===== src/Inflate/Advance.antt =====
-- src/inflate.cpp: what each step of the decoder keeps. It never gives bits back, never grows the
-- output past its size, and writes bytes only.
use bg3le.Common.{
  ℕ, zero, suc, ◌+◌, ◌-◌, ◌*◌, ◌%◌, ◌^◌, ◌<◌, ◌≤◌, ◌≡◌, refl, ap, subst, ◌∙◌, bit_or, arith, some,
  List, [], ◌∷◌, ◌++◌, length, length-append, get_or, ltb, leb, ltb-false, leb-false, ◌==◌,
  >>=-eq-some, if_none-eq-some, Bool-cases, inl, inr, All, All-append, All-get_or,
}
use mathlib.Core.Option.{some-injective}
use bg3le.Common.Bytes.{IsByte}
use bg3le.Inflate.Bits.{Bits, fill, take_bits, left}
use bg3le.Inflate.Huffman.{Huffman, decode_loop, decode}
use bg3le.Inflate.Codes.{
  Output, put, copy, Round, more, finished, write_match, read_distance, read_match, dists, dext,
  lens, lext, act_on, codes_round,
}
use bg3le.Inflate.Spending.{left-take_bits, left-decode}

-- The input and the output hold bytes, and the output is within its size.
pub record IsValid (s : Bits) (o : Output) : Type 0 where
  pub input : All IsByte s.rest
  pub output : All IsByte o.bytes
  pub within : length o.bytes ≤ o.size

pub record Advance (s : Bits) (o : Output) (s' : Bits) (o' : Output) : Type 0 where
  pub shorter : left s' ≤ left s
  pub same_size : o'.size ≡ o.size
  pub keeps : IsValid s o → IsValid s' o'

pub Advance-trans :
    {s t u : Bits} {o p q : Output} → Advance s o t p → Advance t p u q → Advance s o u q
Advance-trans a b = record {
  shorter = omega (arith, a.shorter, b.shorter);
  same_size = b.same_size ∙ a.same_size;
  keeps = λ v. b.keeps (a.keeps v);
}

All-fill :
    (p : List ℕ) (need value count : ℕ) (rest : List ℕ) (v c : ℕ)
    → fill p need value count ≡ some (rest, v, c)
    → All IsByte p
    → All IsByte rest
unfolding fill
All-fill [] need value count rest v c e h = ground arith
All-fill (b ∷ p) need value count rest v c e h =
    ground (arith, h.0, h.1, All-fill p need (bit_or value (b * 2 ^ count)) (count + 8) rest v c)

take_bits-rest :
    (need : ℕ) (s : Bits) (v : ℕ) (t : Bits)
    → take_bits need s ≡ some (v, t)
    → All IsByte s.rest
    → All IsByte t.rest
unfolding take_bits
take_bits-rest need s v t e h =
    let ((rest, value, count), got, out) = >>=-eq-some (fill s.rest need s.buffer s.count) _ e in
    subst (λ (b : Bits). All IsByte b.rest) (ap (λ (p : ℕ × Bits). p.1) (some-injective _ _ out))
      (All-fill s.rest need s.buffer s.count rest value count got h)

pub Advance-take_bits :
    (need : ℕ) (s : Bits) (v : ℕ) (t : Bits) (o : Output)
    → take_bits need s ≡ some (v, t)
    → Advance s o t o
Advance-take_bits need s v t o e = record {
  shorter = omega (arith, left-take_bits need s v t e);
  same_size = refl;
  keeps = λ h. record {
    input = take_bits-rest need s v t e h.input;
    output = h.output;
    within = h.within;
  };
}

decode_loop-rest :
    (n len code first index : ℕ) (h : Huffman) (s : Bits) (v : ℕ) (t : Bits)
    → decode_loop n len code first index h s ≡ some (v, t)
    → All IsByte s.rest
    → All IsByte t.rest
unfolding decode_loop
decode_loop-rest zero len code first index h s v t e a = cc
decode_loop-rest (suc n) len code first index h s v t e a =
    let ((bit, s'), got, out) = >>=-eq-some (take_bits 1 s) _ e in
    let count = get_or h.counts len 0 in
    let a' = take_bits-rest 1 s bit s' got a in
    elim (Bool-cases (ltb (bit_or code bit) (first + count))) [
      | inl p ↦
          subst (λ (b : Bits). All IsByte b.rest)
            (ap (λ (p : ℕ × Bits). p.1) (some-injective _ _ (rw p at out))) a'
      | inr p ↦
          decode_loop-rest n (len + 1) (bit_or code bit * 2) ((first + count) * 2) (index + count) h
            s' v t (rw p at out) a'
    ]

pub Advance-decode :
    (s : Bits) (h : Huffman) (v : ℕ) (t : Bits) (o : Output)
    → decode s h ≡ some (v, t)
    → Advance s o t o
unfolding decode
Advance-decode s h v t o e = record {
  shorter = omega (arith, left-decode s h v t e);
  same_size = refl;
  keeps = λ g. record {
    input = decode_loop-rest 15 1 0 0 0 h s v t e g.input;
    output = g.output;
    within = g.within;
  };
}

-- The state behind a round.
abbrev pub AdvanceTo : Bits → Output → Round → Type 0
AdvanceTo s o (more s' o') = Advance s o s' o'
AdvanceTo s o (finished s' o') = Advance s o s' o'

copy-IsByte : (n distance : ℕ) (out : List ℕ) → All IsByte out → All IsByte (copy n distance out)
unfolding copy
copy-IsByte zero distance out h = h
copy-IsByte (suc n) distance out h = copy-IsByte n distance _ (
    All-append IsByte out _ h (All-get_or IsByte out (length out - distance) 0 h (omega arith), tt))

pub length-copy : (n distance : ℕ) (out : List ℕ) → length (copy n distance out) ≡ length out + n
unfolding copy
length-copy zero distance out = omega arith
length-copy (suc n) distance out =
    let b : List ℕ = get_or out (length out - distance) 0 ∷ [] in
    omega (arith, length-copy n distance (out ++ b), length-append out b)

AdvanceTo-trans :
    (s t : Bits) (o : Output) (r : Round) → Advance s o t o → AdvanceTo t o r → AdvanceTo s o r
AdvanceTo-trans s t o (more u p) a b = Advance-trans a b
AdvanceTo-trans s t o (finished u p) a b = Advance-trans a b

Advance-write_match :
    (len distance : ℕ) (s : Bits) (o : Output) (r : Round)
    → write_match len distance s o ≡ some r
    → AdvanceTo s o r
unfolding write_match
Advance-write_match len distance s o r e =
    let (near, e1) = if_none-eq-some (ltb (length o.bytes) distance) _ e in
    let (room, e2) = if_none-eq-some (ltb o.size (length o.bytes + len)) _ e1 in
    subst (AdvanceTo s o) (some-injective _ _ e2) (record {
      shorter = omega arith;
      same_size = refl;
      keeps = λ g. record {
        input = g.input;
        output = copy-IsByte len distance o.bytes g.output;
        within =
            omega (
              arith,
              length-copy len distance o.bytes,
              ltb-false o.size (length o.bytes + len) room,
            );
      };
    })

Advance-read_distance :
    (len : ℕ) (dist : Huffman) (s : Bits) (o : Output) (r : Round)
    → read_distance len dist s o ≡ some r
    → AdvanceTo s o r
unfolding read_distance
Advance-read_distance len dist s o r e =
    let ((dsym, s'), got, e1) = >>=-eq-some (decode s dist) _ e in
    let (small, e2) = if_none-eq-some (leb 30 dsym) _ e1 in
    let ((dextra, t), got', e3) = >>=-eq-some (take_bits (get_or dext dsym 0) s') _ e2 in
    AdvanceTo-trans s s' o r (Advance-decode s dist dsym s' o got) (
      AdvanceTo-trans s' t o r (Advance-take_bits (get_or dext dsym 0) s' dextra t o got')
        (Advance-write_match (len) (get_or dists dsym 0 + dextra) t o r e3))

Advance-read_match :
    (index : ℕ) (dist : Huffman) (s : Bits) (o : Output) (r : Round)
    → read_match index dist s o ≡ some r
    → AdvanceTo s o r
unfolding read_match
Advance-read_match index dist s o r e =
    let (small, e1) = if_none-eq-some (leb 29 index) _ e in
    let ((extra, s'), got, e2) = >>=-eq-some (take_bits (get_or lext index 0) s) _ e1 in
    AdvanceTo-trans s s' o r (Advance-take_bits (get_or lext index 0) s extra s' o got)
      (Advance-read_distance (get_or lens index 0 + extra) dist s' o r e2)

Advance-put : (byte : ℕ) (s : Bits) (o o' : Output) → put o byte ≡ some o' → Advance s o s o'
unfolding put
Advance-put byte s o o' e =
    let (room, e1) = if_none-eq-some (leb o.size (length o.bytes)) _ e in
    subst (Advance s o s) (some-injective _ _ e1) (record {
      shorter = omega arith;
      same_size = refl;
      keeps = λ g. record {
        input = g.input;
        output = All-append IsByte o.bytes _ g.output (omega arith);
        within = omega (
          arith,
          length-append o.bytes (byte % 256 ∷ []),
          leb-false o.size (length o.bytes) room,
        );
      };
    })

Advance-act_on :
    (symbol : ℕ) (dist : Huffman) (s : Bits) (o : Output) (r : Round)
    → act_on symbol dist s o ≡ some r
    → AdvanceTo s o r
unfolding act_on
Advance-act_on symbol dist s o r e = elim (Bool-cases (ltb symbol 256)) [
  | inl p ↦
      let (o', got, e1) = >>=-eq-some (put o symbol) _ (rw p at e) in
      subst (AdvanceTo s o) (some-injective _ _ e1) (Advance-put symbol s o o' got)
  | inr p ↦ elim (Bool-cases (symbol == 256)) [
    | inl q ↦
        subst (AdvanceTo s o) (some-injective _ _ (rw (p, q) at e))
          (record { shorter = omega arith; same_size = refl; keeps = λ g. g })
    | inr q ↦ Advance-read_match (symbol - 257) dist s o r (rw (p, q) at e)
  ]
]

abbrev pub bits_of : Round → Bits
bits_of (more s o) = s
bits_of (finished s o) = s

shorter_to : (s : Bits) (o : Output) (r : Round) → AdvanceTo s o r → left (bits_of r) ≤ left s
shorter_to s o (more t p) a = a.shorter
shorter_to s o (finished t p) a = a.shorter

-- A round of `codes` that goes on or ends keeps all that, and takes at least a bit.
pub Advance-codes_round :
    (lit dist : Huffman) (s : Bits) (o : Output) (r : Round)
    → codes_round lit dist s o ≡ some r
    → AdvanceTo s o r × (left (bits_of r) < left s)
unfolding codes_round
Advance-codes_round lit dist s o r e =
    let ((symbol, s'), got, e1) = >>=-eq-some (decode s lit) _ e in
    let a = Advance-act_on symbol dist s' o r e1 in
    (
      AdvanceTo-trans s s' o r (Advance-decode s lit symbol s' o got) a,
      omega (arith, shorter_to s' o r a, left-decode s lit symbol s' got),
    )
