-- ===== src/Net/Total.antt =====
-- src/net.cpp: the decoders end on every input, and never read past it.
use bg3le.Common.{
  ℕ, zero, suc, ◌<◌, ◌≤◌, ◌≡◌, refl, arith, Bool, true, false, ◌≢◌, Option, none, some, List,
  length, Run, ok, fail, stuck, if◌then◌else◌, >>=-eq-some, Option-cases, inl, inr,
}
use bg3le.Wire.Read.{next, read_varint, read_bytes, read_fixed, skip}
use bg3le.Wire.Bounds.{
  next_bounds, read_varint_bounds, length-read_bytes, length-read_fixed, length-skip,
}
use bg3le.Net.Message.{WrapperKind, Wrapper}
use bg3le.Net.Decode.{
  FieldStep, walk, with_varint, with_bytes, with_fixed, with_skip, VarState, finish_var, var_field,
  decode_var, body_field, outer_field, decode_body, then_body, decode,
}

-- What a step leaves is no longer than what it was given.
Shrinks : {S : Type 0} → List ℕ → Option (S × List ℕ) → Type 0
Shrinks {S} p r = (s : S) (rest : List ℕ) → r ≡ some (s, rest) → length rest ≤ length p

Shrinks-at :
    {S : Type 0} (p : List ℕ) (r : Option (S × List ℕ)) {s : S} {rest : List ℕ}
    → Shrinks p r
    → r ≡ some (s, rest)
    → length rest ≤ length p
unfolding Shrinks
Shrinks-at p r {s} {rest} h e = h s rest e

module _ {S : Type 0} (p : List ℕ) where
  Shrinks-varint : (f : ℕ → S) → Shrinks p (with_varint p f)
  unfolding Shrinks
  Shrinks-varint f s rest e =
      let ((n, r), got, out) = >>=-eq-some (read_varint p) _ e in
      ground (arith, read_varint_bounds p n r got)

  Shrinks-bytes : (f : List ℕ → S) → Shrinks p (with_bytes p f)
  unfolding Shrinks
  Shrinks-bytes f s rest e =
      let ((t, r), got, out) = >>=-eq-some (read_bytes p) _ e in
      ground (arith, length-read_bytes p t r got)

  Shrinks-skip : (wire : ℕ) (s : S) → Shrinks p (with_skip wire p s)
  unfolding Shrinks
  Shrinks-skip wire s s' rest e =
      let (r, got, out) = >>=-eq-some (skip wire p) _ e in ground (arith, length-skip wire p r got)

  Shrinks-fixed : (n : ℕ) (f : List ℕ → S) → Shrinks p (with_fixed n p f)
  unfolding Shrinks
  Shrinks-fixed n f s rest e =
      let ((t, r), got, out) = >>=-eq-some (read_fixed n p) _ e in
      ground (arith, length-read_fixed n p t r got)

  Shrinks-some : (s : S) → Shrinks p (some (s, p))
  unfolding Shrinks
  Shrinks-some s s' rest e = ground arith

  Shrinks-if :
      (b : Bool) (x y : Option (S × List ℕ))
      → Shrinks p x
      → Shrinks p y
      → Shrinks p (if b then x else y)
  Shrinks-if true x y h k = h
  Shrinks-if false x y h k = k

ruleset shrinks_rules =
    (Shrinks-varint, Shrinks-bytes, Shrinks-skip, Shrinks-fixed, Shrinks-some, Shrinks-if)

var_field-Shrinks :
    (s : VarState) (field wire : ℕ) (p : List ℕ) → Shrinks p (var_field s field wire p)
unfolding var_field
var_field-Shrinks s field wire p = search shrinks_rules depth 12

body_field-Shrinks :
    (k : WrapperKind) (w : Wrapper) (field wire : ℕ) (p : List ℕ)
    → Shrinks p (body_field k w field wire p)
unfolding body_field
body_field-Shrinks WrapperKind.unset w field wire p = search shrinks_rules depth 9
body_field-Shrinks k w field wire p = search shrinks_rules depth 9

outer_field-Shrinks :
    (s : WrapperKind × List ℕ) (field wire : ℕ) (p : List ℕ)
    → Shrinks p (outer_field s field wire p)
unfolding outer_field
outer_field-Shrinks s field wire p = search shrinks_rules

abbrev step_ends : {S : Type 0} → FieldStep S → ℕ → Option (S × List ℕ) → Run S
step_ends step fuel none = fail
step_ends step fuel (some (s, rest)) = walk step fuel s rest

module _ {S : Type 0} (step : FieldStep S)
    (shrinks : (s : S) (field wire : ℕ) (p : List ℕ) → Shrinks p (step s field wire p)) where
  walk-ne-stuck : (fuel : ℕ) (s : S) (p : List ℕ) → length p < fuel → walk step fuel s p ≢ stuck
  unfolding walk
  walk-ne-stuck zero s p h = absurd (omega arith)
  walk-ne-stuck (suc fuel) s p h = elim (Option-cases (next p)) [
    | inl e ↦ rw (walk, e) (λ q. cc)
    | inr ((field, wire, body), e) ↦ elim (Option-cases (step s field wire body)) [
      | inl f ↦ rw (walk, e, f) (λ q. cc)
      | inr ((s', rest), f) ↦
          rw (walk, e, f)
            (walk-ne-stuck fuel s' rest (
              omega (
                arith,
                next_bounds p field wire body e,
                Shrinks-at body _ (shrinks s field wire body) f,
              )))
    ]
  ]

finish_var-ne-stuck : (r : Run VarState) → r ≢ stuck → finish_var r ≢ stuck
finish_var-ne-stuck (ok s) h e = cc
finish_var-ne-stuck fail h e = cc
finish_var-ne-stuck stuck h e = h refl

decode_var-ne-stuck : (p : List ℕ) → decode_var p ≢ stuck
unfolding decode_var
decode_var-ne-stuck p =
    finish_var-ne-stuck _
      (walk-ne-stuck var_field var_field-Shrinks (suc (length p)) _ p (omega arith))

decode_body-ne-stuck : (k : WrapperKind) (p : List ℕ) (w : Wrapper) → decode_body k p w ≢ stuck
unfolding decode_body
decode_body-ne-stuck WrapperKind.unset p w e = cc
decode_body-ne-stuck k p w e =
    walk-ne-stuck (body_field k) (body_field-Shrinks k) (suc (length p)) _ p (omega arith) e

then_body-ne-stuck :
    (w : Wrapper) (r : Run (WrapperKind × List ℕ)) → r ≢ stuck → then_body w r ≢ stuck
then_body-ne-stuck w (ok (k, p)) h e = decode_body-ne-stuck k p w e
then_body-ne-stuck w fail h e = cc
then_body-ne-stuck w stuck h e = h refl

-- On every input `decode` ends with an answer, and so does `decode_var` on the variables inside a
-- message: their loops never run out of fuel.
pub decode-ne-stuck :
    (p : List ℕ) (w : Wrapper) → (decode p w ≢ stuck) × ((q : List ℕ) → decode_var q ≢ stuck)
unfolding decode
decode-ne-stuck p w = (
  then_body-ne-stuck w _
      (walk-ne-stuck outer_field outer_field-Shrinks (suc (length p)) _ p (omega arith)),
  decode_var-ne-stuck,
)
