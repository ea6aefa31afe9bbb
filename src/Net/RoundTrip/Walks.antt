-- ===== src/Net/RoundTrip/Walks.antt =====
-- src/net.cpp: the decoders' loop without its fuel, and one round of it for each kind of field that
-- the encoders write.
use bg3le.Common.{
  ℕ, zero, suc, ◌+◌, ◌*◌, ◌<◌, ◌≤◌, ◌≡◌, refl, sym, ap, ◌∙◌, arith, none, some, List, [], ◌∷◌, ◌++◌,
  append_assoc, append-nil, length, length-append, ok, ◌==◌, Bool-cases, ==_iff, inl, inr,
}
use bg3le.Wire.Write.{IsU64, key, varint, uint_field, bytes_field}
use bg3le.Wire.Read.{next, read_varint, read_bytes}
use bg3le.Wire.RoundTrip.{
  IsKey, groups, varint-groups, key-groups, next-groups, read_varint-groups, read_bytes-groups,
}
use bg3le.Wire.Bounds.{next_bounds}
use bg3le.Net.Message.{str_field}
use bg3le.Net.Decode.{FieldStep, walk}

-- A run of the loop.
pub data Walks {S : Type 0} (step : FieldStep S) : S → List ℕ → S → Type 0 where
  done : (s : S) (p : List ℕ) → next p ≡ none → Walks step s p s
  more :
      (s s' t : S) (p body rest : List ℕ) (field wire : ℕ)
      → next p ≡ some (field, wire, body)
      → step s field wire body ≡ some (s', rest)
      → length rest ≤ length body
      → Walks step s' rest t
      → Walks step s p t

walk_step :
    {S : Type 0} (step : FieldStep S) (fuel : ℕ) (s : S) (p : List ℕ) {s' : S} {body rest : List ℕ}
    {field wire : ℕ}
    → next p ≡ some (field, wire, body)
    → step s field wire body ≡ some (s', rest)
    → walk step (suc fuel) s p ≡ walk step fuel s' rest
unfolding walk
walk_step step fuel s p e f = rw (walk, e, f)

walk_end :
    {S : Type 0} (step : FieldStep S) (fuel : ℕ) (s : S) (p : List ℕ)
    → next p ≡ none
    → walk step (suc fuel) s p ≡ ok s
unfolding walk
walk_end step fuel s p e = rw (walk, e)

-- More fuel than bytes is enough.
pub walk-Walks :
    {S : Type 0} (step : FieldStep S) (fuel : ℕ) (s t : S) (p : List ℕ)
    → Walks step s p t
    → length p < fuel
    → walk step fuel s p ≡ ok t
walk-Walks step zero s t p w h = elim h [ ]
walk-Walks step (suc fuel) s t p (done _ _ e) h = walk_end step fuel s p e
walk-Walks step (suc fuel) s t p (more _ s' _ _ body rest field wire e f g w) h =
    walk_step step fuel s p e f
    ∙ walk-Walks step fuel s' t rest w (omega (arith, next_bounds p field wire body e))

-- The writers append.
pub uint_field-append :
    (out : List ℕ) (field v : ℕ)
    → IsKey field 0
    → IsU64 v
    → uint_field out field v ≡ out ++ uint_field [] field v
unfolding uint_field
uint_field-append out field v k h = elim (Bool-cases (v == 0)) [
  | inl z ↦ rw z (sym (append-nil out))
  | inr z ↦
      rw (z, key-groups out field 0 k, key-groups [] field 0 k)
        (varint-groups (out ++ groups 9 (0 + field * 8)) v h
          ∙ append_assoc out (groups 9 (0 + field * 8)) (groups 9 v)
          ∙ ap (λ t. out ++ t) (sym (varint-groups (groups 9 (0 + field * 8)) v h)))
]

pub bytes_field-groups :
    (out : List ℕ) (field : ℕ) (v : List ℕ)
    → IsKey field 2
    → IsU64 (length v)
    → bytes_field out field v ≡ out ++ (groups 9 (2 + field * 8) ++ (groups 9 (length v) ++ v))
unfolding bytes_field
bytes_field-groups out field v k h =
    rw
      (
        key-groups out field 2 k,
        varint-groups (out ++ groups 9 (2 + field * 8)) (length v) h,
        append_assoc (out ++ groups 9 (2 + field * 8)) (groups 9 (length v)) v,
        append_assoc out (groups 9 (2 + field * 8)) (groups 9 (length v) ++ v),
      )
      refl

pub bytes_field-append :
    (out : List ℕ) (field : ℕ) (v : List ℕ)
    → IsKey field 2
    → IsU64 (length v)
    → bytes_field out field v ≡ out ++ bytes_field [] field v
bytes_field-append out field v k h =
    bytes_field-groups out field v k h
    ∙ ap (λ t. out ++ t) (sym (bytes_field-groups [] field v k h))

pub str_field-append :
    (out : List ℕ) (field : ℕ) (v : List ℕ)
    → IsKey field 2
    → IsU64 (length v)
    → str_field out field v ≡ out ++ str_field [] field v
unfolding str_field
str_field-append out field [] k h = sym (append-nil out)
str_field-append out field (c ∷ v) k h = bytes_field-append out field (c ∷ v) k h

pub varint_key-append :
    (out : List ℕ) (field v : ℕ)
    → IsKey field 0
    → IsU64 v
    → varint (key out field 0) v ≡ out ++ (groups 9 (0 + field * 8) ++ groups 9 v)
varint_key-append out field v k h = rw (key-groups out field 0 k) (
    varint-groups (out ++ groups 9 (0 + field * 8)) v h
    ∙ append_assoc out (groups 9 (0 + field * 8)) (groups 9 v))

module _ {S : Type 0} (step : FieldStep S) (s s' t : S) (rest : List ℕ) where
  -- One round over a varint field that is there.
  pub Walks-varint :
      (field v : ℕ)
      → IsKey field 0
      → IsU64 v
      → ((p : List ℕ) → read_varint p ≡ some (v, rest) → step s field 0 p ≡ some (s', rest))
      → Walks step s' rest t
      → Walks step s (varint (key [] field 0) v ++ rest) t
  Walks-varint field v k h keep w =
      let p = groups 9 v ++ rest in
      rw
        (
          varint_key-append [] field v k h,
          append_assoc (groups 9 (0 + field * 8)) (groups 9 v) rest,
        )
        (more s s' t _ p rest field 0 (next-groups field 0 p k)
          (keep p (read_varint-groups v rest h)) (omega (arith, length-append (groups 9 v) rest)) w)

  pub Walks-bytes :
      (field : ℕ) (v : List ℕ)
      → IsKey field 2
      → IsU64 (length v)
      → ((p : List ℕ) → read_bytes p ≡ some (v, rest) → step s field 2 p ≡ some (s', rest))
      → Walks step s' rest t
      → Walks step s (bytes_field [] field v ++ rest) t
  Walks-bytes field v k h keep w =
      let p = groups 9 (length v) ++ (v ++ rest) in
      rw
        (
          bytes_field-groups [] field v k h,
          append_assoc (groups 9 (2 + field * 8)) (groups 9 (length v) ++ v) rest,
          append_assoc (groups 9 (length v)) v rest,
        )
        (more s s' t _ p rest field 2 (next-groups field 2 p k)
          (keep p (read_bytes-groups v rest h))
          (omega (arith, length-append (groups 9 (length v)) (v ++ rest), length-append v rest)) w)

  -- A number that is left out when it is 0.
  pub Walks-uint :
      (field v : ℕ)
      → IsKey field 0
      → IsU64 v
      → (v ≡ 0 → s ≡ s')
      → ((p : List ℕ) → read_varint p ≡ some (v, rest) → step s field 0 p ≡ some (s', rest))
      → Walks step s' rest t
      → Walks step s (uint_field [] field v ++ rest) t
  unfolding uint_field
  Walks-uint field v k h same keep w = elim (Bool-cases (v == 0)) [
    | inl z ↦ rw (z, same ((==_iff v 0).0 z)) w
    | inr z ↦ rw z (Walks-varint field v k h keep w)
  ]

  -- A string that is left out when it is empty.
  pub Walks-str :
      (field : ℕ) (v : List ℕ)
      → IsKey field 2
      → IsU64 (length v)
      → (v ≡ [] → s ≡ s')
      → ((p : List ℕ) → read_bytes p ≡ some (v, rest) → step s field 2 p ≡ some (s', rest))
      → Walks step s' rest t
      → Walks step s (str_field [] field v ++ rest) t
  unfolding str_field
  Walks-str field [] k h same keep w = rw (same refl) w
  Walks-str field (c ∷ v) k h same keep w = Walks-bytes field (c ∷ v) k h keep w
