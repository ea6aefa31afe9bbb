-- ===== src/Pak/Relisting/Header.antt =====
-- src/pak.cpp: the fields of a header whose list was written again.
use bg3le.Common.{
  ℕ, ◌^◌, ◌<◌, ◌≡◌, refl, sym, ap, ◌∙◌, Option, none, some, List, [], ◌++◌, length, take, drop,
  if◌then◌else◌, arith, append_assoc, take-append, drop-append, length-append, length-drop,
  Bool-cases, inl, inr, take_within, drop_within,
}
use mathlib.Core.Option.{some-injective}
use bg3le.Common.Bytes.{le_bytes, le_value, length-le_bytes, le_value-le_bytes}
use bg3le.Pak.Format.{field}
use bg3le.Pak.Read.{read_header, same_bytes, lspk}
use bg3le.Pak.RoundTrip.{read_at_lem}

-- The version stands in the first 8 bytes, behind the magic.
pub field_within : (x w : List ℕ) → length x ≡ 8 → field (x ++ w) 4 4 ≡ field x 4 4
field_within x w size =
    ap (λ (l : List ℕ). le_value (take 4 l)) (drop_within 4 x w (omega (arith, size)))
    ∙ ap le_value (take_within 4 (drop 4 x) w (omega (arith, size, length-drop 4 x)))

pub field_behind :
    (x w : List ℕ) (v : ℕ) → length x ≡ 8 → v < 2 ^ 63 → field (x ++ (le_bytes 8 v ++ w)) 8 8 ≡ v
field_behind x w v size small =
    ap (λ (l : List ℕ). le_value (take 8 l)) (drop-append x (le_bytes 8 v ++ w) 8 (sym size))
    ∙ (ap le_value (take-append (le_bytes 8 v) w 8 (sym (length-le_bytes 8 v)))
        ∙ le_value-le_bytes 8 v (omega (arith, small)))

pub size_behind :
    (x w : List ℕ) (at v : ℕ)
    → length x ≡ 8
    → v < 2 ^ 32
    → field (x ++ ((le_bytes 8 at ++ le_bytes 4 v) ++ w)) 16 4 ≡ v
size_behind x w at v size small =
    let before = x ++ le_bytes 8 at in
    let whole : x ++ ((le_bytes 8 at ++ le_bytes 4 v) ++ w) ≡ before ++ (le_bytes 4 v ++ w) =
      ap (λ (l : List ℕ). x ++ l) (append_assoc (le_bytes 8 at) (le_bytes 4 v) w)
      ∙ sym (append_assoc x (le_bytes 8 at) (le_bytes 4 v ++ w)) in
    let long : 16 ≡ length before =
      omega (arith, length-append x (le_bytes 8 at), length-le_bytes 8 at, size) in
    ap (λ (l : List ℕ). field l 16 4) whole
    ∙ (ap (λ (l : List ℕ). le_value (take 4 l)) (drop-append before (le_bytes 4 v ++ w) 16 long)
        ∙ (ap le_value (take-append (le_bytes 4 v) w 4 (sym (length-le_bytes 4 v)))
            ∙ le_value-le_bytes 4 v (omega (arith, small))))

read_header_lem :
    (x w rest : List ℕ)
    → length x ≡ 8
    → length w ≡ 32
    → read_header (x ++ (w ++ rest)) ≡ (if same_bytes (take 4 x) lspk then some (x ++ w) else none)
unfolding read_header
read_header_lem x w rest size more =
    let whole = sym (append_assoc x w rest) in
    let long : 40 ≡ length (x ++ w) = omega (arith, length-append x w, size, more) in
    let at_start = read_at_lem (x ++ (w ++ rest)) [] (x ++ w) rest 0 40 whole refl long in
    rw at_start (rw (take_within 4 x w (omega (arith, size))) refl)

-- Another list does not change the magic.
pub read_header_again :
    (x w w' rest rest' header : List ℕ)
    → length x ≡ 8
    → length w ≡ 32
    → length w' ≡ 32
    → read_header (x ++ (w ++ rest)) ≡ some header
    → (header ≡ x ++ w) × (read_header (x ++ (w' ++ rest')) ≡ some (x ++ w'))
read_header_again x w w' rest rest' header size more more' e =
    let before = sym (read_header_lem x w rest size more) ∙ e in
    elim (Bool-cases (same_bytes (take 4 x) lspk)) [
      | inl p ↦ (
        sym (some-injective _ _ (rw p at before)),
        read_header_lem x w' rest' size more' ∙ rw p refl,
      )
      | inr p ↦ let no : ◌≡◌ {A = Option (List ℕ)} none (some header) = rw p at before in cc
    ]
