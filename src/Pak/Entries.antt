-- ===== src/Pak/Entries.antt =====
-- src/pak.h: an entry of the file list read back from the bytes it is written as, in both layouts.
use bg3le.Common.{
  ℕ, zero, suc, ◌+◌, ◌-◌, ◌*◌, ◌%◌, ◌/◌, ◌^◌, ◌<◌, ◌≡◌, ◌≢◌, refl, sym, ap, ◌∙◌, bit_or, List, [],
  ◌∷◌, ◌++◌, length, take, drop, replicate, ◌==◌, All, false, arith, take-append, length-append,
  length-replicate, append-nil,
}
use bg3le.Common.Bits.{bit_or_shifted}
use bg3le.Common.Bytes.{le_bytes, le_value, length-le_bytes, le_value-le_bytes}
use bg3le.Pak.Format.{PakFile, field, c_string, name_field, decode18, decode15, encode18, encode15}

-- A name that `e.Name` holds: less than 256 characters, none of them null.
unfoldable pub NameFits : List ℕ → Type 0
NameFits name = length name < 256 × All (λ c. c ≢ 0) name

-- What the 18 layout can say of a file.
unfoldable pub Fits18 : PakFile → Type 0
Fits18 file =
    NameFits file.name
    × (file.offset < 256 ^ 6)
    × (file.part < 256)
    × (file.flags < 256)
    × (file.size_on_disk < 256 ^ 4)
    × (file.uncompressed_size < 256 ^ 4)
    × (file.crc ≡ 0)

-- What the 15 layout can say.
unfoldable pub Fits15 : PakFile → Type 0
Fits15 file =
    NameFits file.name
    × (file.offset < 256 ^ 8)
    × (file.size_on_disk < 256 ^ 8)
    × (file.uncompressed_size < 256 ^ 8)
    × (file.part < 256 ^ 4)
    × (file.flags < 256)
    × (file.crc < 256 ^ 4)

pub drop_past :
    (x rest : List ℕ) (skip at : ℕ) → skip ≡ length x → drop (skip + at) (x ++ rest) ≡ drop at rest
drop_past [] rest zero at h = ap (λ n. drop n rest) (omega arith)
drop_past [] rest (suc k) at h = absurd (omega arith)
drop_past (c ∷ x) rest zero at h = absurd (omega arith)
drop_past (c ∷ x) rest (suc k) at h =
    let moved : suc k + at ≡ suc (k + at) = omega arith in
    ap (λ n. drop n (c ∷ (x ++ rest))) moved ∙ drop_past x rest k at (omega arith)

-- Integers one behind the other, each with its width in bytes.
abbrev layout : List (ℕ × ℕ) → List ℕ
unfolding le_bytes
layout [] = []
layout ((width, v) ∷ []) = le_bytes width v
layout ((width, v) ∷ (f ∷ fs)) = le_bytes width v ++ layout (f ∷ fs)

-- Where the integer at an index starts, its width and its value.
abbrev place : List (ℕ × ℕ) → ℕ → ℕ × ℕ × ℕ
place [] i = (0, 0, 0)
place ((width, v) ∷ fs) zero = (0, width, v)
place ((width, v) ∷ fs) (suc i) = (width + (place fs i).0, (place fs i).1, (place fs i).2)

abbrev FitsWidth : ℕ × ℕ → Type 0
FitsWidth (width, v) = v < 256 ^ width

field_past :
    (k v at n : ℕ) (rest : List ℕ) → field (le_bytes k v ++ rest) (k + at) n ≡ field rest at n
field_past k v at n rest =
    ap (λ t. le_value (take n t)) (drop_past (le_bytes k v) rest k at (sym (length-le_bytes k v)))

field_here : (n v : ℕ) (rest : List ℕ) → v < 256 ^ n → field (le_bytes n v ++ rest) 0 n ≡ v
field_here n v rest h =
    ap le_value (take-append (le_bytes n v) rest n (sym (length-le_bytes n v)))
    ∙ le_value-le_bytes n v h

field-layout :
    (fs : List (ℕ × ℕ)) (i : ℕ)
    → All FitsWidth fs
    → field (layout fs) (place fs i).0 (place fs i).1 ≡ (place fs i).2
unfolding le_value layout le_bytes
field-layout [] i h = refl
field-layout ((width, v) ∷ []) zero h =
    ap (λ t. field t 0 width) (sym (append-nil (le_bytes width v))) ∙ field_here width v [] h.0
field-layout ((width, v) ∷ []) (suc i) h = refl
field-layout ((width, v) ∷ (f ∷ fs)) zero h = field_here width v (layout (f ∷ fs)) h.0
field-layout ((width, v) ∷ (f ∷ fs)) (suc i) h =
    field_past width v (place (f ∷ fs) i).0 (place (f ∷ fs) i).1 (layout (f ∷ fs))
    ∙ field-layout (f ∷ fs) i h.1

pub length-name_field : (name : List ℕ) → length name < 256 → 256 ≡ length (name_field name)
unfolding name_field
length-name_field name h = omega (
  arith,
  length-append name (replicate (256 - length name) 0),
  length-replicate {A = ℕ} (256 - length name) 0,
)

-- An integer behind the name.
field_named :
    (name : List ℕ) (fs : List (ℕ × ℕ)) (i : ℕ)
    → length name < 256
    → All FitsWidth fs
    → field (name_field name ++ layout fs) (256 + (place fs i).0) (place fs i).1 ≡ (place fs i).2
field_named name fs i short h =
    ap (λ t. le_value (take (place fs i).1 t))
      (drop_past (name_field name) (layout fs) 256 (place fs i).0 (length-name_field name short))
    ∙ field-layout fs i h

c_string-padded :
    (name : List ℕ) (k : ℕ)
    → All (λ c. c ≢ 0) name
    → 0 < k
    → c_string (name ++ replicate k 0) ≡ name
unfolding c_string
c_string-padded [] zero h p = absurd (omega arith)
c_string-padded [] (suc k) h p = refl
c_string-padded (c ∷ name) k h p =
    let nonzero : (c == 0) ≡ false = ground arith in
    rw nonzero (ap (λ t. c ∷ t) (c_string-padded name k h.1 p))

name_back :
    (name rest : List ℕ) → NameFits name → c_string (take 256 (name_field name ++ rest)) ≡ name
unfolding name_field NameFits
name_back name rest fits =
    ap c_string (take-append (name_field name) rest 256 (length-name_field name fits.0))
    ∙ c_string-padded name (256 - length name) fits.1 (omega arith)

PakFile-ext :
    (x y : PakFile)
    → x.name ≡ y.name
    → x.offset ≡ y.offset
    → x.size_on_disk ≡ y.size_on_disk
    → x.uncompressed_size ≡ y.uncompressed_size
    → x.flags ≡ y.flags
    → x.part ≡ y.part
    → x.crc ≡ y.crc
    → x ≡ y
PakFile-ext x y a b c d e f g = λ i. record {
  name = a i;
  offset = b i;
  size_on_disk = c i;
  uncompressed_size = d i;
  flags = e i;
  part = f i;
  crc = g i;
}

abbrev fields18 : PakFile → List (ℕ × ℕ)
fields18 file =
    (4, file.offset % 2 ^ 32)
    ∷ ((2, file.offset / 2 ^ 32)
        ∷ ((1, file.part)
            ∷ ((1, file.flags) ∷ ((4, file.size_on_disk) ∷ ((4, file.uncompressed_size) ∷ [])))))

-- An entry of version 18 that was written is read as the file it was written from: the offset, in
-- two parts of 32 and 16 bits, the single bytes, and the name up to its first null byte. The file's
-- name has less than 256 characters, none null, and its numbers fit the layout, which has no crc.
pub decode18-encode18 : (file : PakFile) → Fits18 file → decode18 (encode18 file) ≡ file
unfolding decode18 encode18 Fits18 NameFits
decode18-encode18 file (named, offset, part, flags, disk, plain, crc) =
    let fs = fields18 file in
    let fits : All FitsWidth fs =
      (omega arith, (omega arith, (part, (flags, (disk, (plain, tt)))))) in
    let at = λ (i : ℕ). field_named file.name fs i named.0 fits in
    let halves : file.offset % 2 ^ 32 + file.offset / 2 ^ 32 * 2 ^ 32 ≡ file.offset = omega arith in
    let joined = bit_or_shifted 32 (file.offset % 2 ^ 32) (file.offset / 2 ^ 32) (omega arith) in
    PakFile-ext _ _ (name_back file.name (layout fs) named)
      (ap (λ t. bit_or t (field (encode18 file) 260 2 * 2 ^ 32)) (at 0)
        ∙ (ap (λ t. bit_or (file.offset % 2 ^ 32) (t * 2 ^ 32)) (at 1) ∙ (joined ∙ halves)))
      (at 4) (at 5) (at 3) (at 2) (sym crc)

abbrev fields15 : PakFile → List (ℕ × ℕ)
fields15 file =
    (8, file.offset)
    ∷ ((8, file.size_on_disk)
        ∷ ((8, file.uncompressed_size)
            ∷ ((4, file.part) ∷ ((4, file.flags) ∷ ((4, file.crc) ∷ ((4, 0) ∷ []))))))

-- An entry of version 15 or 16 that was written is read as the file it was written from, when its
-- name has less than 256 characters, none null, and its numbers fit their integers, the flags one
-- byte.
pub decode15-encode15 : (file : PakFile) → Fits15 file → decode15 (encode15 file) ≡ file
unfolding decode15 encode15 Fits15 NameFits
decode15-encode15 file (named, offset, disk, plain, part, flags, crc) =
    let fs = fields15 file in
    let fits : All FitsWidth fs =
      (offset, (disk, (plain, (part, (omega arith, (crc, (omega arith, tt))))))) in
    let at = λ (i : ℕ). field_named file.name fs i named.0 fits in
    let small : file.flags % 256 ≡ file.flags = omega arith in
    PakFile-ext _ _ (name_back file.name (layout fs) named) (at 0) (at 1) (at 2)
      (ap (λ t. t % 256) (at 4) ∙ small) (at 3) (at 5)
