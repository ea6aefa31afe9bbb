-- ===== src/PakFix/Placing.antt =====
-- src/pak_fix.cpp: that the files which are replaced can be read from the corrected copy.
use bg3le.Common.{
  ℕ, ◌+◌, ◌%◌, ◌<◌, ◌≤◌, ◌≡◌, ◌≢◌, refl, sym, ap, ◌∙◌, false, some, List, [], ◌∷◌, ◌++◌,
  append_assoc, append-nil, length, length-append, length-set, length-replicate, All, get_or,
  get_or-set_self, get_or-set_ne, set, take, drop, take-append, drop-append, replicate, ltb,
  le→ltb-false, ◌==◌, subst, arith,
}
use bg3le.Pak.Format.{Codecs, PakFile}
use bg3le.Pak.Read.{max_file_bytes, read_at, unpack, pak_file_read}
use bg3le.PakFix.Build.{no_file, padding, placed, place}

-- No index is replaced twice.
abbrev pub Apart : List (ℕ × List ℕ) → Type 0
Apart [] = Unit
Apart (r ∷ replaced) = All (λ (q : ℕ × List ℕ). q.0 ≢ r.0) replaced × Apart replaced

-- The index is one of a file, and the contents are not empty and not too large.
abbrev pub Fits : ℕ → ℕ × List ℕ → Type 0
Fits n r = (r.0 < n) × (0 < length r.1) × (length r.1 ≤ max_file_bytes)

place-grows :
    (replaced : List (ℕ × List ℕ)) (out : List ℕ) (files : List PakFile)
    → (tail : List ℕ) × ((place replaced out files).0 ≡ out ++ tail)
unfolding place
place-grows [] out files = ([], sym (append-nil out))
place-grows ((i, contents) ∷ replaced) out files =
    let more = replicate (padding (length out)) 0 ++ contents in
    let file = placed (get_or files i no_file) (length out + padding (length out)) contents in
    let (tail, e) = place-grows replaced (out ++ more) (set files i file) in
    (more ++ tail, e ∙ append_assoc out more tail)

place-others :
    (replaced : List (ℕ × List ℕ)) (out : List ℕ) (files : List PakFile) (i : ℕ)
    → All (λ (q : ℕ × List ℕ). q.0 ≢ i) replaced
    → get_or (place replaced out files).1 i no_file ≡ get_or files i no_file
unfolding place
place-others [] out files i h = refl
place-others ((j, contents) ∷ replaced) out files i h =
    let file = placed (get_or files j no_file) (length out + padding (length out)) contents in
    place-others replaced (out ++ (replicate (padding (length out)) 0 ++ contents))
      (set files j file) i h.1
    ∙ get_or-set_ne files j i file no_file h.0

module _ (codecs : Codecs) where
  read_placed :
      (file : PakFile) (before contents tail : List ℕ) (at : ℕ)
      → at ≡ length before
      → 0 < length contents
      → length contents ≤ max_file_bytes
      → pak_file_read codecs ((before ++ contents) ++ tail) (placed file at contents)
        ≡ some contents
  unfolding pak_file_read read_at unpack
  read_placed file before contents tail at h some_bytes few =
      let whole = append_assoc before contents tail in
      let start : drop at ((before ++ contents) ++ tail) ≡ contents ++ tail =
        ap (drop at) whole ∙ drop-append before (contents ++ tail) at h in
      let bytes : take (length contents) (drop at ((before ++ contents) ++ tail)) ≡ contents =
        ap (take (length contents)) start ∙ take-append contents tail (length contents) refl in
      let room : ltb (length ((before ++ contents) ++ tail)) (at + length contents) ≡ false =
        le→ltb-false _ _ (
          omega
            (arith, h, length-append (before ++ contents) tail, length-append before contents)) in
      let size : ltb max_file_bytes (length contents) ≡ false = le→ltb-false _ _ few in
      let nonempty : (length contents == 0) ≡ false = ground arith in
      rw (nonempty, size, room) (ap (λ (l : List ℕ). some l) bytes)

  -- When no file is replaced twice, and the new contents are neither empty nor larger than an archive's
  -- files may be, then the files of the listing that were replaced are read from the copy with these
  -- contents and stand at multiples of 64, and every other file of the listing is as it was.
  pub place_lem :
      (replaced : List (ℕ × List ℕ)) (out : List ℕ) (files : List PakFile)
      → Apart replaced
      → All (Fits (length files)) replaced
      → All
          (λ (r : ℕ × List ℕ).
            (pak_file_read codecs
                (place replaced out files).0
                (get_or (place replaced out files).1 r.0 no_file)
              ≡ some r.1)
            × ((get_or (place replaced out files).1 r.0 no_file).offset % 64 ≡ 0))
          replaced
        × ((i : ℕ)
            → All (λ (q : ℕ × List ℕ). q.0 ≢ i) replaced
            → get_or (place replaced out files).1 i no_file ≡ get_or files i no_file)
  unfolding place
  place_lem [] out files apart fits = (tt, (λ i h. refl))
  place_lem ((i, contents) ∷ replaced) out files apart fits =
      let zeros = replicate (padding (length out)) 0 in
      let at = length out + padding (length out) in
      let file = placed (get_or files i no_file) at contents in
      let out' = out ++ (zeros ++ contents) in
      let files' = set files i file in
      let fits' = subst (λ (n : ℕ). All (Fits n) replaced) (sym (length-set files i file)) fits.1 in
      let (rest, others) = place_lem replaced out' files' apart.1 fits' in
      let (tail, grown) = place-grows replaced out' files' in
      let mine : get_or (place replaced out' files').1 i no_file ≡ file =
        place-others replaced out' files' i apart.0
        ∙ get_or-set_self files i file no_file fits.0.0 in
      let bytes : (place replaced out' files').0 ≡ ((out ++ zeros) ++ contents) ++ tail =
        grown ∙ ap (λ (l : List ℕ). l ++ tail) (sym (append_assoc out zeros contents)) in
      let long : at ≡ length (out ++ zeros) =
        omega (arith, length-append out zeros, length-replicate {A = ℕ} (padding (length out)) 0) in
      let here : pak_file_read codecs (place replaced out' files').0
            (get_or (place replaced out' files').1 i no_file)
          ≡ some contents =
        rw (mine, bytes)
          (read_placed (get_or files i no_file) (out ++ zeros) contents tail at long fits.0.1
            fits.0.2) in
      (
        ((here, ap (λ (f : PakFile). f.offset % 64) mine ∙ omega arith), rest),
        (λ j h. place-others ((i, contents) ∷ replaced) out files j h),
      )
