-- ===== src/Lsf/Frames.antt =====
-- src/lsf.cpp: `lz4_frame` ends on every input.
use bg3le.Common.{
  ℕ, zero, suc, ◌+◌, ◌%◌, ◌^◌, ◌<◌, ◌≤◌, ◌≡◌, ◌≢◌, refl, Bool, not, ◌||◌, Option, some, List, [],
  length, drop, take, length-drop, get_or, ltb, ltb-false, ==_iff, ◌==◌, if◌then◌else◌, >>=-eq-some,
  if_none-eq-some, Bool-cases, Option-cases, inl, inr, Run, ok, fail, stuck, subst, arith,
}
use mathlib.Core.Option.{some-injective}
use bg3le.Pak.Format.{Codecs}
use bg3le.Lsf.Document.{u32}
use bg3le.Lsf.Sections.{
  FrameStep, finished, more, frame_bytes, frame_block, frame_blocks, bit_of, exactly, lz4_frame,
}

-- How many bytes a step leaves.
abbrev bytes_left : FrameStep → ℕ
bytes_left finished = 0
bytes_left (more rest out) = length rest

module _ (codecs : Codecs) (with_dict : List ℕ → ℕ → List ℕ → Option (List ℕ)) where
  -- A block takes the four bytes of its word at least.
  frame_block-shrinks :
      (checksum : Bool) (size : ℕ) (rest out : List ℕ) (step : FrameStep)
      → frame_block codecs with_dict checksum size rest out ≡ some step
      → bytes_left step < length rest
  unfolding frame_block
  frame_block-shrinks checksum size rest out step e =
      let word = u32 rest 0 in
      let (there, e1) = if_none-eq-some (ltb (length rest) 4) _ e in
      let four : 4 ≤ length rest = ltb-false (length rest) 4 there in
      elim (Bool-cases (word == 0)) [
        | inl p ↦
            let out1 : some finished ≡ some step = rw p at e1 in
            subst (λ s. bytes_left s < length rest) (some-injective _ _ out1) (omega arith)
        | inr p ↦
            let (enough, e2) =
              if_none-eq-some (ltb (length (drop 4 rest)) (word % 2 ^ 31)) _ (rw p at e1) in
            let (bytes, got, out2) =
              >>=-eq-some
                (frame_bytes codecs with_dict word (take (word % 2 ^ 31) (drop 4 rest)) size out) _
                e2 in
            let skipped = word % 2 ^ 31 + (if checksum then 4 else 0) in
            subst (λ s. bytes_left s < length rest) (some-injective _ _ out2)
              (omega (arith, length-drop skipped (drop 4 rest), length-drop 4 rest))
      ]

  frame_blocks-ne-stuck :
      (fuel : ℕ) (checksum : Bool) (size : ℕ) (rest out : List ℕ)
      → length rest < fuel
      → frame_blocks codecs with_dict fuel checksum size rest out ≢ stuck
  unfolding frame_blocks
  frame_blocks-ne-stuck zero checksum size rest out h = absurd (omega arith)
  frame_blocks-ne-stuck (suc fuel) checksum size rest out h =
      elim (Option-cases (frame_block codecs with_dict checksum size rest out)) [
        | inl p ↦ rw (frame_blocks, p) (λ e. cc)
        | inr (finished, p) ↦ rw (frame_blocks, p) (λ e. cc)
        | inr (more rest' out', p) ↦
            let fewer = frame_block-shrinks checksum size rest out (more rest' out') p in
            rw (frame_blocks, p)
              (frame_blocks-ne-stuck fuel checksum size rest' out' (omega (arith, fewer)))
      ]

  exactly-ne-stuck : (size : ℕ) (r : Run (List ℕ)) → r ≢ stuck → exactly size r ≢ stuck
  exactly-ne-stuck size (ok out) h = elim (Bool-cases (length out == size)) [
    | inl p ↦ rw p (λ e. cc)
    | inr p ↦ rw p (λ e. cc)
  ]
  exactly-ne-stuck size fail h = λ e. cc
  exactly-ne-stuck size stuck h = λ e. h refl

  exactly-length :
      (size : ℕ) (r : Run (List ℕ)) (out : List ℕ) → exactly size r ≡ ok out → length out ≡ size
  exactly-length size (ok x) out e = elim (Bool-cases (length x == size)) [
    | inl p ↦
        let same : ok x ≡ ok out = rw p at e in
        let sized : length x ≡ size = (==_iff (length x) size).0 p in cc
    | inr p ↦ let no : fail ≡ ok out = rw p at e in cc
  ]
  exactly-length size fail out e = cc
  exactly-length size stuck out e = cc

  -- On every input, whatever the LZ4 decompressor answers, `lz4_frame` ends: its loop never runs out
  -- of fuel, and where it succeeds it has written exactly the bytes that it was asked for.
  pub lz4_frame_lem :
      (input : List ℕ) (size : ℕ)
      → (lz4_frame codecs with_dict input size ≢ stuck)
        × ((out : List ℕ) → lz4_frame codecs with_dict input size ≡ ok out → length out ≡ size)
  unfolding lz4_frame
  lz4_frame_lem input size =
      elim (Bool-cases (ltb (length input) 7 || not (u32 input 0 == 0x184d2204))) [
        | inl p ↦ rw p ((λ e. cc), (λ out e. cc))
        | inr p ↦
            let flags = get_or input 4 0 in
            let at = 7 + (if bit_of flags 8 then 8 else 0) + (if bit_of flags 1 then 4 else 0) in
            let blocks =
              frame_blocks codecs with_dict (suc (length input)) (bit_of flags 16) size
                (drop at input) [] in
            let ends =
              frame_blocks-ne-stuck (suc (length input)) (bit_of flags 16) size (drop at input) []
                (omega (arith, length-drop at input)) in
            rw p (exactly-ne-stuck size blocks ends, exactly-length size blocks)
      ]
