-- ===== src/Examples/PakFixBuild.antt =====
-- src/pak_fix.cpp: `pak_fix_build` at concrete inputs.
use bg3le.Common.{ℕ, ◌%◌, ◌≡◌, ◌≢◌, some, List, [], ◌∷◌, ◌++◌, All, get_or, arith, false}
use bg3le.Pak.Format.{PakFile}
use bg3le.Pak.Read.{pak_file_read, same_bytes}
use bg3le.PakFix.Build.{no_file, place}
use bg3le.PakFix.Placing.{place_lem}
use bg3le.PakFix.Names.{part_path}
use bg3le.PakFix.Parts.{pak, archive_of_part}
use bg3le.PakFix.PartNames.{archive_of_part-part_path}
use bg3le.Examples.Pak.{storing}

abbrev three_files : List PakFile
three_files = no_file ∷ (no_file ∷ (no_file ∷ []))

-- New contents for the third file and for the first.
abbrev two_replaced : List (ℕ × List ℕ)
two_replaced = (2, b'a' ∷ b'b' ∷ []) ∷ ((0, 10 ∷ []) ∷ [])

place_example :
    All
      (λ (r : ℕ × List ℕ).
        (pak_file_read storing
            (place two_replaced (1 ∷ 2 ∷ []) three_files).0
            (get_or (place two_replaced (1 ∷ 2 ∷ []) three_files).1 r.0 no_file)
          ≡ some r.1)
        × ((get_or (place two_replaced (1 ∷ 2 ∷ []) three_files).1 r.0 no_file).offset % 64 ≡ 0))
      two_replaced
    × ((i : ℕ)
        → All (λ (q : ℕ × List ℕ). q.0 ≢ i) two_replaced
        → get_or (place two_replaced (1 ∷ 2 ∷ []) three_files).1 i no_file
          ≡ get_or three_files i no_file)
place_example =
    place_lem storing two_replaced (1 ∷ 2 ∷ []) three_files (((λ e. omega arith), tt), (tt, tt))
      ((omega arith, omega arith, omega arith), ((omega arith, omega arith, omega arith), tt))

archive_of_part-part_path_example :
    (archive_of_part (part_path ((b'm' ∷ b'_' ∷ b'1' ∷ []) ++ pak) 12)
      ≡ some ((b'm' ∷ b'_' ∷ b'1' ∷ []) ++ pak))
    × (same_bytes
          (part_path ((b'm' ∷ b'_' ∷ b'1' ∷ []) ++ pak) 12)
          (part_path ((b'm' ∷ b'_' ∷ b'1' ∷ []) ++ pak) 120)
        ≡ false)
archive_of_part-part_path_example =
    archive_of_part-part_path (b'm' ∷ b'_' ∷ b'1' ∷ []) 12 120 (omega arith) (omega arith)
