-- ===== src/Lsf/Sections.antt =====
-- src/lsf.cpp: `lz4_frame` and `Reader::section`.
use bg3le.Common.{
  ℕ, zero, suc, ◌+◌, ◌-◌, ◌%◌, ◌/◌, ◌^◌, Bool, ◌&&◌, ◌||◌, not, Option, none, some, List, [], ◌++◌,
  length, take, drop, get_or, ltb, leb, ◌==◌, if◌then◌else◌, ◌>>=◌, Run, ok, fail, stuck,
}
use bg3le.Inflate.Stream.{inflate}
use bg3le.Pak.Format.{Codecs}
use bg3le.Pak.Read.{of_inflate}
use bg3le.Lsf.Document.{u32}

abbrev pub max_section : ℕ
max_section = 2 ^ 28

-- What a block of a frame does: it is the end, or it leaves input and adds to the output.
pub data FrameStep : Type 0 where
  finished : FrameStep
  more : (rest out : List ℕ) → FrameStep

abbrev pub bit_of : ℕ → ℕ → Bool
bit_of flags mask = flags / mask % 2 == 1

abbrev pub exactly : ℕ → Run (List ℕ) → Run (List ℕ)
exactly size (ok out) = if length out == size then ok out else fail
exactly size fail = fail
exactly size stuck = stuck

-- `with_dict block room dict` is `LZ4_decompress_safe_usingDict`: at most `room` bytes, `none` for a
-- negative answer.
module _ (codecs : Codecs) (with_dict : List ℕ → ℕ → List ℕ → Option (List ℕ)) where
  open codecs use {lz4, zstd}

  -- The bytes of one block: stored if the top bit of its word is set.
  unfoldable pub frame_bytes : ℕ → List ℕ → ℕ → List ℕ → Option (List ℕ)
  frame_bytes word block size out =
      if word / 2 ^ 31 == 0
      then with_dict block (size - length out) (drop (length out - 65536) out)
      else if ltb size (length out + length block)
      then none
      else some block

  unfoldable pub frame_block : Bool → ℕ → List ℕ → List ℕ → Option FrameStep
  unfolding frame_bytes
  frame_block checksum size rest out =
      let word = u32 rest 0 in
      let len = word % 2 ^ 31 in
      let body = drop 4 rest in
      if ltb (length rest) 4
      then none
      else if word == 0
      then some finished
      else if ltb (length body) len
      then none
      else do
        bytes ← frame_bytes word (take len body) size out
        some (more (drop (len + (if checksum then 4 else 0)) body) (out ++ bytes))

  unfoldable pub frame_blocks : ℕ → Bool → ℕ → List ℕ → List ℕ → Run (List ℕ)
  unfolding frame_block
  frame_blocks zero checksum size rest out = stuck
  frame_blocks (suc fuel) checksum size rest out = elim (frame_block checksum size rest out) [
    | none ↦ fail
    | some finished ↦ ok out
    | some (more rest' out') ↦ frame_blocks fuel checksum size rest' out'
  ]

  -- A frame of which `size` bytes come out.
  unfoldable pub lz4_frame : List ℕ → ℕ → Run (List ℕ)
  unfolding frame_blocks
  lz4_frame input size =
      let flags = get_or input 4 0 in
      let at = 7 + (if bit_of flags 8 then 8 else 0) + (if bit_of flags 1 then 4 else 0) in
      if ltb (length input) 7 || not (u32 input 0 == 0x184d2204)
      then fail
      else exactly size
          (frame_blocks (suc (length input)) (bit_of flags 16) size (drop at input) [])

  -- The `switch (method)` of `section`.
  unfoldable pub unpack_section : ℕ → ℕ → Bool → ℕ → List ℕ → Option (List ℕ)
  unfolding lz4_frame
  unpack_section method version chunkable size input =
      if method == 1
      then of_inflate (inflate input size)
      else if method == 2
      then (if chunkable && leb 2 version
          then of_inflate (lz4_frame input size)
          else lz4 input size)
      else if method == 3
      then zstd input size
      else none

  -- `section(uncompressed, onDisk, chunkable)`: the section and the bytes behind it.
  unfoldable pub section : ℕ → ℕ → ℕ → ℕ → Bool → List ℕ → Option (List ℕ × List ℕ)
  unfolding unpack_section
  section method version uncompressed on_disk chunkable rest =
      if ltb max_section uncompressed || ltb max_section on_disk
      then none
      else if uncompressed == 0
      then (if on_disk == 0 then some ([], rest) else none)
      else if (on_disk == 0) || (method == 0)
      then (if ltb (length rest) uncompressed
          then none
          else some (take uncompressed rest, drop uncompressed rest))
      else if ltb (length rest) on_disk
      then none
      else do
        out ← unpack_section method version chunkable uncompressed (take on_disk rest)
        some (out, drop on_disk rest)
