-- ===== src/Lsf/Write.antt =====
-- src/lsf.cpp: `lsf_write`.
use bg3le.Common.{ℕ, ◌+◌, List, [], ◌∷◌, ◌++◌, length, take, drop, leb, if◌then◌else◌}
use bg3le.Common.Bytes.{le_bytes}
use bg3le.Lsf.Document.{LsfDocument}

-- Bytes written over others from `at` on.
unfoldable pub put_bytes : ℕ → List ℕ → List ℕ → List ℕ
put_bytes at bytes p = take at p ++ (bytes ++ drop (at + length bytes) p)

-- A section's two sizes, 0 for the one on disk.
abbrev pub sizes : List ℕ → List ℕ
sizes bytes = le_bytes 4 (length bytes) ++ le_bytes 4 0

-- The new bytes at the start of the metadata, the last of them the flags.
unfoldable pub new_metadata : LsfDocument → List ℕ
unfolding le_bytes
new_metadata doc =
    if leb 6 doc.version
    then sizes doc.strings
      ++ (sizes doc.keys
          ++ (sizes doc.nodes ++ (sizes doc.attributes ++ (sizes doc.values ++ (0 ∷ [])))))
    else sizes doc.strings
      ++ (sizes doc.nodes ++ (sizes doc.attributes ++ (sizes doc.values ++ (0 ∷ []))))

unfoldable pub lsf_write : LsfDocument → List ℕ
unfolding put_bytes new_metadata
lsf_write doc =
    put_bytes doc.metadata_at (new_metadata doc) doc.prefix
    ++ (doc.strings
        ++ (doc.nodes
            ++ (doc.attributes ++ (doc.values ++ (if doc.has_keys then doc.keys else [])))))
