-- ===== src/PakFix/Paths.antt =====
-- src/pak_fix.cpp: which names and references the repair knows of.
use bg3le.Common.{
  ℕ, ◌+◌, ◌-◌, Bool, true, false, ◌&&◌, ◌||◌, not, Option, none, some, List, [], ◌∷◌, length, take,
  drop, leb, ◌==◌, if◌then◌else◌, ◌>>=◌,
}
use bg3le.Pak.Read.{same_bytes}
use bg3le.Pak.Cache.{starts_with, contains}
use bg3le.PakFix.Names.{lowered, iends_with, last_component, extension, is_one_of}

unfoldable pub is_text : List ℕ → Bool
is_text ext =
    is_one_of
      ((b'l' ∷ b's' ∷ b'x' ∷ [])
        ∷ ((b'l' ∷ b's' ∷ b'j' ∷ [])
            ∷ ((b'x' ∷ b'm' ∷ b'l' ∷ [])
                ∷ ((b'x' ∷ b'a' ∷ b'm' ∷ b'l' ∷ [])
                    ∷ ((b't' ∷ b'x' ∷ b't' ∷ [])
                        ∷ ((b'k' ∷ b'h' ∷ b'n' ∷ [])
                            ∷ ((b'l' ∷ b'u' ∷ b'a' ∷ [])
                                ∷ ((b'j' ∷ b's' ∷ b'o' ∷ b'n' ∷ [])
                                    ∷ ((b'i' ∷ b'n' ∷ b'i' ∷ [])
                                        ∷ ((b'c' ∷ b'f' ∷ b'g' ∷ [])
                                            ∷ ((b'y' ∷ b'a' ∷ b'm' ∷ b'l' ∷ [])
                                                ∷ ((b'y' ∷ b'm' ∷ b'l' ∷ []) ∷ []))))))))))))
      ext

-- Files that the engine or the extender finds by name rather than by reference.
unfoldable pub fixed_name : List ℕ → Bool
unfolding lowered
fixed_name leaf =
    is_one_of
      ((b'm' ∷ b'e' ∷ b't' ∷ b'a' ∷ b'.' ∷ b'l' ∷ b's' ∷ b'x' ∷ [])
        ∷ ((b'm' ∷ b'e' ∷ b't' ∷ b'a' ∷ b'd' ∷ b'a' ∷ b't' ∷ b'a' ∷ b'.' ∷ b'l' ∷ b's' ∷ b'x' ∷ [])
            ∷ ((b'm' ∷ b'e' ∷ b't' ∷ b'a' ∷ b'd' ∷ b'a' ∷ b't' ∷ b'a' ∷ b'.' ∷ b'l' ∷ b's' ∷ b'f'
                  ∷ [])
                ∷ ((b'c' ∷ b'o' ∷ b'n' ∷ b'f' ∷ b'i' ∷ b'g' ∷ b'.' ∷ b'j' ∷ b's' ∷ b'o' ∷ b'n' ∷ [])
                    ∷ ((b'b' ∷ b'o' ∷ b'o' ∷ b't' ∷ b's' ∷ b't' ∷ b'r' ∷ b'a' ∷ b'p' ∷ b's' ∷ b'e'
                          ∷ b'r' ∷ b'v' ∷ b'e' ∷ b'r' ∷ b'.' ∷ b'l' ∷ b'u' ∷ b'a' ∷ [])
                        ∷ ((b'b' ∷ b'o' ∷ b'o' ∷ b't' ∷ b's' ∷ b't' ∷ b'r' ∷ b'a' ∷ b'p' ∷ b'c'
                              ∷ b'l' ∷ b'i' ∷ b'e' ∷ b'n' ∷ b't' ∷ b'.' ∷ b'l' ∷ b'u' ∷ b'a' ∷ [])
                            ∷ ((b's' ∷ b't' ∷ b'o' ∷ b'r' ∷ b'y' ∷ b'_' ∷ b'h' ∷ b'e' ∷ b'a' ∷ b'd'
                                  ∷ b'e' ∷ b'r' ∷ b'.' ∷ b'd' ∷ b'i' ∷ b'v' ∷ [])
                                ∷ [])))))))
      (lowered leaf)

unfoldable pub gui_metadata : List ℕ → Bool
unfolding iends_with
gui_metadata name =
    iends_with name (
      b'/' ∷ b'G' ∷ b'U' ∷ b'I' ∷ b'/' ∷ b'm' ∷ b'e' ∷ b't' ∷ b'a' ∷ b'd' ∷ b'a' ∷ b't' ∷ b'a'
      ∷ b'.' ∷ b'l' ∷ b's' ∷ b'x' ∷ [])
    || iends_with name (
        b'/' ∷ b'G' ∷ b'U' ∷ b'I' ∷ b'/' ∷ b'm' ∷ b'e' ∷ b't' ∷ b'a' ∷ b'd' ∷ b'a' ∷ b't' ∷ b'a'
        ∷ b'.' ∷ b'l' ∷ b's' ∷ b'f' ∷ [])

-- What stands behind the first `needle` in `s`.
unfoldable pub after_first : List ℕ → List ℕ → Option (List ℕ)
after_first needle [] = if starts_with needle [] then some [] else none
after_first needle (c ∷ s) =
    let rest = after_first needle s in
    if starts_with needle (c ∷ s) then some (drop (length needle) (c ∷ s)) else rest

-- The characters up to the last slash, that one too: `substr(0, rfind('/') + 1)`.
unfoldable pub to_last_slash : List ℕ → List ℕ
unfolding last_component
to_last_slash name = take (length name - length (last_component name)) name

abbrev pub ends_with : List ℕ → List ℕ → Bool
ends_with s suffix =
    leb (length suffix) (length s) && same_bytes (drop (length s - length suffix) s) suffix

abbrev pub ends_with_one_of : List (List ℕ) → List ℕ → Bool
ends_with_one_of [] s = false
ends_with_one_of (suffix ∷ suffixes) s = ends_with s suffix || ends_with_one_of suffixes s

-- Directories of which the engine names the textures after an icon.
unfoldable pub icon_directory : List ℕ → Bool
unfolding to_last_slash
icon_directory lower_name =
    contains (b'/' ∷ b'g' ∷ b'u' ∷ b'i' ∷ b'/' ∷ b'a' ∷ b's' ∷ b's' ∷ b'e' ∷ b't' ∷ b's' ∷ [])
      lower_name
    && ends_with_one_of
        ((b'/' ∷ b't' ∷ b'o' ∷ b'o' ∷ b'l' ∷ b't' ∷ b'i' ∷ b'p' ∷ b's' ∷ b'/' ∷ b'i' ∷ b'c' ∷ b'o'
            ∷ b'n' ∷ b's' ∷ b'/' ∷ [])
          ∷ ((b'/' ∷ b't' ∷ b'o' ∷ b'o' ∷ b'l' ∷ b't' ∷ b'i' ∷ b'p' ∷ b's' ∷ b'/' ∷ b'i' ∷ b't'
                ∷ b'e' ∷ b'm' ∷ b'i' ∷ b'c' ∷ b'o' ∷ b'n' ∷ b's' ∷ b'/' ∷ [])
              ∷ ((b'/' ∷ b'c' ∷ b'o' ∷ b'n' ∷ b't' ∷ b'r' ∷ b'o' ∷ b'l' ∷ b'l' ∷ b'e' ∷ b'r' ∷ b'u'
                    ∷ b'i' ∷ b'i' ∷ b'c' ∷ b'o' ∷ b'n' ∷ b's' ∷ b'/' ∷ b's' ∷ b'k' ∷ b'i' ∷ b'l'
                    ∷ b'l' ∷ b's' ∷ b'_' ∷ b'p' ∷ b'n' ∷ b'g' ∷ b'/' ∷ [])
                  ∷ ((b'/' ∷ b'c' ∷ b'o' ∷ b'n' ∷ b't' ∷ b'r' ∷ b'o' ∷ b'l' ∷ b'l' ∷ b'e' ∷ b'r'
                        ∷ b'u' ∷ b'i' ∷ b'i' ∷ b'c' ∷ b'o' ∷ b'n' ∷ b's' ∷ b'/' ∷ b'i' ∷ b't' ∷ b'e'
                        ∷ b'm' ∷ b's' ∷ b'_' ∷ b'p' ∷ b'n' ∷ b'g' ∷ b'/' ∷ [])
                      ∷ []))))
        (to_last_slash lower_name)

abbrev pub lua_root : List ℕ
lua_root =
    b'/' ∷ b's' ∷ b'c' ∷ b'r' ∷ b'i' ∷ b'p' ∷ b't' ∷ b'e' ∷ b'x' ∷ b't' ∷ b'e' ∷ b'n' ∷ b'd' ∷ b'e'
    ∷ b'r' ∷ b'/' ∷ b'l' ∷ b'u' ∷ b'a' ∷ b'/' ∷ []

-- How many characters `lower` has up to and with the first root of Lua files.
unfoldable pub root_size : List ℕ → Option ℕ
unfolding after_first
root_size lower = do rest ← after_first lua_root lower; some (length lower - length rest)

-- A reference to the last `len` bytes of `name` counts outside Lua, and in Lua if it covers the path
-- below the same root.
unfoldable pub required_from : List ℕ → List ℕ → ℕ → Bool
unfolding extension lowered root_size
required_from from name len =
    if not (same_bytes (extension from) (b'l' ∷ b'u' ∷ b'a' ∷ []))
    then true
    else elim (root_size (lowered from)) [
      | none ↦ false
      | some root ↦
          (length name == root + len)
          && same_bytes (take root (lowered name)) (take root (lowered from))
    ]

-- The characters before the first double quote, if there is one.
unfoldable pub up_to_quote : List ℕ → Option (List ℕ)
up_to_quote [] = none
up_to_quote (c ∷ s) =
    let rest = up_to_quote s in if c == 34 then some [] else (do r ← rest; some (c ∷ r))

abbrev pub quoted_after : List ℕ → List ℕ → Option (List ℕ)
quoted_after lead line = do rest ← after_first lead line; up_to_quote rest

-- `data "Icon" "..."` in stats, `id="Icon" ... value="..."` in lsx; the empty name without either.
unfoldable pub context : List ℕ → List ℕ
unfolding after_first up_to_quote
context line = elim (quoted_after (b'd' ∷ b'a' ∷ b't' ∷ b'a' ∷ 32 ∷ 34 ∷ []) line) [
  | some name ↦ name
  | none ↦ elim (quoted_after (b'i' ∷ b'd' ∷ b'=' ∷ 34 ∷ []) line) [ some name ↦ name | none ↦ [] ]
]
