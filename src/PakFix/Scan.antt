-- ===== src/PakFix/Scan.antt =====
-- src/pak_fix.cpp: how `Fixer::scan` finds the references in the contents.
use bg3le.Common.{
  ℕ, zero, suc, ◌+◌, ◌-◌, Bool, false, ◌&&◌, ◌||◌, not, Option, none, some, List, [], ◌∷◌, ◌++◌,
  length, get_or, take, drop, ltb, leb, ◌==◌, if◌then◌else◌, ◌>>=◌,
}
use bg3le.Lsf.Document.{LsfDocument, LsfString}
use bg3le.GameFiles.Map.{find}
use bg3le.PakFix.Names.{lowered, iequals, iends_with}
use bg3le.PakFix.Paths.{gui_metadata, required_from, context}
use bg3le.PakFix.Groups.{add, unite}
use bg3le.PakFix.State.{Content, Part, Indices, Fixer, with_groups, positions_of, last_of, range}

-- `Content::bytes`
abbrev pub text_of : List ℕ → Option LsfDocument → List ℕ
text_of text none = text
text_of text (some doc) = doc.values

abbrev pub bytes : Content → List ℕ
bytes c = text_of c.text c.doc

abbrev pub no_content : Content
no_content = record { file = 0; text = []; doc = none; changed = false }

abbrev pub content_at : Fixer → ℕ → Content
content_at f c = get_or f.contents c no_content

-- `unique`, with `none` for `SIZE_MAX`.
abbrev pub only_one : Option (List ℕ) → Option ℕ
only_one none = none
only_one (some []) = none
only_one (some (i ∷ is)) = elim is [ [] ↦ some i | j ∷ js ↦ none ]

abbrev pub unique : Indices → List ℕ → Option ℕ
unique index key = only_one (find key index)

unfoldable pub link_parts : ℕ → ℕ → ℕ → ℕ → List Part → Fixer → Option Fixer
unfolding add
link_parts c pos begin end' [] f = some f
link_parts c pos begin end' (p ∷ parts) f =
    if ltb p.begin begin || ltb end' p.end' then link_parts c pos begin end' parts f else (do
      f' ← with_groups f (
          add f.groups p.group (record {
            content = some c;
            index = 0;
            pos = pos + (p.begin - begin);
            len = p.end' - p.begin;
          }))
      link_parts c pos begin end' parts f')

-- The bytes from `pos` on name the characters `begin` to `end'` of the entry `i`.
unfoldable pub link : ℕ → ℕ → ℕ → ℕ → ℕ → Fixer → Option Fixer
unfolding link_parts
link c pos i begin end' f = link_parts c pos begin end' (get_or f.parts i []) f

abbrev pub has_control : List ℕ → Bool
has_control [] = false
has_control (b ∷ s) = ltb b 0x20 || has_control s

abbrev pub has_char : ℕ → List ℕ → Bool
has_char c [] = false
has_char c (d ∷ s) = (d == c) || has_char c s

-- The name of an archive's file, of those that the listing had.
abbrev pub size_of : Fixer → ℕ → ℕ
size_of f i = length (get_or f.names i [])

-- `file.substr(0, file.rfind('/'))`
abbrev pub directory_of : List ℕ → List ℕ
directory_of file = elim (last_of (positions_of b'/' file 0)) [
  | none ↦ file
  | some slash ↦ take slash file
]

-- One group for the stems of all textures with an icon's name.
unfoldable pub unite_stems : ℕ → List ℕ → Fixer → Option Fixer
unfolding unite
unite_stems first [] f = some f
unite_stems first (e ∷ es) f = do
  f' ← with_groups f (unite f.groups (get_or f.stems first 0) (get_or f.stems e 0))
  unite_stems first es f'

unfoldable pub icon_token : ℕ → ℕ → ℕ → Option (List ℕ) → Fixer → Option Fixer
unfolding unite_stems add
icon_token c pos len none f = some f
icon_token c pos len (some []) f = some f
icon_token c pos len (some (i ∷ is)) f = do
  f' ← unite_stems i (i ∷ is) f
  with_groups f' (
      add f'.groups (get_or f'.stems i 0)
        (record { content = some c; index = 0; pos = pos; len = len }))

-- The part of `token` for keys that name no entry or tail of one.
unfoldable pub token_by_use : ℕ → ℕ → ℕ → List ℕ → List ℕ → List ℕ → Fixer → Option Fixer
unfolding iends_with gui_metadata lowered iequals link icon_token
token_by_use c pos len key file attribute f =
    if iends_with key (b'.' ∷ b'p' ∷ b'n' ∷ b'g' ∷ []) && gui_metadata file
    then (let dir = lowered (directory_of file) in
        elim (unique f.full
          (dir ++ (b'/' ∷ (take (len - 4) key ++ (b'.' ∷ b'd' ∷ b'd' ∷ b's' ∷ []))))) [
            | none ↦ some f
            | some i ↦ link c pos i (length dir + 1) (size_of f i - 4) f
          ])
    else if not (has_char b'/' key)
        && (not (has_char b'.' key)
            && (iequals attribute (b'I' ∷ b'c' ∷ b'o' ∷ b'n' ∷ [])
                || iequals attribute (b'M' ∷ b'a' ∷ b'p' ∷ b'K' ∷ b'e' ∷ b'y' ∷ [])))
    then icon_token c pos len (find key f.icons) f
    else some f

-- Of the entries whose tail is the key, with a directory.
unfoldable pub tail_entry : List ℕ → List ℕ → ℕ → Fixer → Option ℕ
unfolding required_from
tail_entry key file len f =
    if has_char b'/' key
    then (do
      i ← unique f.suffixes key
      if required_from file (get_or f.names i []) len then some i else none)
    else none

unfoldable pub token_or_tail :
    ℕ → ℕ → ℕ → List ℕ → List ℕ → List ℕ → Option ℕ → Fixer → Option Fixer
unfolding link token_by_use
token_or_tail c pos len key file attribute (some i) f =
    link c pos i (size_of f i - len) (size_of f i) f
token_or_tail c pos len key file attribute none f = token_by_use c pos len key file attribute f

unfoldable pub token_or_entry :
    ℕ → ℕ → ℕ → List ℕ → List ℕ → List ℕ → Option ℕ → Fixer → Option Fixer
unfolding link tail_entry token_or_tail
token_or_entry c pos len key file attribute (some i) f = link c pos i 0 (size_of f i) f
token_or_entry c pos len key file attribute none f =
    token_or_tail c pos len key file attribute (tail_entry key file len f) f

unfoldable pub token_in : ℕ → ℕ → ℕ → List ℕ → List ℕ → List ℕ → Fixer → Option Fixer
unfolding token_or_entry
token_in c pos len key file attribute f =
    token_or_entry c pos len key file attribute (unique f.full key) f

unfoldable pub token : ℕ → ℕ → ℕ → List ℕ → List (List ℕ) → Fixer → Option Fixer
unfolding token_in lowered
token c pos len attribute files f =
    let raw = take len (drop pos (bytes (content_at f c))) in
    if ltb len 3 || (ltb 255 len || has_control raw)
    then some f
    else token_in c pos len (lowered raw) (get_or files (content_at f c).file []) attribute f

-- Where a string that begins behind the quote at `at` ends; 256 characters behind it at most.
unfoldable pub string_end : ℕ → List ℕ → ℕ → ℕ → ℕ
string_end zero text q at = at
string_end (suc n) text q at =
    let rest = string_end n text q (at + 1) in
    if ltb at (length text) && (not (get_or text at 0 == q) && not (get_or text at 0 == 10))
    then rest
    else at

-- The loop over a text, with fuel for each character and one more.
unfoldable pub scan_loop : ℕ → ℕ → List ℕ → List (List ℕ) → ℕ → ℕ → Fixer → Option Fixer
unfolding string_end token context
scan_loop zero c text files line at f = none
scan_loop (suc n) c text files line at f =
    let q = get_or text at 0 in
    let end' = string_end 256 text q (at + 1) in
    if leb (length text) at
    then some f
    else if q == 10
    then scan_loop n c text files (at + 1) (at + 1) f
    else if not (q == 34) && not (q == 39)
    then scan_loop n c text files line (at + 1) f
    else if leb (length text) end' || not (get_or text end' 0 == q)
    then scan_loop n c text files line (at + 1) f
    else (do
      f' ← token c (at + 1) (end' - at - 1) (context (range text line at)) files f
      scan_loop n c text files line (end' + 1) f')

unfoldable pub scan_text : ℕ → List (List ℕ) → Fixer → Option Fixer
unfolding scan_loop
scan_text c files f =
    let text = (content_at f c).text in scan_loop (suc (length text)) c text files 0 0 f

unfoldable pub scan_strings : ℕ → List LsfString → List (List ℕ) → Fixer → Option Fixer
unfolding token
scan_strings c [] files f = some f
scan_strings c (s ∷ strings) files f = do
  f' ← token c s.offset s.length s.attribute files f
  scan_strings c strings files f'

unfoldable pub scan_content : ℕ → Option LsfDocument → List (List ℕ) → Fixer → Option Fixer
unfolding scan_strings scan_text
scan_content c (some doc) files f = scan_strings c doc.string_values files f
scan_content c none files f = scan_text c files f

-- The loop over the contents, `n` of them from `c` on.
unfoldable pub scan_from : ℕ → ℕ → List (List ℕ) → Fixer → Option Fixer
unfolding scan_content
scan_from zero c files f = some f
scan_from (suc n) c files f = do
  f' ← scan_content c (content_at f c).doc files f
  scan_from n (c + 1) files f'

-- `files` are the names in the listing.
unfoldable pub scan : List (List ℕ) → Fixer → Option Fixer
unfolding scan_from
scan files f = scan_from (length f.contents) 0 files f
