-- ===== src/PakFix/Tokens.antt =====
-- src/pak_fix.cpp: that `Fixer::token` ends in a sound state.
use bg3le.Common.{
  ℕ, ◌+◌, ◌-◌, ◌<◌, ◌≤◌, ◌≡◌, refl, ap, ◌&&◌, ◌||◌, not, Option, none, some, List, [], ◌∷◌, length,
  All-get_or, get_or, take, drop, ltb, Bool-cases, inl, inr, ◌⊎◌, arith,
}
use bg3le.GameFiles.Map.{find}
use bg3le.PakFix.Names.{lowered, iequals, iends_with}
use bg3le.PakFix.Paths.{gui_metadata}
use bg3le.PakFix.Groups.{Occurrence, add, unite}
use bg3le.PakFix.State.{Part, Fixer, with_groups}
use bg3le.PakFix.Scan.{
  bytes, content_at, unique, link_parts, link, has_control, has_char, size_of, directory_of,
  unite_stems, icon_token, token_by_use, tail_entry, token_or_tail, token_or_entry, token_in, token,
}
use bg3le.PakFix.Steps.{
  count, PartBelow, PartsBelow, StemBelow, IsSound, Ends, Ends-some, add-Ends, unite-Ends,
  All-weaken,
}
use bg3le.PakFix.Pinned.{Ends-then}

Below-more : (n m : ℕ) (parts : List Part) → n ≤ m → PartsBelow n parts → PartsBelow m parts
Below-more n m parts more h =
    All-weaken (PartBelow n) (PartBelow m) (λ p l. omega (arith, l, more)) parts h

link_parts-Ends :
    (c pos begin end' : ℕ) (parts : List Part) (f : Fixer)
    → IsSound f
    → PartsBelow (count f) parts
    → Ends (count f) (link_parts c pos begin end' parts f)
unfolding link_parts
link_parts-Ends c pos begin end' [] f h low = Ends-some (count f) f h (omega arith)
link_parts-Ends c pos begin end' (p ∷ parts) f h low =
    elim (Bool-cases (ltb p.begin begin || ltb end' p.end')) [
      | inl q ↦ rw q (link_parts-Ends c pos begin end' parts f h low.1)
      | inr q ↦
          let o : Occurrence = record {
            content = some c;
            index = 0;
            pos = pos + (p.begin - begin);
            len = p.end' - p.begin;
          } in
          rw q (
            Ends-then (count f) (with_groups f (add f.groups p.group o))
              (link_parts c pos begin end' parts) (add-Ends f p.group o h low.0)
              (λ f' h' more.
                link_parts-Ends c pos begin end' parts f' h'
                  (Below-more (count f) (count f') parts more low.1)))
    ]

link-Ends :
    (c pos i begin end' : ℕ) (f : Fixer) → IsSound f → Ends (count f) (link c pos i begin end' f)
unfolding link
link-Ends c pos i begin end' f h =
    link_parts-Ends c pos begin end' (get_or f.parts i []) f h
      (All-get_or (PartsBelow (count f)) f.parts i [] h.parts tt)

-- A stem is a group once there is one.
stem-below : (f : Fixer) (i : ℕ) → IsSound f → 0 < count f → get_or f.stems i 0 < count f
stem-below f i h some_group =
    elim (All-get_or (StemBelow (count f)) f.stems i 0 h.stems (inl refl)) [
      | inl e ↦ omega (arith, e, some_group)
      | inr low ↦ low
    ]

unite_stems-Ends :
    (first : ℕ) (es : List ℕ) (f : Fixer)
    → IsSound f
    → 0 < count f
    → Ends (count f) (unite_stems first es f)
unfolding unite_stems
unite_stems-Ends first [] f h some_group = Ends-some (count f) f h (omega arith)
unite_stems-Ends first (e ∷ es) f h some_group =
    Ends-then (count f)
      (with_groups f (unite f.groups (get_or f.stems first 0) (get_or f.stems e 0)))
      (unite_stems first es)
      (unite-Ends f (get_or f.stems first 0) (get_or f.stems e 0) h
        (stem-below f first h some_group) (stem-below f e h some_group))
      (λ f' h' more. unite_stems-Ends first es f' h' (omega (arith, some_group, more)))

icon_token-Ends :
    (c pos len : ℕ) (found : Option (List ℕ)) (f : Fixer)
    → IsSound f
    → (found ≡ none) ⊎ (0 < count f)
    → Ends (count f) (icon_token c pos len found f)
unfolding icon_token
icon_token-Ends c pos len none f h k = Ends-some (count f) f h (omega arith)
icon_token-Ends c pos len (some []) f h k = Ends-some (count f) f h (omega arith)
icon_token-Ends c pos len (some (i ∷ is)) f h (inl e) = absurd (cc)
icon_token-Ends c pos len (some (i ∷ is)) f h (inr some_group) =
    let o : Occurrence = record { content = some c; index = 0; pos = pos; len = len } in
    Ends-then (count f) (unite_stems i (i ∷ is) f)
      (λ f'. with_groups f' (add f'.groups (get_or f'.stems i 0) o))
      (unite_stems-Ends i (i ∷ is) f h some_group)
      (λ f' h' more.
        add-Ends f' (get_or f'.stems i 0) o h'
          (stem-below f' i h' (omega (arith, some_group, more))))

icons_known : (key : List ℕ) (f : Fixer) → IsSound f → (find key f.icons ≡ none) ⊎ (0 < count f)
icons_known key f h = elim h.icons [
  | inl some_group ↦ inr some_group
  | inr empty ↦ inl (ap (λ (m : List (List ℕ × List ℕ)). find key m) empty)
]

linked_or :
    (found : Option ℕ) (c pos begin end' : ℕ) (f : Fixer)
    → IsSound f
    → Ends
        (count f)
        (elim found [ none ↦ some f | some i ↦ link c pos i begin (size_of f i - end') f ])
linked_or none c pos begin end' f h = Ends-some (count f) f h (omega arith)
linked_or (some i) c pos begin end' f h = link-Ends c pos i begin (size_of f i - end') f h

token_by_use-Ends :
    (c pos len : ℕ) (key file attribute : List ℕ) (f : Fixer)
    → IsSound f
    → Ends (count f) (token_by_use c pos len key file attribute f)
unfolding token_by_use
token_by_use-Ends c pos len key file attribute f h =
    elim (Bool-cases (iends_with key (b'.' ∷ b'p' ∷ b'n' ∷ b'g' ∷ []) && gui_metadata file)) [
      | inl p ↦ rw p (linked_or _ c pos (length (lowered (directory_of file)) + 1) 4 f h)
      | inr p ↦
          elim (Bool-cases (
            not (has_char b'/' key)
            && (not (has_char b'.' key)
                && (iequals attribute (b'I' ∷ b'c' ∷ b'o' ∷ b'n' ∷ [])
                    || iequals attribute (b'M' ∷ b'a' ∷ b'p' ∷ b'K' ∷ b'e' ∷ b'y' ∷ []))))) [
                      | inl q ↦
                          rw (p, q)
                            (icon_token-Ends c pos len (find key f.icons) f h (icons_known key f h))
                      | inr q ↦ rw (p, q) (Ends-some (count f) f h (omega arith))
                    ]
    ]

token_or_tail-Ends :
    (c pos len : ℕ) (key file attribute : List ℕ) (tail : Option ℕ) (f : Fixer)
    → IsSound f
    → Ends (count f) (token_or_tail c pos len key file attribute tail f)
unfolding token_or_tail
token_or_tail-Ends c pos len key file attribute (some i) f h =
    link-Ends c pos i (size_of f i - len) (size_of f i) f h
token_or_tail-Ends c pos len key file attribute none f h =
    token_by_use-Ends c pos len key file attribute f h

token_or_entry-Ends :
    (c pos len : ℕ) (key file attribute : List ℕ) (entry : Option ℕ) (f : Fixer)
    → IsSound f
    → Ends (count f) (token_or_entry c pos len key file attribute entry f)
unfolding token_or_entry
token_or_entry-Ends c pos len key file attribute (some i) f h =
    link-Ends c pos i 0 (size_of f i) f h
token_or_entry-Ends c pos len key file attribute none f h =
    token_or_tail-Ends c pos len key file attribute (tail_entry key file len f) f h

pub token-Ends :
    (c pos len : ℕ) (attribute : List ℕ) (files : List (List ℕ)) (f : Fixer)
    → IsSound f
    → Ends (count f) (token c pos len attribute files f)
unfolding token token_in
token-Ends c pos len attribute files f h =
    let raw = take len (drop pos (bytes (content_at f c))) in
    elim (Bool-cases (ltb len 3 || (ltb 255 len || has_control raw))) [
      | inl p ↦ rw p (Ends-some (count f) f h (omega arith))
      | inr p ↦ rw p (
          token_or_entry-Ends c pos len (lowered raw) (get_or files (content_at f c).file [])
            attribute (unique f.full (lowered raw)) f h)
    ]
