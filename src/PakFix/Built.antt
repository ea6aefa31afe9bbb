-- ===== src/PakFix/Built.antt =====
-- src/pak_fix.cpp: that the constructor of `Fixer` ends in a sound state.
use bg3le.Common.{
  ℕ, zero, suc, ◌+◌, ◌<◌, refl, Bool, true, false, ◌&&◌, Option, none, some, List, [], ◌∷◌, length,
  All-set, All-get_or, All-replicate, get_or, set, take, drop, ◌>>=◌, inl, inr, arith,
}
use bg3le.PakFix.Names.{lowered, last_component}
use bg3le.PakFix.Paths.{fixed_name, icon_directory}
use bg3le.PakFix.State.{
  Content, Fixer, group, add_part, from_gui, pin_icon_directories, push_under, positions_of,
  last_of, range,
}
use bg3le.PakFix.Fixer.{
  leaf_end, is_gui_texture, pin_when, icon_if, pin_leaf, add_plain_leaf, add_leaf, add_leaf_at,
  add_entry, add_entries, fixer,
}
use bg3le.PakFix.Steps.{
  count, PartsBelow, StemBelow, IsSound, Ends, Ends-some, group-Grouped, add_part-Ends,
}
use bg3le.PakFix.Pinned.{
  Ends-fewer, Ends-then, push-IsSound, add_directories-Ends, from_gui-Below, pin_when-Ends,
  pin_parts-Ends,
}

stem-IsSound :
    (f : Fixer) (i stem : ℕ)
    → IsSound f
    → stem < count f
    → IsSound (record f { stems = set f.stems i stem })
stem-IsSound f i stem h low = record {
  forest = h.forest;
  same = h.same;
  ids = h.ids;
  parts = h.parts;
  stems = All-set (StemBelow (count f)) f.stems i stem h.stems (inr low);
  icons = h.icons;
}

icons-IsSound :
    (f : Fixer) (icons : List (List ℕ × List ℕ))
    → IsSound f
    → 0 < count f
    → IsSound (record f { icons = icons })
icons-IsSound f icons h some_group = record {
  forest = h.forest;
  same = h.same;
  ids = h.ids;
  parts = h.parts;
  stems = h.stems;
  icons = inl some_group;
}

-- The leaf's stem: its group, its part and its entry among the stems.
stem_part :
    (i begin end' : ℕ) (id : List ℕ) (f : Fixer)
    → IsSound f
    → let g : ℕ × Fixer = group id false f in
      Ends (count g.1) (add_part i begin end' (g.0, record g.1 { stems = set g.1.stems i g.0 }))
stem_part i begin end' id f h =
    let (sound, low, more, parts) = group-Grouped id false f h in
    let (g, f1) = group id false f in
    add_part-Ends i begin end' g (record f1 { stems = set f1.stems i g })
      (stem-IsSound f1 i g sound low) low

add_plain_leaf-Ends :
    (i : ℕ) (name : List ℕ) (begin : ℕ) (f : Fixer)
    → IsSound f
    → Ends (count f) (add_plain_leaf i name begin f)
unfolding add_plain_leaf
add_plain_leaf-Ends i name begin f h =
    let id = b's' ∷ (b':' ∷ lowered name) in
    let (sound, low, more, parts) = group-Grouped id false f h in
    Ends-fewer (count f) (count (group id false f).1) _ more (
      Ends-then (count (group id false f).1) _ _ (stem_part i begin (length name) id f h)
        (λ f2 sound2 more2. pin_when-Ends _ _ _ f2 sound2 (omega (arith, low, more2))))

pin_icon_directories-Ends :
    (i : ℕ) (f : Fixer) → IsSound f → Ends (count f) (pin_icon_directories i f)
unfolding pin_icon_directories
pin_icon_directories-Ends i f h =
    let name = get_or f.names i [] in
    let parts = get_or f.parts i [] in
    pin_parts-Ends name (from_gui name parts) f h (
      from_gui-Below (count f) name parts
        (All-get_or (PartsBelow (count f)) f.parts i [] h.parts tt))

icon_if-Ends :
    (b : Bool) (i : ℕ) (icons : List (List ℕ × List ℕ)) (f : Fixer)
    → IsSound f
    → 0 < count f
    → Ends (count f) (icon_if b i icons f)
icon_if-Ends true i icons f h some_group =
    pin_icon_directories-Ends i (record f { icons = icons }) (icons-IsSound f icons h some_group)
icon_if-Ends false i icons f h some_group = Ends-some (count f) f h (omega arith)

pin_leaf-Ends :
    (i : ℕ) (name : List ℕ) (begin dot stem ext : ℕ) (f : Fixer)
    → IsSound f
    → stem < count f
    → ext < count f
    → Ends (count f) (pin_leaf i name begin dot stem ext f)
unfolding pin_leaf
pin_leaf-Ends i name begin dot stem ext f h low low' =
    let fixed = fixed_name (last_component name) in
    let icon = is_gui_texture name && icon_directory (lowered name) in
    let last : Fixer → Option Fixer =
      λ f3. icon_if icon i (push_under (range (lowered name) begin dot) i f3.icons) f3 in
    let third : Fixer → Option Fixer =
      λ f2. pin_when (is_gui_texture name) ext (b'D' ∷ b'D' ∷ b'S' ∷ []) f2 >>= last in
    let second : Fixer → Option Fixer =
      λ f1. pin_when fixed ext (drop (dot + 1) name) f1 >>= third in
    Ends-then (count f) _ second (pin_when-Ends fixed stem (range name begin dot) f h low)
      (λ f1 h1 m1.
        Ends-then (count f1) _ third
          (pin_when-Ends fixed ext (drop (dot + 1) name) f1 h1 (omega (arith, low', m1)))
          (λ f2 h2 m2.
            Ends-then (count f2) _ last
              (pin_when-Ends (is_gui_texture name) ext (b'D' ∷ b'D' ∷ b'S' ∷ []) f2 h2
                (omega (arith, low', m1, m2)))
              (λ f3 h3 m3. icon_if-Ends icon i _ f3 h3 (omega (arith, low', m1, m2, m3)))))

add_leaf-Ends :
    (i : ℕ) (name : List ℕ) (begin dot : ℕ) (f : Fixer)
    → IsSound f
    → Ends (count f) (add_leaf i name begin dot f)
unfolding add_leaf
add_leaf-Ends i name begin dot f h =
    let id = b's' ∷ (b':' ∷ take dot (lowered name)) in
    let id' = b'x' ∷ (b':' ∷ lowered name) in
    let (sound, low, more, parts) = group-Grouped id false f h in
    let stem = (group id false f).0 in
    Ends-fewer (count f) (count (group id false f).1) _ more (
      Ends-then (count (group id false f).1) _ _ (stem_part i begin dot id f h) (λ f2 h2 m2.
        (let (h3, low3, m3, parts3) = group-Grouped id' false f2 h2 in
          let (ext, f3) = group id' false f2 in
          Ends-fewer (count f2) (count f3) _ m3 (
            Ends-then (count f3) _ (pin_leaf i name begin dot stem ext)
              (add_part-Ends i (dot + 1) (length name) ext f3 h3 low3)
              (λ f4 h4 m4.
                pin_leaf-Ends i name begin dot stem ext f4 h4 (omega (arith, low, m2, m3, m4))
                  (omega (arith, low3, m4)))))))

add_leaf_at-Ends :
    (i : ℕ) (name : List ℕ) (begin : ℕ) (dot : Option ℕ) (f : Fixer)
    → IsSound f
    → Ends (count f) (add_leaf_at i name begin dot f)
unfolding add_leaf_at
add_leaf_at-Ends i name begin none f h = add_plain_leaf-Ends i name begin f h
add_leaf_at-Ends i name begin (some dot) f h = add_leaf-Ends i name begin dot f h

add_entry-Ends : (i : ℕ) (f : Fixer) → IsSound f → Ends (count f) (add_entry i f)
unfolding add_entry
add_entry-Ends i f h =
    let name = get_or f.names i [] in
    let f0 : Fixer = record f { full = push_under (lowered name) i f.full } in
    let (begin, f1, e, sound, more) =
      add_directories-Ends i (lowered name) (positions_of b'/' name 0) 0 f0
        (push-IsSound f f0.full f.suffixes h) in
    rw e (
      Ends-fewer (count f) (count f1) _ more (
        add_leaf_at-Ends i name begin
          (leaf_end (last_of (positions_of b'.' name 0)) begin (length name)) f1 sound))

add_entries-Ends : (n i : ℕ) (f : Fixer) → IsSound f → Ends (count f) (add_entries n i f)
unfolding add_entries
add_entries-Ends zero i f h = Ends-some (count f) f h (omega arith)
add_entries-Ends (suc n) i f h =
    Ends-then (count f) (add_entry i f) (add_entries n (i + 1)) (add_entry-Ends i f h)
      (λ f' sound more. add_entries-Ends n (i + 1) f' sound)

pub fixer-Ends : (names : List (List ℕ)) (contents : List Content) → Ends 0 (fixer names contents)
unfolding fixer
fixer-Ends names contents = add_entries-Ends (length names) 0 _ (record {
  forest = record {
    inside = λ g small. absurd (omega arith);
    rooted = λ g small. absurd (omega arith);
  };
  same = refl;
  ids = tt;
  parts = All-replicate (PartsBelow 0) (length names) [] tt;
  stems = All-replicate (StemBelow 0) (length names) 0 (inl refl);
  icons = inr refl;
})
