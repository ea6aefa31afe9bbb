-- ===== src/Pak/Relisting/Parts.antt =====
-- src/pak.cpp: the bytes of an archive whose list was written again, in parts.
use bg3le.Common.{
  ◌≤◌, ◌-◌, length-take, length-drop, take-drop, ℕ, ◌≡◌, refl, sym, ap, ◌∙◌, List, ◌++◌, length,
  take, drop, arith, append_assoc, take-append, drop-append, length-append,
}
use bg3le.Pak.Format.{Codecs}
use bg3le.Pak.Write.{overwrite}
use bg3le.Pak.Entries.{drop_past}

pub append_four : (x y z m b : List ℕ) → x ++ (y ++ (z ++ (m ++ b))) ≡ (x ++ (y ++ (z ++ m))) ++ b
append_four x y z m b = sym (
    append_assoc x (y ++ (z ++ m)) b
    ∙ ap (λ (l : List ℕ). x ++ l)
        (append_assoc y (z ++ m) b ∙ ap (λ (l : List ℕ). y ++ l) (append_assoc z m b)))

-- An archive of a header, bytes up to a place, and bytes from there on. `x` is the magic and the
-- version, `y` the place and the size of the list, `z` the rest of the header.
module _ (x y z m t : List ℕ) (x_size : length x ≡ 8) (y_size : length y ≡ 12) where
  pub overwritten :
      (codecs : Codecs) (at : ℕ) (block new : List ℕ)
      → at ≡ length (x ++ (y ++ (z ++ m)))
      → length new ≡ 12
      → overwrite codecs 8 new (overwrite codecs at block (x ++ (y ++ (z ++ (m ++ t)))))
        ≡ x ++ (new ++ (z ++ (m ++ (block ++ drop (length block) t))))
  overwritten codecs at block new start new_size =
      let tail = block ++ drop (length block) t in
      let joined = append_four x y z m in
      let first : overwrite codecs at block (x ++ (y ++ (z ++ (m ++ t))))
          ≡ x ++ (y ++ (z ++ (m ++ tail))) =
        ap (overwrite codecs at block) (joined t)
        ∙ (rw (take-append (x ++ (y ++ (z ++ m))) t at start) (
            rw (drop_past (x ++ (y ++ (z ++ m))) t at (length block) start) (sym (joined tail)))) in
      let second : overwrite codecs 8 new (x ++ (y ++ (z ++ (m ++ tail))))
          ≡ x ++ (new ++ (z ++ (m ++ tail))) =
        rw (take-append x (y ++ (z ++ (m ++ tail))) 8 (sym x_size)) (
          rw (drop_past x (y ++ (z ++ (m ++ tail))) 8 (length new) (sym x_size)) (
            rw (drop-append y (z ++ (m ++ tail)) (length new) (omega (arith, new_size, y_size)))
              refl)) in
      ap (overwrite codecs 8 new) first ∙ second

-- Between the list's place in the header and the new list, nothing changes.
pub kept_between :
    (x y z m t : List ℕ) (at : ℕ)
    → length x ≡ 8
    → length y ≡ 12
    → at ≡ length (x ++ (y ++ (z ++ m)))
    → drop 20 (take at (x ++ (y ++ (z ++ (m ++ t))))) ≡ z ++ m
kept_between x y z m t at x_size y_size start =
    ap (λ (l : List ℕ). drop 20 (take at l)) (append_four x y z m t)
    ∙ (ap (drop 20) (take-append (x ++ (y ++ (z ++ m))) t at start)
        ∙ (ap (drop 20) (sym (append_assoc x y (z ++ m)))
            ∙ drop-append (x ++ y) (z ++ m) 20 (omega (arith, length-append x y, x_size, y_size))))

-- An archive of at least `at` bytes, in parts.
pub record Split (f : List ℕ) (at : ℕ) : Type 0 where
  pub x : List ℕ
  pub y : List ℕ
  pub z : List ℕ
  pub m : List ℕ
  pub t : List ℕ
  pub whole : x ++ (y ++ (z ++ (m ++ t))) ≡ f
  pub x_size : length x ≡ 8
  pub y_size : length y ≡ 12
  pub z_size : length z ≡ 20
  pub start : at ≡ length (x ++ (y ++ (z ++ m)))

pub split : (f : List ℕ) (at : ℕ) → 40 ≤ at → at ≤ length f → Split f at
split f at past inside =
    let r1 = drop 8 f in
    let r2 = drop 12 r1 in
    let r3 = drop 20 r2 in
    let left1 = length-drop 8 f in
    let left2 = length-drop 12 r1 in
    let left3 = length-drop 20 r2 in
    let a : length (take 8 f) ≡ 8 = omega (arith, length-take 8 f, inside, past) in
    let b : length (take 12 r1) ≡ 12 = omega (arith, length-take 12 r1, left1, inside, past) in
    let c : length (take 20 r2) ≡ 20 =
      omega (arith, length-take 20 r2, left1, left2, inside, past) in
    let d : length (take (at - 40) r3) ≡ at - 40 =
      omega (arith, length-take (at - 40) r3, left1, left2, left3, inside, past) in
    record {
      x = take 8 f;
      y = take 12 r1;
      z = take 20 r2;
      m = take (at - 40) r3;
      t = drop (at - 40) r3;
      whole =
          ap (λ (l : List ℕ). take 8 f ++ (take 12 r1 ++ (take 20 r2 ++ l)))
            (take-drop (at - 40) r3)
          ∙ (ap (λ (l : List ℕ). take 8 f ++ (take 12 r1 ++ l)) (take-drop 20 r2)
              ∙ (ap (λ (l : List ℕ). take 8 f ++ l) (take-drop 12 r1) ∙ take-drop 8 f));
      x_size = a;
      y_size = b;
      z_size = c;
      start = omega (
        arith,
        length-append (take 8 f) (take 12 r1 ++ (take 20 r2 ++ take (at - 40) r3)),
        length-append (take 12 r1) (take 20 r2 ++ take (at - 40) r3),
        length-append (take 20 r2) (take (at - 40) r3),
        a,
        b,
        c,
        d,
        past,
      );
    }
