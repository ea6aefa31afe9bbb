-- ===== src/Pak/Kept.antt =====
-- src/pak.cpp: the cache of file lists never shows.
use bg3le.Common.{
  ℕ, ◌≡◌, refl, sym, ap, ◌∙◌, true, false, Option, none, some, List, [], ◌∷◌, length, leb, ◌==◌,
  ==_iff, if◌then◌else◌, Bool-cases, Option-cases, inl, inr,
}
use mathlib.Core.List.{map}
use bg3le.Pak.Format.{Codecs}
use bg3le.Pak.Read.{same_bytes}
use bg3le.Pak.Cache.{
  Entry, Lists, cacheable_entries, find_list, keep_list, list_on_disk, kept_if_read, cached_or_read,
  read_list, read_lists, Agrees,
}

pub same_bytes_self : (a : List ℕ) → same_bytes a a ≡ true
same_bytes_self [] = refl
same_bytes_self (x ∷ a) = rw ((==_iff x x).1 refl) (same_bytes_self a)

pub same_bytes-true : (a b : List ℕ) → same_bytes a b ≡ true → a ≡ b
same_bytes-true [] [] h = refl
same_bytes-true [] (y ∷ b) h = cc
same_bytes-true (x ∷ a) [] h = cc
same_bytes-true (x ∷ a) (y ∷ b) h = elim (Bool-cases (x == y)) [
  | inl p ↦
      let heads : x ≡ y = (==_iff x y).0 p in
      let tails : same_bytes a b ≡ true = rw p at h in λ i. heads i ∷ same_bytes-true a b tails i
  | inr p ↦ let no : false ≡ true = rw p at h in cc
]

module _ (codecs : Codecs) (disk : List ℕ → Option (List ℕ)) where
  keep_list-Agrees :
      (path : List ℕ) (entries : List Entry) (lists : Lists)
      → list_on_disk codecs disk path ≡ some entries
      → Agrees codecs disk lists
      → Agrees codecs disk (keep_list path entries lists)
  unfolding keep_list Agrees
  keep_list-Agrees path entries lists here h other found e =
      elim (Bool-cases (leb (length entries) cacheable_entries)) [
        | inr big ↦ h other found (rw big at e)
        | inl small ↦
            let e' : (if same_bytes path other then some entries else find_list other lists)
                ≡ some found =
              rw small at e in
            elim (Bool-cases (same_bytes path other)) [
              | inl same ↦
                  ap (list_on_disk codecs disk) (sym (same_bytes-true path other same))
                  ∙ (here ∙ (rw same at e'))
              | inr differ ↦ h other found (rw differ at e')
            ]
      ]

  listed :
      (path : List ℕ) (lists : Lists) (entries : List Entry)
      → Agrees codecs disk lists
      → find_list path lists ≡ some entries
      → list_on_disk codecs disk path ≡ some entries
  unfolding Agrees
  listed path lists entries h found = h path entries found

  kept :
      (path : List ℕ) (lists : Lists) (o : Option (List Entry))
      → list_on_disk codecs disk path ≡ o
      → Agrees codecs disk lists
      → ((kept_if_read codecs disk path o lists).0 ≡ o)
        × Agrees codecs disk (kept_if_read codecs disk path o lists).1
  unfolding kept_if_read
  kept path lists none e h = (refl, h)
  kept path lists (some entries) e h = (refl, keep_list-Agrees path entries lists e h)

  -- `read_list` returns the list on disk, and keeps only such lists.
  pub read_list_lem :
      (path : List ℕ) (lists : Lists)
      → Agrees codecs disk lists
      → ((read_list codecs disk path lists).0 ≡ list_on_disk codecs disk path)
        × Agrees codecs disk (read_list codecs disk path lists).1
  unfolding read_list cached_or_read
  read_list_lem path lists h = elim (Option-cases (find_list path lists)) [
    | inr (entries, found) ↦ rw found (sym (listed path lists entries h found), h)
    | inl missing ↦ rw missing (kept path lists (list_on_disk codecs disk path) refl h)
  ]

  -- A cache in which every list is the one on disk stays so, and any calls of `read_list` one after
  -- the other then return what reading each archive from disk returns, whether or not it could be
  -- read, and whatever was kept before.
  pub read_lists_lem :
      (paths : List (List ℕ)) (lists : Lists)
      → Agrees codecs disk lists
      → ((read_lists codecs disk paths lists).0 ≡ map (list_on_disk codecs disk) paths)
        × Agrees codecs disk (read_lists codecs disk paths lists).1
  unfolding read_lists
  read_lists_lem [] lists h = (refl, h)
  read_lists_lem (path ∷ paths) lists h =
      let (here, next) = read_list_lem path lists h in
      let (rest, last) = read_lists_lem paths (read_list codecs disk path lists).1 next in
      ((λ i. here i ∷ rest i), last)
