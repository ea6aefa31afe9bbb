-- ===== src/GameFiles/Answers.antt =====
-- src/game_files.cpp: the answers to any sequence of calls.
use bg3le.Common.{
  ℕ, ◌≡◌, refl, ap, ◌∙◌, Bool, Option, List, [], ◌∷◌, ◌>>=◌, Bool-cases, Option-cases, inl, inr,
}
use mathlib.Core.List.{map}
use bg3le.Pak.Format.{Codecs}
use bg3le.GameFiles.Map.{find, lower_bound}
use bg3le.GameFiles.Host.{Host}
use bg3le.GameFiles.Index.{
  State, safe, read_loose, starting, build, indexed_read, game_file_read, indexed_exists,
  game_file_exists, game_files_under,
}
use bg3le.GameFiles.Refinement.{
  Query, read, exists, under, contents, found, names, contents_in, resolved, is_some, named, answer,
  answers, answer_of, Represents, find-build, read_from_lem, build_lem,
}

module _ (codecs : Codecs) (host : Host) where
  read_lem :
      (path : List ℕ) (s : State)
      → Represents codecs host s
      → ((game_file_read codecs host path s).0 ≡ resolved codecs host path)
        × Represents codecs host (game_file_read codecs host path s).1
  unfolding game_file_read indexed_read
  read_lem path s h = elim (Bool-cases (safe path)) [
    | inr p ↦ rw p (refl, h)
    | inl p ↦ elim (Option-cases (read_loose host path)) [
      | inr (loose, e) ↦ rw (p, e) (refl, h)
      | inl e ↦
          let (same, kept) =
            read_from_lem codecs host path (find path (build codecs host s).files)
              (build codecs host s) (build_lem codecs host s h).0 in
          let owned =
            ap (λ (o : Option (List ℕ)). o >>= contents_in codecs host path)
              (find-build codecs host path s h) in
          rw (p, e) (same ∙ owned, kept)
    ]
  ]

  exists_lem :
      (path : List ℕ) (s : State)
      → Represents codecs host s
      → ((game_file_exists codecs host path s).0 ≡ named codecs host path)
        × Represents codecs host (game_file_exists codecs host path s).1
  unfolding game_file_exists indexed_exists
  exists_lem path s h = elim (Bool-cases (safe path)) [
    | inr p ↦ rw p (refl, h)
    | inl p ↦ elim (Option-cases (read_loose host path)) [
      | inr (loose, e) ↦ rw (p, e) (refl, h)
      | inl e ↦
          rw (p, e)
            (
              ap (λ (o : Option (List ℕ)). is_some o) (find-build codecs host path s h),
              (build_lem codecs host s h).0,
            )
    ]
  ]

  answer_lem :
      (q : Query) (s : State)
      → Represents codecs host s
      → ((answer codecs host q s).0 ≡ answer_of codecs host q)
        × Represents codecs host (answer codecs host q s).1
  unfolding game_files_under
  answer_lem (read path) s h =
      let (same, kept) = read_lem path s h in (ap (λ (o : Option (List ℕ)). contents o) same, kept)
  answer_lem (exists path) s h =
      let (same, kept) = exists_lem path s h in (ap (λ (b : Bool). found b) same, kept)
  answer_lem (under prefix) s h =
      let (kept, same) = build_lem codecs host s h in
      (
        ap (λ (m : List (List ℕ × List ℕ)). names (starting prefix (lower_bound prefix m))) same,
        kept,
      )

  -- From a state whose kept lists are those on disk and whose index is empty or complete, the answers
  -- to any calls of `game_file_read`, `game_file_exists` and `game_files_under`, one after the other,
  -- are those of a description without index or caches: what a path names, whether it names
  -- something, and the names in the complete index with the prefix.
  pub answers_lem :
      (queries : List Query) (s : State)
      → Represents codecs host s
      → answers codecs host queries s ≡ map (answer_of codecs host) queries
  unfolding answers
  answers_lem [] s h = refl
  answers_lem (q ∷ queries) s h =
      let (same, kept) = answer_lem q s h in
      let rest = answers_lem queries (answer codecs host q s).1 kept in (λ i. same i ∷ rest i)
