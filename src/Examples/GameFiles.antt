-- ===== src/Examples/GameFiles.antt =====
-- src/game_files.cpp at concrete inputs.
use bg3le.Common.{ℕ, ◌≡◌, refl, true, false, ◌&&◌, none, some, List, [], ◌∷◌, if◌then◌else◌}
use mathlib.Core.List.{map}
use bg3le.Pak.Read.{same_bytes}
use bg3le.Pak.Cache.{Agrees, starts_with}
use bg3le.PakFix.Paths.{ends_with}
use bg3le.GameFiles.Host.{Host, archives}
use bg3le.GameFiles.Map.{find}
use bg3le.GameFiles.Index.{build, at_start, game_files_under}
use bg3le.GameFiles.Lookup.{has}
use bg3le.GameFiles.Refinement.{
  Query, read, exists, under, Represents, is_some, owner, answers, answer_of,
}
use bg3le.GameFiles.Answers.{answers_lem}
use bg3le.GameFiles.Sorting.{Highest, find-build-Highest}
use bg3le.GameFiles.Prefix.{game_files_under_lem}
use bg3le.Examples.Pak.{storing, two_files_archive, none-ne-entries}

-- `/g/Data`
abbrev root : List ℕ
root = b'/' ∷ b'g' ∷ b'/' ∷ b'D' ∷ b'a' ∷ b't' ∷ b'a' ∷ []

-- `m.pak`
abbrev archive : List ℕ
archive = b'm' ∷ b'.' ∷ b'p' ∷ b'a' ∷ b'k' ∷ []

-- `/g/Data/m.pak`
abbrev archive_path : List ℕ
archive_path =
    b'/' ∷ b'g' ∷ b'/' ∷ b'D' ∷ b'a' ∷ b't' ∷ b'a' ∷ b'/' ∷ b'm' ∷ b'.' ∷ b'p' ∷ b'a' ∷ b'k' ∷ []

-- An install with one archive, of the files `a` and `b`.
abbrev install : Host
install = record {
  exe = some (b'/' ∷ b'g' ∷ b'/' ∷ b'b' ∷ b'i' ∷ b'n' ∷ b'/' ∷ b'x' ∷ []);
  directory = λ dir. if same_bytes dir root then some (archive ∷ ((b'm' ∷ []) ∷ [])) else none;
  file = λ path. if ends_with path archive then some two_files_archive else none;
}

at_start-Represents : Represents storing install at_start
unfolding Agrees
at_start-Represents = record {
  agrees = λ path entries e. absurd (none-ne-entries entries e);
  empty = λ e. refl;
  complete = λ (e : false ≡ true). (cc);
}

abbrev three_queries : List Query
three_queries = read (b'a' ∷ []) ∷ (exists (b'c' ∷ []) ∷ (under [] ∷ []))

answers_example :
    answers storing install three_queries at_start ≡ map (answer_of storing install) three_queries
answers_example = answers_lem storing install three_queries at_start at_start-Represents

find-build-Highest_example :
    Highest install storing
      (b'a' ∷ [])
      (archives install)
      (find (b'a' ∷ []) (build storing install at_start).files)
find-build-Highest_example =
    find-build-Highest install storing (b'a' ∷ []) at_start at_start-Represents

game_files_under_example :
    has (game_files_under storing install (b'a' ∷ []) at_start).0 (b'a' ∷ b'b' ∷ []) ≡ (
      starts_with (b'a' ∷ []) (b'a' ∷ b'b' ∷ [])
      && is_some (owner storing install (archives install) (b'a' ∷ b'b' ∷ [])))
game_files_under_example =
    game_files_under_lem storing install (b'a' ∷ []) (b'a' ∷ b'b' ∷ []) at_start at_start-Represents
