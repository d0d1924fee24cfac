-- ===== src/Common/Parts.antt =====
-- The parts of a text: `split`, `find` and `split_at` of Rust's `str`, over characters, since every
-- separator is one ASCII character.
use Prim.Native.Char.{Char, code}
use Prim.Native.String.{String, [], ◌∷◌}
use Prim.Native.Nat.{ℕ}
use mathlib.Core.List.{List, [], ◌∷◌}
use mathlib.Core.Option.{Option, none, some}
use overload.Common.Tests.{◌==◌, if◌then◌else◌}

-- A character in front of the first part.
abbrev pub prepend : Char → List String → List String
prepend c [] = String.◌∷◌ c String.[] ∷ []
prepend c (part ∷ parts) = String.◌∷◌ c part ∷ parts

-- `text.split(separator)`, the separator given by its code.
unfoldable pub split : String → ℕ → List String
split [] separator = "" ∷ []
split (c ∷ text) separator =
    let parts = split text separator in if code c == separator then "" ∷ parts else prepend c parts

-- What stands in front of the first separator and behind it; `none` if there is none.
unfoldable pub split_first : String → ℕ → Option (String × String)
split_first [] separator = none
split_first (c ∷ text) separator =
    let rest = split_first text separator in
    if code c == separator
    then some ("", text)
    else elim rest [ none ↦ none | some (before, after) ↦ some (String.◌∷◌ c before, after) ]
