-- ===== src/Auth/Segments.antt =====
-- Prefixes and pieces of a text, as the standard library cuts them.
use Prim.Native.Char.{Char, code}
use Prim.Native.String.{String, [], ◌∷◌}
use mathlib.Core.List.{List}
use wa_rs.Common.{Bool, true, false, ℕ, Option, none, some, nat_eq, if◌then◌else◌}

-- `str::strip_prefix`.
unfoldable pub strip_prefix : String → String → Option String
strip_prefix [] s = some s
strip_prefix (c ∷ p) [] = none
strip_prefix (c ∷ p) (d ∷ s) =
    let rest = strip_prefix p s in if nat_eq (code c) (code d) then rest else none

abbrev is_some : Option String → Bool
is_some none = false
is_some (some s) = true

-- `str::starts_with`.
unfoldable pub starts_with : String → String → Bool
starts_with s prefix = is_some (strip_prefix prefix s)

-- `split('/').next()`: the text before the first slash.
unfoldable pub first_segment : String → String
first_segment [] = []
first_segment (c ∷ s) = let rest = first_segment s in if nat_eq (code c) 47 then [] else c ∷ rest

abbrev push_front : Char → List String → List String
push_front c List.[] = List.◌∷◌ (c ∷ []) List.[]
push_front c (List.◌∷◌ s ss) = List.◌∷◌ (c ∷ s) ss

-- `str::split` at a character, given by its code.
unfoldable pub split_on : ℕ → String → List String
split_on sep [] = List.◌∷◌ [] List.[]
split_on sep (c ∷ s) =
    let rest = split_on sep s in if nat_eq (code c) sep then List.◌∷◌ [] rest else push_front c rest
