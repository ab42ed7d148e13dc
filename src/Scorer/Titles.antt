-- ===== src/Scorer/Titles.antt =====
-- internal/scorer/scorer.go: the titles of assignments as they are shown.
use Prim.Native.Char.{Char, code}
use Prim.Native.String.{[], ◌∷◌}
use notmanytuples.Prelude.{
  String, Bool, true, false, not, ◌&&◌, ◌||◌, Option, none, some, if◌then◌else◌, leb, eqb,
}

abbrev is_digit : Char → Bool
is_digit c = leb b'0' (code c) && leb (code c) b'9'

-- `.` does not match the end of a line.
abbrev has_newline : String → Bool
has_newline [] = false
has_newline (c ∷ s) = let rest = has_newline s in if eqb (code c) 10 then true else rest

-- The part that `^\d+-(.*)$` takes behind the number, once a digit is there or not yet.
match_number : Bool → String → Option String
match_number started [] = none
match_number started (c ∷ s) =
    let rest = match_number true s in
    if is_digit c
    then rest
    else if started && eqb (code c) b'-' && not (has_newline s)
    then some s
    else none

abbrev is_separator : Char → Bool
is_separator c = eqb (code c) b'-' || eqb (code c) b'_' || eqb (code c) b'/'

space_out : String → String
space_out [] = []
space_out (c ∷ s) = let rest = space_out s in if is_separator c then " " ∷ rest else c ∷ rest

-- `title` is `strings.Title`.
unfoldable pub capitalize_words : (String → String) → String → String
unfolding space_out
capitalize_words title s = title (space_out s)

unfoldable pub prettify_title : (String → String) → String → String
unfolding match_number capitalize_words
prettify_title title s = elim (match_number false s) [
  | none ↦ capitalize_words title s
  | some rest ↦ capitalize_words title rest
]
