-- ===== src/Prelude/Paths.antt =====
-- The functions of Go's `strings`, `bytes` and `path` packages on slash-separated paths.
use Prim.Native.Char.{Char, code}
use Prim.Native.Nat.{ℕ, ◌+◌}
use Prim.Native.String.{String, [], ◌∷◌}
use mathlib.Core.Path.{◌≡◌, refl}
use mathlib.Core.Logic.{inl, inr}
use mathlib.Core.Bool.{Bool, true, ◌||◌}
use mathlib.Core.List
use mathlib.Core.List.{List, [], ◌∷◌, reverse}
use text.Mathlib.TextLemmas.{nil-append, cons-append}
use notmanytuples.Prelude.Tests.{eqb, ltb, Bool-cases, if◌then◌else◌, ◌==◌, string_eq}
use notmanytuples.Prelude.Text.{◌<>◌, has_prefix, strip_prefix}

abbrev is_slash : Char → Bool
is_slash c = eqb (code c) b'/'

-- The first part grows by a character.
abbrev grow : Char → List String → List String
grow c [] = (c ∷ []) ∷ []
grow c (part ∷ parts) = (c ∷ part) ∷ parts

-- `strings.Split(s, "/")`.
unfoldable pub split_slash : String → List String
split_slash [] = "" ∷ []
split_slash (c ∷ s) = let rest = split_slash s in if is_slash c then "" ∷ rest else grow c rest

-- `bytes.Contains(body, needle)`.
unfoldable pub contains : String → String → Bool
contains [] needle = has_prefix [] needle
contains (c ∷ s) needle = let rest = contains s needle in has_prefix (c ∷ s) needle || rest

-- `len(s)`, in bytes.
unfoldable pub byte_length : String → ℕ
byte_length [] = 0
byte_length (c ∷ s) =
    let rest = byte_length s in
    if ltb (code c) 0x80
    then 1 + rest
    else if ltb (code c) 0x800
    then 2 + rest
    else if ltb (code c) 0x10000
    then 3 + rest
    else 4 + rest

join_slash : List String → String
join_slash [] = ""
join_slash (part ∷ []) = part
join_slash (part ∷ next ∷ parts) = part <> "/" <> join_slash (next ∷ parts)

-- `strings.Trim(s, "/")`.
drop_empty : List String → List String
drop_empty [] = []
drop_empty (part ∷ parts) = let rest = drop_empty parts in if part == "" then rest else part ∷ parts

unfoldable pub trim_slashes : String → String
unfolding join_slash drop_empty split_slash
trim_slashes s = join_slash (reverse (drop_empty (reverse (drop_empty (split_slash s)))))

-- One directory up.
parent_of : Bool → List String → List String
parent_of rooted [] = if rooted then [] else ".." ∷ []
parent_of rooted (last ∷ others) = if last == ".." then ".." ∷ last ∷ others else others

-- A step of `path.Clean`; the parts so far have the last one at the head.
clean_part : Bool → List String → String → List String
unfolding parent_of
clean_part rooted parts part =
    if part == "" || part == "."
    then parts
    else if part == ".."
    then parent_of rooted parts
    else part ∷ parts

clean_parts : Bool → List String → List String → List String
unfolding clean_part
clean_parts rooted done [] = reverse done
clean_parts rooted done (part ∷ parts) = clean_parts rooted (clean_part rooted done part) parts

-- `path.Clean(s)`.
path_clean : String → String
unfolding clean_parts join_slash split_slash
path_clean s =
    let rooted = has_prefix s "/" in
    let cleaned = join_slash (clean_parts rooted [] (split_slash s)) in
    if rooted then "/" <> cleaned else if cleaned == "" then "." else cleaned

-- `path.Join(a, b)`.
unfoldable pub path_join : String → String → String
unfolding path_clean
path_join a b =
    if a == ""
    then (if b == "" then "" else path_clean b)
    else if b == ""
    then path_clean a
    else path_clean (a <> "/" <> b)

split_slash_some :
    (s : String) → (part : String) × (parts : List String) × (split_slash s ≡ part ∷ parts)
unfolding split_slash
split_slash_some [] = ("", [], refl)
split_slash_some (c ∷ s) = elim (Bool-cases (is_slash c)) [
  | inl yes_slash ↦ ("", split_slash s, rw yes_slash refl)
  | inr no_slash ↦
      let (part, parts, e) = split_slash_some s in (c ∷ part, parts, rw (no_slash, e) refl)
]

grow-append :
    (c : Char) (s b : String)
    → grow c (List.◌++◌ (split_slash s) (split_slash b))
      ≡ List.◌++◌ (grow c (split_slash s)) (split_slash b)
grow-append c s b = let (part, parts, e) = split_slash_some s in rw e refl

-- A slash between two texts ends the parts of the first.
pub split_slash-join :
    (a b : String) → split_slash (a <> "/" <> b) ≡ List.◌++◌ (split_slash a) (split_slash b)
unfolding split_slash
split_slash-join [] b = rw (nil-append, cons-append, nil-append, split_slash) (refl)
split_slash-join (c ∷ s) b = elim (Bool-cases (is_slash c)) [
  | inl yes_slash ↦ rw (cons-append, split_slash) (rw (yes_slash, split_slash-join s b) refl)
  | inr no_slash ↦
      rw (cons-append, split_slash) (rw (no_slash, split_slash-join s b) (grow-append c s b))
]

joined : path_join "tasks/" "./a/../sum" ≡ "tasks/sum"
unfolding path_join has_prefix strip_prefix
joined = refl

trimmed : trim_slashes "//tasks/x//" ≡ "tasks/x"
unfolding trim_slashes
trimmed = refl

contained : contains "say TEST_PRIVATE(" "PRIVATE" ≡ true
unfolding contains has_prefix strip_prefix
contained = refl
