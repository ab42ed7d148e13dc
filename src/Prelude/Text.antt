-- ===== src/Prelude/Text.antt =====
-- The functions of Go's `strings` and `path` packages that the program calls.
use Prim.Native.Char.{Char, code}
use Prim.Native.String.{String, compare, [], ◌∷◌, ◌++◌}
use mathlib.Core.Path.{◌≡◌, refl}
use mathlib.Core.Bool.{Bool, true, false, ◌&&◌}
use mathlib.Core.Option.{Option, none, some}
use native.Mathlib.Omega.{arith}
use text.Mathlib.Text.{is_lt}
use text.Mathlib.TextLemmas.{nil-append, cons-append}
use text.Mathlib.TextEquality.{Char-path}
use notmanytuples.Prelude.Tests.{eqb, if◌then◌else◌}

infixr 65 ◌<>◌
-- `s + t`.
abbrev pub ◌<>◌ : String → String → String
s <> t = s ++ t

-- `s < t`.
abbrev pub is_before : String → String → Bool
is_before s t = is_lt (compare s t)

-- The rest of a text behind a prefix.
unfoldable pub strip_prefix : String → String → Option String
strip_prefix [] s = some s
strip_prefix (c ∷ p) [] = none
strip_prefix (c ∷ p) (d ∷ s) = if eqb (code c) (code d) then strip_prefix p s else none

-- `strings.HasPrefix(s, p)`.
unfoldable pub has_prefix : String → String → Bool
has_prefix s p = elim (strip_prefix p s) [ none ↦ false | some _ ↦ true ]

-- `strings.TrimPrefix(s, p)`.
unfoldable pub trim_prefix : String → String → String
trim_prefix s p = elim (strip_prefix p s) [ none ↦ s | some t ↦ t ]

pub strip_prefix-append : (p s : String) → strip_prefix p (p <> s) ≡ some s
unfolding strip_prefix
strip_prefix-append [] s = rw nil-append
strip_prefix-append (c ∷ p) s = rw cons-append (ground (arith, strip_prefix-append p s))

pub strip_prefix_sound : (p s t : String) → strip_prefix p s ≡ some t → s ≡ p <> t
unfolding strip_prefix
strip_prefix_sound [] s t h = rw nil-append (ground arith)
strip_prefix_sound (c ∷ p) [] t h = absurd (ground arith)
strip_prefix_sound (c ∷ p) (d ∷ s) t h =
    let same : c ≡ d = Char-path c d (ground arith) in
    rw (cons-append, same, strip_prefix_sound p s t (ground arith))

abbrev is_slash : Char → Bool
is_slash c = eqb (code c) b'/'

abbrev is_empty : String → Bool
is_empty [] = true
is_empty (c ∷ s) = false

unfoldable pub has_slash : String → Bool
has_slash [] = false
has_slash (c ∷ s) = let rest = has_slash s in if is_slash c then true else rest

drop_trailing_slashes : String → String
drop_trailing_slashes [] = []
drop_trailing_slashes (c ∷ s) =
    let rest = drop_trailing_slashes s in if is_empty rest && is_slash c then [] else c ∷ rest

after_last_slash : String → String
unfolding has_slash
after_last_slash [] = []
after_last_slash (c ∷ s) =
    let rest = after_last_slash s in if has_slash s then rest else if is_slash c then s else c ∷ s

-- `path.Base(s)`.
unfoldable pub path_base : String → String
unfolding drop_trailing_slashes after_last_slash
path_base s =
    let last = after_last_slash (drop_trailing_slashes s) in
    if is_empty s then "." else if is_empty last then "/" else last

base_of_nested : path_base "https://gitlab/course/hse-a-b-login" ≡ "hse-a-b-login"
unfolding path_base
base_of_nested = refl

base_of_slashes : path_base "//" ≡ "/"
unfolding path_base
base_of_slashes = refl
