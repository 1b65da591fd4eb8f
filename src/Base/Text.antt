-- ===== src/Base/Text.antt =====
-- What the program uses of Go's `strings` package. A `String` is a text of code points; Go's bytes
-- are its UTF-8, whose order is that of the code points.
use Prim.Native.Nat.{ℕ, Ordering}
use Prim.Native.Char.{Char, code}
use Prim.Native.String
use Prim.Native.String.{String}
use mathlib.Core.Path.{◌≡◌, refl}
use mathlib.Core.Bool.{Bool, true, false, ◌&&◌, ◌||◌}
use mathlib.Core.Option.{Option, none, some}
use mathlib.Core.List.{List, [], ◌∷◌}
use text.Mathlib.Text.{◌==◌}
use modelo_man.Base.Tests.{leb, if◌then◌else◌}

infixl 65 ◌<>◌
-- The concatenation `s + t` of two texts.
abbrev pub ◌<>◌ : String → String → String
s <> t = String.◌++◌ s t

-- `s < t` on texts.
abbrev pub text_lt : String → String → Bool
text_lt s t = elim (String.compare s t) [ Ordering.lt ↦ true | _ ↦ false ]

abbrev code_is : ℕ → ℕ → Bool
code_is a b = leb a b && leb b a

-- `unicode.IsSpace`: the code points with the property White_Space.
unfoldable pub is_space : ℕ → Bool
is_space c =
    (leb 9 c && leb c 13)
    || code_is c 32
    || code_is c 0x85
    || code_is c 0xa0
    || code_is c 0x1680
    || (leb 0x2000 c && leb c 0x200a)
    || code_is c 0x2028
    || code_is c 0x2029
    || code_is c 0x202f
    || code_is c 0x205f
    || code_is c 0x3000

unfoldable pub trim_left : String → String
unfolding is_space
trim_left String.[] = ""
trim_left (String.◌∷◌ c s) =
    let rest = trim_left s in if is_space (code c) then rest else String.◌∷◌ c s

trim_end : Char → String → String
unfolding is_space
trim_end c rest = if is_space (code c) && rest == "" then "" else String.◌∷◌ c rest

unfoldable pub trim_right : String → String
unfolding trim_end
trim_right String.[] = ""
trim_right (String.◌∷◌ c s) = trim_end c (trim_right s)

-- `strings.TrimSpace`.
unfoldable pub trim_space : String → String
unfolding trim_left trim_right
trim_space s = trim_right (trim_left s)

-- `strings.HasPrefix` and, where it holds, `strings.TrimPrefix`.
unfoldable pub strip_prefix : String → String → Option String
strip_prefix String.[] s = some s
strip_prefix (String.◌∷◌ c p) String.[] = none
strip_prefix (String.◌∷◌ c p) (String.◌∷◌ d s) =
    if code_is (code c) (code d) then strip_prefix p s else none

-- Whether a text is among those of a list: `_, ok := set[k]` on a map that serves as a set.
abbrev pub contains : List String → String → Bool
contains [] k = false
contains (x ∷ xs) k = x == k || contains xs k

-- `strconv.ParseBool`.
abbrev pub parse_bool : String → Option Bool
parse_bool s =
    if contains ("1" ∷ "t" ∷ "T" ∷ "TRUE" ∷ "true" ∷ "True" ∷ []) s
    then some true
    else if contains ("0" ∷ "f" ∷ "F" ∷ "FALSE" ∷ "false" ∷ "False" ∷ []) s
    then some false
    else none

trim_space_run : trim_space " \t a b  " ≡ "a b"
unfolding trim_space
trim_space_run = refl
