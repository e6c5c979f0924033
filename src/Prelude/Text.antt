-- ===== src/Prelude/Text.antt =====
-- Go's `strings` functions that the program calls, over the native texts.
use Prim.Native.Nat.{ℕ, ◌+◌}
use Prim.Native.Char.{Char, code}
use Prim.Native.String.{String}
use mathlib.Core.Path.{◌≡◌, refl}
use mathlib.Core.Bool.{Bool, true, false, ◌||◌, ◌&&◌}
use mathlib.Core.Option.{none, some}
use mathlib.Core.List.{List, [], ◌∷◌, reverse}
use text.Mathlib.Text.{find?}
use collectr.Prelude.Tests.{ltb, leb, eqb, if◌then◌else◌}

-- unicode.IsSpace
unfoldable pub is_space : ℕ → Bool
is_space c =
    leb 9 c && leb c 13
    || eqb c 32
    || eqb c 0x85
    || eqb c 0xa0
    || eqb c 0x1680
    || leb 0x2000 c && leb c 0x200a
    || eqb c 0x2028
    || eqb c 0x2029
    || eqb c 0x202f
    || eqb c 0x205f
    || eqb c 0x3000

abbrev pub chars : String → List Char
chars String.[] = []
chars (String.◌∷◌ c s) = c ∷ chars s

abbrev pub text_of : List Char → String
text_of [] = ""
text_of (c ∷ cs) = String.◌∷◌ c (text_of cs)

unfoldable pub drop_spaces : List Char → List Char
unfolding is_space
drop_spaces [] = []
drop_spaces (c ∷ cs) = let rest = drop_spaces cs in if is_space (code c) then rest else c ∷ cs

-- strings.TrimSpace
unfoldable pub trim_space : String → String
unfolding drop_spaces
trim_space s = text_of (reverse (drop_spaces (reverse (drop_spaces (chars s)))))

-- strings.Contains
unfoldable pub contains_text : String → String → Bool
contains_text s t = elim (find? s t) [ none ↦ false | some _ ↦ true ]

-- len(s): the bytes of the UTF-8 text.
unfoldable pub byte_length : List Char → ℕ
byte_length [] = 0
byte_length (c ∷ cs) =
    (if ltb (code c) 128
      then 1
      else if ltb (code c) 2048
      then 2
      else if ltb (code c) 65536
      then 3
      else 4)
    + byte_length cs

trim_space_both : trim_space " \ta b \n" ≡ "a b"
unfolding trim_space
trim_space_both = refl

trim_space_blank : trim_space "  " ≡ ""
unfolding trim_space
trim_space_blank = refl

contains_text_middle : contains_text "rutgon.vn" "gon" ≡ true
unfolding contains_text
contains_text_middle = refl
