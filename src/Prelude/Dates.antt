-- ===== src/Prelude/Dates.antt =====
-- Dates in the layout YYYY-MM-DD, as `time.Parse(time.DateOnly, …)` accepts them.
use Prim.Native.Nat.{ℕ, ◌+◌, ◌-◌, ◌*◌, ◌%◌}
use Prim.Native.Char.{Char, code}
use Prim.Native.String.{String}
use mathlib.Core.Path.{◌≡◌, refl}
use mathlib.Core.Bool.{Bool, true, false, ◌||◌, ◌&&◌, not}
use mathlib.Core.List.{List, [], ◌∷◌}
use collectr.Prelude.Tests.{leb, eqb, if◌then◌else◌}
use collectr.Prelude.Text.{chars}

abbrev is_digit : Char → Bool
is_digit c = leb 48 (code c) && leb (code c) 57

abbrev two_digits : Char → Char → ℕ
two_digits a b = (code a - 48) * 10 + (code b - 48)

unfoldable pub is_leap : ℕ → Bool
is_leap y = eqb (y % 4) 0 && (not (eqb (y % 100) 0) || eqb (y % 400) 0)

unfoldable pub days_in : ℕ → ℕ → ℕ
unfolding is_leap
days_in y m =
    if eqb m 2
    then (if is_leap y then 29 else 28)
    else if eqb m 4 || eqb m 6 || eqb m 9 || eqb m 11
    then 30
    else 31

unfoldable pub is_date_chars : List Char → Bool
unfolding days_in
is_date_chars (a ∷ b ∷ c ∷ d ∷ dash ∷ e ∷ f ∷ dash' ∷ g ∷ h ∷ []) =
    let year = two_digits a b * 100 + two_digits c d in
    let month = two_digits e f in
    let day = two_digits g h in
    is_digit a
    && is_digit b
    && is_digit c
    && is_digit d
    && eqb (code dash) 45
    && is_digit e
    && is_digit f
    && eqb (code dash') 45
    && is_digit g
    && is_digit h
    && leb 1 month
    && leb month 12
    && leb 1 day
    && leb day (days_in year month)
is_date_chars _ = false

unfoldable pub is_date : String → Bool
unfolding is_date_chars
is_date s = is_date_chars (chars s)

leap_day : is_date "2024-02-29" ≡ true
unfolding is_date
leap_day = refl

no_leap_day : is_date "2023-02-29" ≡ false
unfolding is_date
no_leap_day = refl

not_a_date : is_date "2024-2-29" ≡ false
unfolding is_date
not_a_date = refl
