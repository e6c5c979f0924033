-- ===== src/Prelude/Decimal.antt =====
-- Go's `%d` and strconv.FormatInt on natural numbers, as bytes.
use Prim.Native.Nat.{ℕ, zero, suc, ◌+◌, ◌-◌, ◌*◌, ◌/◌, ◌%◌, ◌≤◌, ◌<◌}
use mathlib.Core.Path.{◌≡◌, refl, sym, ap, ◌∙◌}
use mathlib.Core.Logic.{◌⊎◌, inl, inr}
use mathlib.Core.List.{List, [], ◌∷◌, ◌++◌}
use native.Mathlib.Omega.{arith}
use collectr.Prelude.Tests.{ltb, if◌then◌else◌, Bool-cases}
use collectr.Prelude.Lists.{All, All-append}

-- `%d`, digit by digit from the right; the first argument is fuel.
unfoldable pub decimal_from : ℕ → ℕ → List ℕ
decimal_from zero n = []
decimal_from (suc k) n =
    let rest = decimal_from k (n / 10) in
    if ltb n 10 then (48 + n) ∷ [] else rest ++ (48 + n % 10) ∷ []

unfoldable pub decimal : ℕ → List ℕ
unfolding decimal_from
decimal n = decimal_from (suc n) n

decimal_year : decimal 2026 ≡ 50 ∷ 48 ∷ 50 ∷ 54 ∷ []
unfolding decimal
decimal_year = refl

-- What a decimal reads as.
abbrev reads : ℕ → List ℕ → ℕ
reads n [] = n
reads n (c ∷ cs) = reads (10 * n + (c - 48)) cs

reads-snoc : (n : ℕ) (xs : List ℕ) (d : ℕ) → reads n (xs ++ d ∷ []) ≡ 10 * reads n xs + (d - 48)
reads-snoc n [] d = refl
reads-snoc n (c ∷ cs) d = reads-snoc (10 * n + (c - 48)) cs d

reads-decimal_from : (k n : ℕ) → n < k → reads 0 (decimal_from k n) ≡ n
unfolding decimal_from
reads-decimal_from zero n h = absurd (omega arith)
reads-decimal_from (suc k) n h = elim (Bool-cases (ltb n 10)) [
  | inl t ↦ rw t (omega arith)
  | inr f ↦
      rw (f, reads-snoc 0 (decimal_from k (n / 10)) (48 + n % 10))
        (ground (arith, reads-decimal_from k (n / 10)))
]

-- The characters from 0 to 9.
IsDigits : List ℕ → Type 0
IsDigits = All (λ c. (48 ≤ c) × (c < 58))

decimal-IsDigits : (k n : ℕ) → IsDigits (decimal_from k n)
unfolding decimal_from IsDigits
decimal-IsDigits zero n = tt
decimal-IsDigits (suc k) n = elim (Bool-cases (ltb n 10)) [
  | inl t ↦ rw t ((omega arith, ground arith), tt)
  | inr f ↦ rw f (
      All-append (λ c. (48 ≤ c) × (c < 58)) (decimal_from k (n / 10)) ((48 + n % 10) ∷ [])
        (decimal-IsDigits k (n / 10)) ((omega arith, omega arith), tt))
]

pub decimal_injective : (m n : ℕ) → decimal m ≡ decimal n → m ≡ n
unfolding decimal
decimal_injective m n h =
    sym (reads-decimal_from (suc m) m (omega arith))
    ∙ ap (reads 0) h
    ∙ reads-decimal_from (suc n) n (omega arith)

split_at :
    (sep : ℕ) (xs ys r s : List ℕ)
    → sep < 48 ⊎ 58 ≤ sep
    → IsDigits xs
    → IsDigits ys
    → xs ++ sep ∷ r ≡ ys ++ sep ∷ s
    → (xs ≡ ys) × (r ≡ s)
unfolding IsDigits
split_at sep [] [] r s out hx hy q = (refl, cc)
split_at sep [] (y ∷ ys) r s (inl o) hx hy q = absurd (ground arith)
split_at sep [] (y ∷ ys) r s (inr o) hx hy q = absurd (ground arith)
split_at sep (x ∷ xs) [] r s (inl o) hx hy q = absurd (ground arith)
split_at sep (x ∷ xs) [] r s (inr o) hx hy q = absurd (ground arith)
split_at sep (x ∷ xs) (y ∷ ys) r s out hx hy q =
    let (e, f) = split_at sep xs ys r s out hx.1 hy.1 cc in (cc, f)

-- A byte that is no digit shows where the digits before it end.
pub split_digits :
    (sep : ℕ) (m n : ℕ) (r s : List ℕ)
    → sep < 48 ⊎ 58 ≤ sep
    → decimal m ++ sep ∷ r ≡ decimal n ++ sep ∷ s
    → (m ≡ n) × (r ≡ s)
unfolding decimal
split_digits sep m n r s out q =
    let (e, f) =
      split_at sep (decimal m) (decimal n) r s out (decimal-IsDigits (suc m) m)
        (decimal-IsDigits (suc n) n) q in
    (decimal_injective m n e, f)
