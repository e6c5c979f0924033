-- ===== src/Prelude/Sets.antt =====
-- Sets of texts as lists: membership, distinct elements, and how much of a set is not yet visited.
use Prim.Native.Nat.{ℕ, suc, ◌≤◌, ◌<◌}
use Prim.Native.String.{String}
use mathlib.Core.Path.{◌≡◌, refl, subst}
use mathlib.Core.Logic.{inl, inr}
use text.Mathlib.Text.{◌==◌}
use mathlib.Core.Bool.{false≢true, Bool, true, false, ◌||◌, ◌&&◌, not}
use mathlib.Core.List.{List, [], ◌∷◌, ◌++◌}
use native.Mathlib.Omega.{arith}
use text.Mathlib.TextEquality.{eq_iff}
use text.Mathlib.TextPositions.{eq_refl}
use collectr.Prelude.Tests.{if◌then◌else◌, Bool-cases}
use collectr.Prelude.Lists.{length, has, All}

pub has-append : (xs ys : List String) (k : String) → has (xs ++ ys) k ≡ (has xs k || has ys k)
unfolding has
has-append [] ys k = refl
has-append (x ∷ xs) ys k = ground (arith, has-append xs ys k)

pub has_head : (k : String) (xs : List String) → has (k ∷ xs) k ≡ true
unfolding has
has_head k xs = ground (arith, eq_refl k)

-- No element stands twice.
abbrev pub distinct : List String → Bool
distinct [] = true
distinct (x ∷ xs) = not (has xs x) && distinct xs

-- How many elements of `universe` are not in `seen`.
pub missing : List String → List String → ℕ
missing [] seen = 0
missing (x ∷ xs) seen = let rest = missing xs seen in if has seen x then rest else suc rest

pub missing_none : (xs : List String) → missing xs [] ≡ length xs
unfolding missing has
missing_none [] = refl
missing_none (x ∷ xs) = ground (arith, missing_none xs)

pub missing-cons_le :
    (universe seen : List String) (k : String) → missing universe (k ∷ seen) ≤ missing universe seen
unfolding missing has
missing-cons_le [] seen k = omega arith
missing-cons_le (x ∷ xs) seen k = ground (arith, missing-cons_le xs seen k)

-- To visit an element that was not visited leaves fewer.
pub missing-cons_lt :
    (universe seen : List String) (k : String)
    → has universe k ≡ true
    → has seen k ≡ false
    → missing universe (k ∷ seen) < missing universe seen
unfolding missing has
missing-cons_lt [] seen k u s = cc
missing-cons_lt (x ∷ xs) seen k u s =
    ground (arith, eq_iff x k, eq_refl k, missing-cons_le xs seen k, missing-cons_lt xs seen k)

pub distinct-snoc :
    (xs : List String) (k : String)
    → distinct xs ≡ true
    → has xs k ≡ false
    → distinct (xs ++ k ∷ []) ≡ true
unfolding has
distinct-snoc [] k d h = refl
distinct-snoc (x ∷ xs) k d h =
    ground (arith, distinct-snoc xs k, has-append xs (k ∷ []) x, eq_iff x k, eq_iff k x, eq_refl k)

-- What holds of every element holds of a member.
pub All-has {ℓ} :
    (P : String → Type ℓ) (xs : List String) (k : String) → All P xs → has xs k ≡ true → P k
unfolding has
All-has P [] k a h = absurd (false≢true h)
All-has P (x ∷ xs) k a h = elim (Bool-cases (x == k)) [
  | inl t ↦ subst P ((eq_iff x k).0 t) a.0
  | inr f ↦ All-has P xs k a.1 (ground arith)
]
