-- ===== src/Audit/Order.antt =====
-- The order of a tenant's rows in internal/modules/audit/chain.go, and a row added at its end.
use collectr.Prelude.{
  Bytes, eq_bytes, suc, ◌≤◌, ◌≡◌, refl, List, [], ◌∷◌, ◌++◌, if◌then◌else◌, length, length-append,
  arith, All,
}
use collectr.Audit.Chain.{Row, rows_of, insert_row, by_seq}

pub rows_of-snoc :
    (t : Bytes) (rows : List Row) (r : Row)
    → rows_of t (rows ++ r ∷ [])
      ≡ (if eq_bytes r.tenant t then rows_of t rows ++ r ∷ [] else rows_of t rows)
unfolding rows_of
rows_of-snoc t [] r = refl
rows_of-snoc t (q ∷ rest) r = ground (arith, rows_of-snoc t rest r)

pub insert_row-snoc :
    (q : Row) (rows : List Row) (r : Row)
    → q.seq ≤ r.seq
    → insert_row q (rows ++ r ∷ []) ≡ insert_row q rows ++ r ∷ []
unfolding insert_row
insert_row-snoc q [] r h = ground arith
insert_row-snoc q (p ∷ rest) r h = ground (arith, insert_row-snoc q rest r h)

-- A row whose number is the largest stands last in the order.
pub by_seq-snoc :
    (rows : List Row) (r : Row)
    → All (λ q. q.seq ≤ r.seq) rows
    → by_seq (rows ++ r ∷ []) ≡ by_seq rows ++ r ∷ []
unfolding by_seq insert_row
by_seq-snoc [] r h = refl
by_seq-snoc (q ∷ rest) r h = rw (by_seq-snoc rest r h.1) (insert_row-snoc q (by_seq rest) r h.0)

pub All-insert_row {ℓ} :
    (P : Row → Type ℓ) (q : Row) (rows : List Row) → All P (insert_row q rows) → P q × All P rows
unfolding insert_row
All-insert_row P q [] h = (h.0, tt)
All-insert_row P q (p ∷ rest) h = ground (arith, All-insert_row P q rest)

pub All-by_seq {ℓ} : (P : Row → Type ℓ) (rows : List Row) → All P (by_seq rows) → All P rows
unfolding by_seq
All-by_seq P [] h = tt
All-by_seq P (q ∷ rest) h =
    let i = All-insert_row P q (by_seq rest) h in (i.0, All-by_seq P rest i.1)

pub length-snoc {ℓ} : {A : Type ℓ} (xs : List A) (x : A) → length (xs ++ x ∷ []) ≡ suc (length xs)
length-snoc xs x = omega (arith, length-append xs (x ∷ []))
