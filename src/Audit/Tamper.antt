-- ===== src/Audit/Tamper.antt =====
-- What the hashes of internal/modules/audit/chain.go give away: two histories that end in the same
-- hash are the same history.
use collectr.Prelude.{
  Bytes, decimal, decimal_injective, ℕ, suc, ◌≡◌, refl, sym, ap, ◌∙◌, none, List, [], ◌∷◌, length,
  arith,
}
use mathlib.Core.List.{append-nil}
use collectr.Audit.Encoding.{write_field, split_length, write_field_injective}
use collectr.Audit.Chain.{
  Row, rows_of, by_seq, row_bytes, chain_hash, genesis_hash, last_of, head, verify,
}
use collectr.Audit.Verdict.{IsChain, verify-IsChain, verify_entries}

-- The hashed fields are the same.
abbrev pub IsSame : Row → Row → Type 0
IsSame r q =
    (r.seq ≡ q.seq)
    × (r.prev_hash ≡ q.prev_hash)
    × (r.action ≡ q.action)
    × (r.actor ≡ q.actor)
    × (r.target ≡ q.target)
    × (r.payload ≡ q.payload)

abbrev pub Same : List Row → List Row → Type 0
Same [] [] = Unit
Same [] (q ∷ ys) = ⊥
Same (r ∷ xs) [] = ⊥
Same (r ∷ xs) (q ∷ ys) = IsSame r q × Same xs ys

abbrev pub hashed : Bytes → Row → Bytes
hashed t r = row_bytes r.prev_hash t r.seq r.action r.actor r.target r.payload

-- The bytes that are hashed tell the row: no other row after a hash of that length has them.
pub row_bytes_injective :
    (t : Bytes) (r q : Row)
    → length r.prev_hash ≡ length q.prev_hash
    → hashed t r ≡ hashed t q
    → IsSame r q
unfolding row_bytes
row_bytes_injective t r q l h =
    let (prev, h1) = split_length r.prev_hash q.prev_hash _ _ l h in
    let (tenant, h2) = write_field_injective t t _ _ h1 in
    let (number, h3) = write_field_injective (decimal r.seq) (decimal q.seq) _ _ h2 in
    let (action, h4) = write_field_injective r.action q.action _ _ h3 in
    let (actor, h5) = write_field_injective r.actor q.actor _ _ h4 in
    let (target, h6) = write_field_injective r.target q.target _ _ h5 in
    let (payload, _) =
      write_field_injective r.payload q.payload [] []
        (append-nil (write_field r.payload) ∙ h6 ∙ sym (append-nil (write_field q.payload))) in
    (decimal_injective r.seq q.seq number, prev, action, actor, target, payload)

module _ (sum : Bytes → Bytes) where
  -- The rows that stand at the same place do not have the same hash by chance.
  abbrev pub NoCollision : Bytes → List Row → List Row → Type 0
  NoCollision t [] ys = Unit
  NoCollision t (r ∷ xs) [] = Unit
  NoCollision t (r ∷ xs) (q ∷ ys) =
      (sum (hashed t r) ≡ sum (hashed t q) → hashed t r ≡ hashed t q) × NoCollision t xs ys

  chains_agree :
      (t : Bytes)
      → ((x y : Bytes) → length (sum x) ≡ length (sum y))
      → (k : ℕ) (p p' : Bytes) (xs ys : List Row) → length p ≡ length p'
      → length xs ≡ length ys
      → IsChain sum t k p xs
      → IsChain sum t k p' ys
      → (last_of sum xs (k, p)).1 ≡ (last_of sum ys (k, p')).1
      → NoCollision t xs ys
      → (p ≡ p') × Same xs ys
  unfolding last_of chain_hash
  chains_agree t fixed k p p' [] [] l n c d e x = (e, tt)
  chains_agree t fixed k p p' [] (q ∷ ys) l n c d e x = absurd (omega arith)
  chains_agree t fixed k p p' (r ∷ xs) [] l n c d e x = absurd (omega arith)
  chains_agree t fixed k p p' (r ∷ xs) (q ∷ ys) l n (s, a, b, c) (s', a', b', d) e (x, xs_apart) =
      let hr : r.hash ≡ sum (hashed t r) = cc in
      let hq : q.hash ≡ sum (hashed t q) = cc in
      let lengths = ap length hr ∙ fixed (hashed t r) (hashed t q) ∙ sym (ap length hq) in
      let (hashes, later) =
        chains_agree t fixed (suc k) r.hash q.hash xs ys lengths (omega arith) c d (cc) xs_apart in
      let same =
        row_bytes_injective t r q (ap length a ∙ l ∙ sym (ap length a'))
          (x (sym hr ∙ hashes ∙ hq)) in
      (sym a ∙ same.1 ∙ a', (same, later))

  -- Two tables whose chains Verify accepts, with as many entries and the same last hash, hold the
  -- same history of the tenant, if hashes have one length and no two rows that stand at the same
  -- place collide.
  pub verify-Same :
      (t : Bytes) (table table' : List Row)
      → ((x y : Bytes) → length (sum x) ≡ length (sum y))
      → (verify sum t table).broken ≡ none
      → (verify sum t table').broken ≡ none
      → (verify sum t table).entries ≡ (verify sum t table').entries
      → (head sum t table).1 ≡ (head sum t table').1
      → NoCollision t (by_seq (rows_of t table)) (by_seq (rows_of t table'))
      → Same (by_seq (rows_of t table)) (by_seq (rows_of t table'))
  unfolding head
  verify-Same t table table' fixed v w n e x =
      let rows = by_seq (rows_of t table) in
      let rows' = by_seq (rows_of t table') in
      let g = genesis_hash sum in
      (chains_agree t fixed 0 g g rows rows' refl
        (sym (ap (λ v. v.entries) (verify_entries sum t table v))
          ∙ n
          ∙ ap (λ v. v.entries) (verify_entries sum t table' w))
        ((verify-IsChain sum t table).0 v) ((verify-IsChain sum t table').0 w) e x).1
