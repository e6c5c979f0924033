-- ===== src/Audit/Verdict.antt =====
-- Verify of internal/modules/audit/chain.go against the chain it looks for, and what Write keeps.
use collectr.Prelude.{
  Bytes, eq_bytes, eq_bytes-eq, eq_bytes_refl, ℕ, suc, ◌+◌, ◌≤◌, ◌≡◌, ◌↔◌, refl, sym, ap, ◌∙◌,
  subst, true, false, none, List, [], ◌∷◌, ◌++◌, ok, length, arith, All, inl, inr, Option-cases,
  Ensures, err, Ensures-bind,
}
use collectr.Audit.Chain.{
  Row, Json, Entry, rows_of, by_seq, encode_entry, chain_hash, genesis_hash, last_of, head, new_row,
  write, fault, verify_rows, verify,
}
use collectr.Audit.Order.{rows_of-snoc, by_seq-snoc, All-by_seq, length-snoc}

module _ (sum : Bytes → Bytes) where
  -- Numbered from `k + 1` on, each row names the hash before it and carries its own.
  abbrev pub IsChain : Bytes → ℕ → Bytes → List Row → Type 0
  IsChain t k prev [] = Unit
  IsChain t k prev (r ∷ rest) =
      (r.seq ≡ suc k)
      × (r.prev_hash ≡ prev)
      × (r.hash ≡ chain_hash sum prev t (suc k) r.action r.actor r.target r.payload)
      × IsChain t (suc k) r.hash rest

  abbrev IsNext : Bytes → ℕ → Bytes → Row → Type 0
  IsNext t k prev r =
      (r.seq ≡ suc k)
      × (r.prev_hash ≡ prev)
      × (r.hash ≡ chain_hash sum prev t (suc k) r.action r.actor r.target r.payload)

  fault-IsNext :
      (t : Bytes) (k : ℕ) (prev : Bytes) (r : Row)
      → fault sum t prev (suc k) r ≡ none
      → IsNext t k prev r
  unfolding fault
  fault-IsNext t k prev r h =
      let s : r.seq ≡ suc k = ground arith in
      let p : r.prev_hash ≡ prev = ground (arith, eq_bytes-eq r.prev_hash prev) in
      let e : chain_hash sum r.prev_hash t r.seq r.action r.actor r.target r.payload ≡ r.hash =
        ground (
          arith,
          eq_bytes-eq (chain_hash sum r.prev_hash t r.seq r.action r.actor r.target r.payload)
              r.hash,
        ) in
      (s, p, cc)

  next_passes :
      (t : Bytes) (k : ℕ) (prev : Bytes) (r : Row)
      → IsNext t k prev r
      → fault sum t prev (suc k) r ≡ none
  unfolding fault
  next_passes t k prev r (s, p, e) =
      let a : eq_bytes r.prev_hash prev ≡ true = rw p (eq_bytes_refl prev) in
      let b : eq_bytes (chain_hash sum r.prev_hash t r.seq r.action r.actor r.target r.payload)
            r.hash
          ≡ true =
        rw (p, s, e)
          (eq_bytes_refl (chain_hash sum prev t (suc k) r.action r.actor r.target r.payload)) in
      ground (arith, s, eq_bytes_refl prev, eq_bytes_refl r.hash, a, b)

  verify_rows-IsChain :
      (t : Bytes) (n k : ℕ) (prev : Bytes) (rows : List Row)
      → (verify_rows sum t n prev (suc k) rows).broken ≡ none
      → IsChain t k prev rows
  unfolding verify_rows
  verify_rows-IsChain t n k prev [] h = tt
  verify_rows-IsChain t n k prev (r ∷ rest) h = elim (Option-cases (fault sum t prev (suc k) r)) [
    | inl q ↦
        let (s, p, e) = fault-IsNext t k prev r q in
        (s, p, e, verify_rows-IsChain t (suc n) (suc k) r.hash rest (ground arith))
    | inr (reason, q) ↦ absurd (ground arith)
  ]

  chain-verify_rows :
      (t : Bytes) (n k : ℕ) (prev : Bytes) (rows : List Row)
      → IsChain t k prev rows
      → verify_rows sum t n prev (suc k) rows ≡ record { entries = n + length rows; broken = none }
  unfolding verify_rows
  chain-verify_rows t n k prev [] h = ground arith
  chain-verify_rows t n k prev (r ∷ rest) (s, p, e, c) =
      ground
        (arith, next_passes t k prev r (s, p, e), chain-verify_rows t (suc n) (suc k) r.hash rest c)

  -- Verify reports no fault exactly where the tenant's rows, in the order of their numbers, are
  -- numbered from 1 without a gap, each naming its predecessor's hash and carrying its own.
  pub verify-IsChain :
      (t : Bytes) (table : List Row)
      → ((verify sum t table).broken ≡ none)
        ↔ IsChain t 0 (genesis_hash sum) (by_seq (rows_of t table))
  unfolding verify
  verify-IsChain t table = (
    verify_rows-IsChain t 0 0 (genesis_hash sum) (by_seq (rows_of t table)),
    λ c.
        ap (λ v. v.broken)
          (chain-verify_rows t 0 0 (genesis_hash sum) (by_seq (rows_of t table)) c),
  )

  pub verify_entries :
      (t : Bytes) (table : List Row)
      → (verify sum t table).broken ≡ none
      → verify sum t table ≡ record { entries = length (by_seq (rows_of t table)); broken = none }
  unfolding verify
  verify_entries t table h =
      let c = (verify-IsChain t table).0 h in
      ground (arith, chain-verify_rows t 0 0 (genesis_hash sum) (by_seq (rows_of t table)) c)

  -- The row that Write appends after the head is the next of the chain.
  IsChain-snoc :
      (t : Bytes) (k : ℕ) (prev : Bytes) (rows : List Row) (action actor target payload : Bytes)
      → IsChain t k prev rows
      → IsChain t k prev
          (rows ++ new_row sum (last_of sum rows (k, prev)) t action actor target payload ∷ [])
  unfolding last_of new_row
  IsChain-snoc t k prev [] action actor target payload c = (refl, refl, refl, tt)
  IsChain-snoc t k prev (r ∷ rest) action actor target payload (s, p, e, c) =
      (s, p, e, rw s (IsChain-snoc t (suc k) r.hash rest action actor target payload c))

  last_of-ge :
      (t : Bytes) (k : ℕ) (prev : Bytes) (rows : List Row)
      → IsChain t k prev rows
      → k ≤ (last_of sum rows (k, prev)).0
  unfolding last_of
  last_of-ge t k prev [] c = omega arith
  last_of-ge t k prev (r ∷ rest) (s, p, e, c) =
      rw s (omega (arith, last_of-ge t (suc k) r.hash rest c))

  last_of-largest :
      (t : Bytes) (k : ℕ) (prev : Bytes) (rows : List Row)
      → IsChain t k prev rows
      → All (λ q. q.seq ≤ suc (last_of sum rows (k, prev)).0) rows
  unfolding last_of
  last_of-largest t k prev [] c = tt
  last_of-largest t k prev (r ∷ rest) (s, p, e, c) = (
    rw s (omega (arith, last_of-ge t (suc k) r.hash rest c)),
    subst (λ n. All (λ q. q.seq ≤ suc (last_of sum rest (n, r.hash)).0) rest) (sym s)
        (last_of-largest t (suc k) r.hash rest c),
  )

  rows_after :
      (t : Bytes) (table : List Row) (action actor target payload : Bytes)
      → IsChain t 0 (genesis_hash sum) (by_seq (rows_of t table))
      → by_seq
          (rows_of t (table ++ new_row sum (head sum t table) t action actor target payload ∷ []))
        ≡ by_seq (rows_of t table)
          ++ new_row sum (head sum t table) t action actor target payload ∷ []
  unfolding new_row head
  rows_after t table action actor target payload c =
      let r = new_row sum (head sum t table) t action actor target payload in
      let rows = rows_of t table in
      let own : rows_of t (table ++ r ∷ []) ≡ rows ++ r ∷ [] =
        rw (rows_of-snoc t table r, eq_bytes_refl t) refl in
      ap by_seq own
      ∙ by_seq-snoc rows r (
          All-by_seq (λ q. q.seq ≤ r.seq) rows
            (last_of-largest t 0 (genesis_hash sum) (by_seq rows) c))

  -- Appending the row after the head: the owner's chain goes on, any other reads as before.
  append-own :
      (t : Bytes) (table : List Row) (action actor target payload : Bytes)
      → (verify sum t table).broken ≡ none
      → verify sum t (table ++ new_row sum (head sum t table) t action actor target payload ∷ [])
        ≡ record { entries = suc (verify sum t table).entries; broken = none }
  unfolding head
  append-own t table action actor target payload h =
      let c = (verify-IsChain t table).0 h in
      let r = new_row sum (head sum t table) t action actor target payload in
      let grown = rows_after t table action actor target payload c in
      let good : IsChain t 0 (genesis_hash sum) (by_seq (rows_of t (table ++ r ∷ []))) =
        subst (IsChain t 0 (genesis_hash sum)) (sym grown) (
          IsChain-snoc t 0 (genesis_hash sum) (by_seq (rows_of t table)) action actor target payload
            c) in
      let count : length (by_seq (rows_of t (table ++ r ∷ [])))
          ≡ suc (length (by_seq (rows_of t table))) =
        ap length grown ∙ length-snoc (by_seq (rows_of t table)) r in
      verify_entries t (table ++ r ∷ []) ((verify-IsChain t (table ++ r ∷ [])).1 good)
      ∙ ap (λ n. record { entries = n; broken = none })
          (count ∙ sym (ap (λ v. suc v.entries) (verify_entries t table h)))

  append-other :
      (t u : Bytes) (table : List Row) (r : Row)
      → eq_bytes r.tenant u ≡ false
      → verify sum u (table ++ r ∷ []) ≡ verify sum u table
  unfolding verify
  append-other t u table r h = rw (rows_of-snoc u table r, h) refl

  -- What Write leaves behind: the tenant's chain is one entry longer, any other is as before.
  abbrev pub IsExtended : List Row → Bytes → List Row → Type 0
  IsExtended table t table' =
      (verify sum t table' ≡ record { entries = suc (verify sum t table).entries; broken = none })
      × ((u : Bytes) → eq_bytes t u ≡ false → verify sum u table' ≡ verify sum u table)

  row-IsExtended :
      (t : Bytes) (table : List Row) (action actor target payload : Bytes)
      → (verify sum t table).broken ≡ none
      → IsExtended table t
          (table ++ new_row sum (head sum t table) t action actor target payload ∷ [])
  unfolding new_row
  row-IsExtended t table action actor target payload h = (
    append-own t table action actor target payload h,
    λ u f. append-other t u table (new_row sum (head sum t table) t action actor target payload) f,
  )

  -- Where a tenant's chain is intact, Write fails only if the entry cannot be encoded; else Verify
  -- accepts the tenant's chain with one entry more, and reports of every other tenant what it
  -- reported before.
  pub write-IsExtended :
      (json : Json) (table : List Row) (e : Entry json)
      → (verify sum e.tenant table).broken ≡ none
      → Ensures
          (IsExtended table e.tenant)
          (λ fault. encode_entry json e ≡ err fault)
          (write sum json table e)
  unfolding write
  write-IsExtended json table e h =
      Ensures-bind (IsExtended table e.tenant) (λ fault. encode_entry json e ≡ err fault)
        (encode_entry json e)
        (λ c. ok (
          table
          ++ new_row sum (head sum e.tenant table) e.tenant e.action c.actor c.target c.payload
            ∷ []))
        (λ fault q. q) (λ c q. row-IsExtended e.tenant table e.action c.actor c.target c.payload h)
