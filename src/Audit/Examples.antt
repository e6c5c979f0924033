-- ===== src/Audit/Examples.antt =====
-- Audit tables to run Write and Verify on, and the theorems at these tables.
use collectr.Prelude.{Bytes, ℕ, suc, ◌+◌, ◌≡◌, ◌↔◌, refl, some, none, [], ◌∷◌, Ensures, err}
use collectr.Audit.Chain.{
  Row, Json, Entry, altered, sequence_jumps, chain_hash, genesis_hash, by_seq, rows_of, head, write,
  verify, encode_entry,
}
use collectr.Audit.Verdict.{IsChain, IsExtended, verify-IsChain, write-IsExtended}
use collectr.Audit.Tamper.{Same, IsSame, row_bytes_injective, verify-Same}

-- A hash of one byte that is good enough for a few rows.
abbrev weigh : ℕ → Bytes → ℕ
weigh n [] = n
weigh n (x ∷ xs) = weigh (n + x) xs

abbrev weight : Bytes → Bytes
weight b = weigh 0 b ∷ []

abbrev plain : Json
plain = record {
  Actor = Bytes;
  Object = Bytes;
  empty_object = 123 ∷ 125 ∷ [];
  marshal_actor = λ b. some b;
  marshal_object = λ b. some b;
}

abbrev acme : Bytes
acme = 7 ∷ []

abbrev row_after : ℕ → Bytes → Bytes → Row
row_after k prev payload = record {
  tenant = acme;
  seq = suc k;
  actor = 1 ∷ [];
  action = 2 ∷ [];
  target = 3 ∷ [];
  payload = payload;
  prev_hash = prev;
  hash = chain_hash weight prev acme (suc k) (2 ∷ []) (1 ∷ []) (3 ∷ []) payload;
}

abbrev first : Row
first = row_after 0 (genesis_hash weight) (4 ∷ [])

abbrev second : Row
second = row_after 1 first.hash (5 ∷ [])

abbrev granted : Entry plain
granted = record {
  tenant = acme;
  actor = 1 ∷ [];
  action = 2 ∷ [];
  target = some (3 ∷ []);
  payload = none;
}

two_valid : verify weight acme (second ∷ first ∷ []) ≡ record { entries = 2; broken = none }
unfolding verify
two_valid = refl

first_removed :
    verify weight acme (second ∷ []) ≡ record { entries = 1; broken = some (2, sequence_jumps) }
unfolding verify
first_removed = refl

-- The newest rows can be removed without a trace in the chain itself.
second_removed : verify weight acme (first ∷ []) ≡ record { entries = 1; broken = none }
unfolding verify
second_removed = refl

first_altered :
    verify weight acme (record first { payload = 9 ∷ [] } ∷ second ∷ [])
    ≡ record { entries = 1; broken = some (1, altered) }
unfolding verify
first_altered = refl

verify-IsChain_example :
    ((verify weight acme (second ∷ first ∷ [])).broken ≡ none)
    ↔ IsChain weight acme 0 (genesis_hash weight) (by_seq (rows_of acme (second ∷ first ∷ [])))
verify-IsChain_example = verify-IsChain weight acme (second ∷ first ∷ [])

write-IsExtended_example :
    Ensures
      (IsExtended weight (second ∷ first ∷ []) acme)
      (λ fault. encode_entry plain granted ≡ err fault)
      (write weight plain (second ∷ first ∷ []) granted)
unfolding verify
write-IsExtended_example = write-IsExtended weight plain (second ∷ first ∷ []) granted refl

row_bytes_injective_example : IsSame first first
row_bytes_injective_example = row_bytes_injective acme first first refl refl

verify-Same_example :
    Same (by_seq (rows_of acme (second ∷ first ∷ []))) (by_seq (rows_of acme (first ∷ second ∷ [])))
unfolding verify head
verify-Same_example =
    verify-Same weight acme (second ∷ first ∷ []) (first ∷ second ∷ []) (λ x y. refl) refl refl refl
      refl ((λ q. refl), ((λ q. refl), tt))
