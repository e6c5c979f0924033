-- ===== src/Audit/Chain.antt =====
-- internal/modules/audit/chain.go: Write appends a row to a tenant's chain, Verify walks it.
-- The table is the list of its rows; a sequence number is a ℕ, as Write counts them from 1.
use collectr.Prelude.{
  Bytes, eq_bytes, decimal, ℕ, suc, not, Option, none, some, List, [], ◌∷◌, ◌++◌, eqb, leb,
  if◌then◌else◌, Result, ok, err, ◌>>=◌,
}
use collectr.Audit.Encoding.{write_field}

pub record Row : Type 0 where
  pub tenant : Bytes
  pub seq : ℕ
  pub actor : Bytes
  pub action : Bytes
  pub target : Bytes
  pub payload : Bytes
  pub prev_hash : Bytes
  pub hash : Bytes

-- encoding/json at the types that it is called with.
pub record Json : Type 1 where
  pub Actor : Type 0
  pub Object : Type 0
  pub empty_object : Object
  pub marshal_actor : Actor → Option Bytes
  pub marshal_object : Object → Option Bytes

-- contracts.AuditEntry; `none` is a nil map.
pub record Entry (json : Json) : Type 0 where
  pub tenant : Bytes
  pub actor : json.Actor
  pub action : Bytes
  pub target : Option json.Object
  pub payload : Option json.Object

pub data WriteError : Type 0 where
  encoding_actor encoding_target encoding_payload : WriteError

pub data Reason : Type 0 where
  sequence_jumps wrong_previous altered : Reason

-- The `Entries`, and `BrokenAt` with `Reason` where `Valid` is false.
pub record VerifyResult : Type 0 where
  pub entries : ℕ
  pub broken : Option (ℕ × Reason)

-- WHERE tenant_id = $1
unfoldable pub rows_of : Bytes → List Row → List Row
unfolding eq_bytes
rows_of t [] = []
rows_of t (r ∷ rest) =
    let later = rows_of t rest in if eq_bytes r.tenant t then r ∷ later else later

-- ORDER BY seq
unfoldable pub insert_row : Row → List Row → List Row
insert_row r [] = r ∷ []
insert_row r (q ∷ rest) =
    let later = insert_row r rest in if leb r.seq q.seq then r ∷ q ∷ rest else q ∷ later

unfoldable pub by_seq : List Row → List Row
unfolding insert_row
by_seq [] = []
by_seq (r ∷ rest) = insert_row r (by_seq rest)

unfoldable pub or_empty : (json : Json) → Option json.Object → json.Object
or_empty json none = json.empty_object
or_empty json (some m) = m

unfoldable pub encoded : WriteError → Option Bytes → Result WriteError Bytes
encoded e none = err e
encoded e (some b) = ok b

pub record Encoded : Type 0 where
  pub actor : Bytes
  pub target : Bytes
  pub payload : Bytes

-- The three json.Marshal of Write.
unfoldable pub encode_entry : (json : Json) → Entry json → Result WriteError Encoded
unfolding encoded or_empty
encode_entry json e = do
  actor ← encoded encoding_actor (json.marshal_actor e.actor)
  target ← encoded encoding_target (json.marshal_object (or_empty json e.target))
  payload ← encoded encoding_payload (json.marshal_object (or_empty json e.payload))
  ok (record { actor = actor; target = target; payload = payload })

-- The bytes of `collectr.audit.genesis.v1`.
abbrev pub genesis_text : Bytes
genesis_text =
    99 ∷ 111 ∷ 108 ∷ 108 ∷ 101 ∷ 99 ∷ 116 ∷ 114 ∷ 46 ∷ 97 ∷ 117 ∷ 100 ∷ 105 ∷ 116 ∷ 46 ∷ 103 ∷ 101
    ∷ 110 ∷ 101 ∷ 115 ∷ 105 ∷ 115 ∷ 46 ∷ 118 ∷ 49 ∷ []

-- What is hashed for a row whose predecessor has the hash `prev`.
unfoldable pub row_bytes : Bytes → Bytes → ℕ → Bytes → Bytes → Bytes → Bytes → Bytes
unfolding write_field
row_bytes prev tenant seq action actor target payload =
    prev
    ++ (write_field tenant
        ++ (write_field (decimal seq)
            ++ (write_field action
                ++ (write_field actor ++ (write_field target ++ write_field payload)))))

-- `hash` is SHA-256.
module _ (sum : Bytes → Bytes) where
  unfoldable pub chain_hash : Bytes → Bytes → ℕ → Bytes → Bytes → Bytes → Bytes → Bytes
  unfolding row_bytes
  chain_hash prev tenant seq action actor target payload =
      sum (row_bytes prev tenant seq action actor target payload)

  abbrev pub genesis_hash : Bytes
  genesis_hash = sum genesis_text

  -- ORDER BY seq DESC LIMIT 1, or the start of a chain.
  unfoldable pub last_of : List Row → ℕ × Bytes → ℕ × Bytes
  last_of [] h = h
  last_of (r ∷ rest) h = last_of rest (r.seq, r.hash)

  unfoldable pub head : Bytes → List Row → ℕ × Bytes
  unfolding last_of by_seq rows_of
  head t table = last_of (by_seq (rows_of t table)) (0, genesis_hash)

  unfoldable pub new_row : ℕ × Bytes → Bytes → Bytes → Bytes → Bytes → Bytes → Row
  unfolding chain_hash
  new_row h t action actor target payload = record {
    tenant = t;
    seq = suc h.0;
    actor = actor;
    action = action;
    target = target;
    payload = payload;
    prev_hash = h.1;
    hash = chain_hash h.1 t (suc h.0) action actor target payload;
  }

  unfoldable pub write : (json : Json) → List Row → Entry json → Result WriteError (List Row)
  unfolding encode_entry head new_row
  write json table e = do
    c ← encode_entry json e
    ok (table ++ new_row (head e.tenant table) e.tenant e.action c.actor c.target c.payload ∷ [])

  abbrev pub broken_at : ℕ → ℕ → Reason → VerifyResult
  broken_at entries seq reason = record { entries = entries; broken = some (seq, reason) }

  -- The tests on one row, after the hash `prev`, where the number `expected` is due.
  unfoldable pub fault : Bytes → Bytes → ℕ → Row → Option Reason
  unfolding eq_bytes chain_hash
  fault t prev expected r =
      if not (eqb r.seq expected)
      then some sequence_jumps
      else if not (eq_bytes r.prev_hash prev)
      then some wrong_previous
      else if eq_bytes (chain_hash r.prev_hash t r.seq r.action r.actor r.target r.payload) r.hash
      then none
      else some altered

  -- The loop of Verify; `n` rows are read.
  unfoldable pub verify_rows : Bytes → ℕ → Bytes → ℕ → List Row → VerifyResult
  unfolding fault
  verify_rows t n prev expected [] = record { entries = n; broken = none }
  verify_rows t n prev expected (r ∷ rest) =
      let later = verify_rows t (suc n) r.hash (suc expected) rest in
      elim (fault t prev expected r) [ some reason ↦ broken_at (suc n) r.seq reason | none ↦ later ]

  unfoldable pub verify : Bytes → List Row → VerifyResult
  unfolding verify_rows by_seq rows_of
  verify t table = verify_rows t 0 genesis_hash 1 (by_seq (rows_of t table))
