-- ===== src/Webhooks/Delivery.antt =====
-- The life of one delivery and of its endpoint: attempt of internal/modules/webhooks/app/dispatcher.go
-- and the updates of internal/modules/webhooks/store/store.go. Times are ℕ.
use collectr.Prelude.{
  ℕ, zero, suc, ◌+◌, Bool, true, false, ◌&&◌, ◌||◌, not, Option, none, some, [], ◌∷◌, ltb, leb, eqb,
  if◌then◌else◌, length,
}
use collectr.Webhooks.Retry.{
  Bytes, connection_refused, other, Attempt, Reply, send, is_delivered, attempt_retryable, backoff,
  max_attempts, disable_after_failures,
}

pub data Status : Type 0 where
  pending delivered failed dead : Status

pub record Delivery : Type 0 where
  pub status : Status
  pub attempt : ℕ
  pub next_attempt_at : ℕ
  pub response_code : Option ℕ
  pub response_snippet : Bytes

-- `disabled` says that `disabled_at` is set.
pub record Webhook : Type 0 where
  pub active : Bool
  pub disabled : Bool
  pub consecutive_failures : ℕ

pub record State : Type 0 where
  pub row : Delivery
  pub hook : Webhook

unfoldable pub is_pending : Status → Bool
is_pending s = elim s [ pending ↦ true | _ ↦ false ]

unfoldable pub take_bytes : ℕ → Bytes → Bytes
take_bytes zero b = []
take_bytes (suc n) [] = []
take_bytes (suc n) (x ∷ b) = x ∷ take_bytes n b

unfoldable pub truncate : Bytes → Bytes
unfolding take_bytes
truncate s = if ltb 1024 (length s) then take_bytes 1024 s else s

unfoldable pub null_int : ℕ → Option ℕ
null_int n = if eqb n 0 then none else some n

-- The WHERE of ClaimDue.
unfoldable pub claimable : ℕ → State → Bool
unfolding is_pending
claimable now s =
    is_pending s.row.status && leb s.row.next_attempt_at now && s.hook.active && not s.hook.disabled

unfoldable pub count_failure : Webhook → Webhook
count_failure w =
    let n = suc w.consecutive_failures in
    record w { consecutive_failures = n; disabled = w.disabled || leb disable_after_failures n }

-- snippet of dispatcher.go
unfoldable pub snippet_of : Attempt → Bytes
snippet_of r = elim r.failure [
  | some e ↦ elim e [ connection_refused text ↦ text | other text ↦ text ]
  | none ↦ r.snippet
]

-- An error of a store call is logged and nothing else: the row and the endpoint stay as they were.
unfoldable pub logged : State → Option State → State
logged s none = s
logged s (some t) = t

-- `is_text` says of bytes that a TEXT column takes them: UTF-8 without a NUL.
module _ (is_text : Bytes → Bool) where
  -- An UPDATE that sets response_snippet; `none` is its error, which undoes its transaction.
  unfoldable pub update_row : Bytes → State → Option State
  unfolding truncate
  update_row snippet t = if is_text (truncate snippet) then some t else none

  unfoldable pub mark_delivered : ℕ → Bytes → State → Option State
  unfolding truncate update_row
  mark_delivered code snippet s = update_row snippet (record {
    row = record s.row {
      status = delivered;
      attempt = suc s.row.attempt;
      response_code = some code;
      response_snippet = truncate snippet;
    };
    hook = record s.hook { consecutive_failures = 0 };
  })

  unfoldable pub mark_retry : ℕ → Bytes → ℕ → State → Option State
  unfolding truncate null_int update_row
  mark_retry code snippet next s = update_row snippet (record s {
    row = record s.row {
      attempt = suc s.row.attempt;
      next_attempt_at = next;
      response_code = null_int code;
      response_snippet = truncate snippet;
    };
  })

  unfoldable pub mark_failed : ℕ → Bytes → Status → State → Option State
  unfolding truncate null_int count_failure update_row
  mark_failed code snippet final s = update_row snippet (record {
    row = record s.row {
      status = final;
      attempt = suc s.row.attempt;
      response_code = null_int code;
      response_snippet = truncate snippet;
    };
    hook = count_failure s.hook;
  })

  -- The `switch` of attempt, on the row as it was claimed; `none` is a panic of Backoff.
  unfoldable pub record_attempt : ℕ → Attempt → ℕ → (ℕ → ℕ) → State → Option State
  unfolding is_delivered attempt_retryable backoff mark_delivered mark_retry mark_failed snippet_of
      logged
  record_attempt claimed r now draw s =
      if is_delivered r
      then some (logged s (mark_delivered r.status_code r.snippet s))
      else if attempt_retryable r && ltb (suc claimed) max_attempts
      then elim (backoff (suc claimed) draw) [
        | none ↦ none
        | some d ↦ some (logged s (mark_retry r.status_code (snippet_of r) (now + d) s))
      ]
      else some (
          logged s (
            mark_failed r.status_code (snippet_of r) (if attempt_retryable r then dead else failed)
              s))

  -- A secret that does not open leaves everything as it was.
  unfoldable pub attempt : ℕ → Option Reply → ℕ → (ℕ → ℕ) → State → Option State
  unfolding record_attempt send
  attempt claimed none now draw s = some s
  attempt claimed (some reply) now draw s = record_attempt claimed (send reply) now draw s

unfoldable pub replayable : Status → Bool
replayable s = elim s [ dead ↦ true | failed ↦ true | _ ↦ false ]

-- Replay; `none` is ErrNotFound.
unfoldable pub replay : ℕ → State → Option State
unfolding replayable
replay now s =
    if replayable s.row.status
    then some
        (record s { row = record s.row { status = pending; attempt = 0; next_attempt_at = now } })
    else none
