-- ===== src/Webhooks/Lifecycle.antt =====
-- What one worker can make of a delivery: attempts end, and what is final stays.
use collectr.Prelude.{
  ℕ, suc, ◌+◌, ◌≤◌, ◌<◌, ◌≡◌, refl, ◌∙◌, subst, Bool, true, false, ◌&&◌, Option, none, some, List,
  [], ◌∷◌, ltb, if◌then◌else◌, length, arith, Bool-cases, inl, inr, ◌⊎◌, sym, All,
}
use mathlib.Core.Option.{some-injective}
use collectr.Webhooks.Retry.{
  Bytes, Attempt, Reply, send, is_delivered, attempt_retryable, backoff-wait,
}
use collectr.Webhooks.Delivery.{
  Status, pending, delivered, dead, failed, State, Delivery, truncate, logged, update_row, Webhook,
  is_pending, claimable, mark_delivered, mark_retry, count_failure, mark_failed, record_attempt,
  snippet_of, attempt, replay, replayable,
}

-- rand.Int64N gives a number below its argument.
abbrev pub IsFair : (ℕ → ℕ) → Type 0
IsFair draw = (k : ℕ) → 1 ≤ k → draw k < k

-- An endpoint that has failed 20 times in a row is disabled.
abbrev pub IsWatched : Webhook → Type 0
IsWatched w = 20 ≤ w.consecutive_failures → w.disabled ≡ true

-- A row that waits has attempts left, and a final one has at most 8.
abbrev pub IsSound : State → Type 0
IsSound s =
    (is_pending s.row.status ≡ true → s.row.attempt < 8) × (s.row.attempt ≤ 8) × IsWatched s.hook

-- What an attempt by the only worker leaves, where it is counted.
abbrev pub Outcome : State → State → Type 0
Outcome s s' =
    (s'.row.attempt ≡ suc s.row.attempt)
    × (is_pending s'.row.status ≡ true → suc s.row.attempt < 8)
    × (IsWatched s.hook → IsWatched s'.hook)

final_status : (b : Bool) → is_pending (if b then dead else failed) ≡ false
unfolding is_pending
final_status true = refl
final_status false = refl

-- `is_text` says of bytes that a TEXT column takes them.
module _ (is_text : Bytes → Bool) where
  -- The text that is kept of an attempt can be stored.
  abbrev pub IsStorable : Bytes → Type 0
  IsStorable snippet = is_text (truncate snippet) ≡ true

  -- An attempt is counted where its text can be stored, and else leaves everything as it was.
  abbrev pub Recorded : Bytes → State → State → Type 0
  Recorded snippet s s' = (IsStorable snippet → Outcome s s') × ((s' ≡ s) ⊎ Outcome s s')

  update_row-Recorded :
      (snippet : Bytes) (s t : State)
      → Outcome s t
      → Recorded snippet s (logged s (update_row is_text snippet t))
  unfolding logged update_row
  update_row-Recorded snippet s t o = elim (Bool-cases (is_text (truncate snippet))) [
    | inl kept ↦
        let same : logged s (update_row is_text snippet t) ≡ t = rw kept refl in
        let there = subst (Outcome s) (sym same) o in ((λ _. there), inr there)
    | inr bad ↦
        let same : logged s (update_row is_text snippet t) ≡ s = rw bad refl in
        ((λ good. absurd (ground (arith, good, bad))), inl same)
  ]

  delivered-Recorded :
      (code : ℕ) (b : Bytes) (s : State) → Recorded b s (logged s (mark_delivered is_text code b s))
  unfolding mark_delivered is_pending
  delivered-Recorded code b s =
      update_row-Recorded b s _ (refl, (λ p. cc), λ w h. absurd (omega arith))

  retry-Recorded :
      (code : ℕ) (b : Bytes) (next : ℕ) (s : State)
      → suc s.row.attempt < 8
      → Recorded b s (logged s (mark_retry is_text code b next s))
  unfolding mark_retry
  retry-Recorded code b next s h = update_row-Recorded b s _ (refl, (λ p. h), λ w. w)

  failed-Recorded :
      (code : ℕ) (b : Bytes) (final : Status) (s : State)
      → is_pending final ≡ false
      → Recorded b s (logged s (mark_failed is_text code b final s))
  unfolding mark_failed count_failure
  failed-Recorded code b final s f =
      update_row-Recorded b s _ (refl, (λ p. ground (arith, p, f)), λ w h. ground (arith, h))

  delivered-snippet : (r : Attempt) → is_delivered r ≡ true → r.snippet ≡ snippet_of r
  unfolding is_delivered snippet_of
  delivered-snippet r h = ground (arith, h)

  record_attempt-Recorded :
      (r : Attempt) (now : ℕ) (draw : ℕ → ℕ) (s : State)
      → IsFair draw
      → (s' : State) × (record_attempt is_text s.row.attempt r now draw s ≡ some s')
        × Recorded (snippet_of r) s s'
  unfolding record_attempt
  record_attempt-Recorded r now draw s fair = elim (Bool-cases (is_delivered r)) [
    | inl t ↦
        let after = logged s (mark_delivered is_text r.status_code r.snippet s) in
        (
          after,
          rw t refl,
          subst (λ b. Recorded b s after) (delivered-snippet r t)
              (delivered-Recorded r.status_code r.snippet s),
        )
    | inr f ↦ elim (Bool-cases (attempt_retryable r && ltb (suc s.row.attempt) 8)) [
      | inl t ↦
          let few : suc s.row.attempt < 8 = ground arith in
          let (d, q, _, _) = backoff-wait (suc s.row.attempt) draw (omega arith) fair in
          (
            logged s (mark_retry is_text r.status_code (snippet_of r) (now + d) s),
            rw (f, t, q) refl,
            retry-Recorded r.status_code (snippet_of r) (now + d) s few,
          )
      | inr g ↦
          let final = if attempt_retryable r then dead else failed in
          (
            logged s (mark_failed is_text r.status_code (snippet_of r) final s),
            rw (f, g) refl,
            failed-Recorded r.status_code (snippet_of r) final s
                (final_status (attempt_retryable r)),
          )
    ]
  ]

-- One worker: it claims a due row and attempts it, someone replays the row, or the worker attempts
-- another delivery of the same endpoint, whatever its row is.
pub data Step (is_text : Bytes → Bool) : State → State → Type 0 where
  attempted :
      {s s' : State} (now : ℕ) (reply : Option Reply) (draw : ℕ → ℕ)
      → IsFair draw
      → claimable now s ≡ true
      → attempt is_text s.row.attempt reply now draw s ≡ some s'
      → Step is_text s s'
  replayed : {s s' : State} (now : ℕ) → replay now s ≡ some s' → Step is_text s s'
  elsewhere :
      {t : State} (s : State) (row : Delivery) (now : ℕ) (reply : Option Reply) (draw : ℕ → ℕ)
      → IsFair draw
      → attempt is_text row.attempt reply now draw (record s { row = row }) ≡ some t
      → Step is_text s (record s { hook = t.hook })

pub data Reach (is_text : Bytes → Bool) (s : State) : State → Type 0 where
  here : Reach is_text s s
  next : {t u : State} → Reach is_text s t → Step is_text t u → Reach is_text s u

claimable-pending : (now : ℕ) (s : State) → claimable now s ≡ true → is_pending s.row.status ≡ true
unfolding claimable
claimable-pending now s h = ground arith

Outcome-IsSound :
    (s s' : State) → is_pending s.row.status ≡ true → IsSound s → Outcome s s' → IsSound s'
Outcome-IsSound s s' p (few, most, watched) o =
    ((λ w. omega (arith, o.0, o.1 w)), omega (arith, o.0, few p), o.2 watched)

module _ (is_text : Bytes → Bool) where
  -- An attempt is counted, or changes nothing.
  attempt-counted :
      (now : ℕ) (reply : Option Reply) (draw : ℕ → ℕ) (s s' : State)
      → IsFair draw
      → attempt is_text s.row.attempt reply now draw s ≡ some s'
      → (s' ≡ s) ⊎ Outcome s s'
  unfolding attempt
  attempt-counted now none draw s s' fair q = inl (sym (some-injective _ _ q))
  attempt-counted now (some reply) draw s s' fair q =
      let (t, e, k) = record_attempt-Recorded is_text (send reply) now draw s fair in
      let same : t ≡ s' = some-injective _ _ (sym e ∙ q) in
      subst (λ x. (x ≡ s) ⊎ Outcome s x) same k.1

  attempt-IsSound :
      (now : ℕ) (reply : Option Reply) (draw : ℕ → ℕ) (s s' : State)
      → IsFair draw
      → is_pending s.row.status ≡ true
      → attempt is_text s.row.attempt reply now draw s ≡ some s'
      → IsSound s
      → IsSound s'
  attempt-IsSound now reply draw s s' fair p q i =
      elim (attempt-counted now reply draw s s' fair q) [
        | inl same ↦ subst IsSound (sym same) i
        | inr o ↦ Outcome-IsSound s s' p i o
      ]

  -- An endpoint is watched after an attempt of any delivery if it was.
  attempt-IsWatched :
      (now : ℕ) (reply : Option Reply) (draw : ℕ → ℕ) (s s' : State)
      → IsFair draw
      → attempt is_text s.row.attempt reply now draw s ≡ some s'
      → IsWatched s.hook
      → IsWatched s'.hook
  attempt-IsWatched now reply draw s s' fair q w =
      elim (attempt-counted now reply draw s s' fair q) [
        | inl same ↦ subst (λ (x : State). IsWatched x.hook) (sym same) w
        | inr o ↦ o.2 w
      ]

replay-IsSound : (now : ℕ) (s s' : State) → replay now s ≡ some s' → IsSound s → IsSound s'
unfolding replay
replay-IsSound now s s' q (few, most, watched) = elim (Bool-cases (replayable s.row.status)) [
  | inl t ↦
      let same : record s {
        row = record s.row { status = pending; attempt = 0; next_attempt_at = now };
      }
          ≡ s' =
        some-injective _ _ (rw t at q) in
      subst IsSound same ((λ w. omega arith), omega arith, watched)
  | inr f ↦ absurd (ground (arith, f, q))
]

module _ (is_text : Bytes → Bool) where
  Step-IsSound : {s s' : State} → Step is_text s s' → IsSound s → IsSound s'
  Step-IsSound (attempted {s} {s'} now reply draw fair c q) i =
      attempt-IsSound is_text now reply draw s s' fair (claimable-pending now s c) q i
  Step-IsSound (replayed {s} {s'} now q) i = replay-IsSound now s s' q i
  Step-IsSound (elsewhere {t} s row now reply draw fair q) (few, most, watched) = (
    few,
    most,
    attempt-IsWatched is_text now reply draw (record s { row = row }) t fair q watched,
  )

  -- Whatever one worker, replays and the other deliveries of the endpoint do, a row that waits has
  -- fewer than 8 counted attempts since it was queued or replayed, no row more than 8, and an endpoint
  -- with 20 counted failures in a row is disabled. An attempt is not counted where the text that is
  -- kept of it cannot be stored.
  pub Reach-IsSound : {s s' : State} → Reach is_text s s' → IsSound s → IsSound s'
  Reach-IsSound here i = i
  Reach-IsSound (next r t) i = Step-IsSound t (Reach-IsSound r i)

  -- A delivered row is final: no step of one worker changes it.
  delivered_stays : {s s' : State} → Step is_text s s' → s.row.status ≡ delivered → s'.row ≡ s.row
  unfolding claimable replay is_pending replayable
  delivered_stays (attempted {s} {s'} now reply draw fair c q) d = absurd (ground (arith, c, d))
  delivered_stays (replayed {s} {s'} now q) d = absurd (ground (arith, q, d))
  delivered_stays (elsewhere s row now reply draw fair q) d = refl

  -- The row is claimed again and again, as long as it waits.
  pub attempt_all : (ℕ → ℕ) → List (ℕ × Reply) → State → Option State
  unfolding is_pending
  attempt_all draw [] s = some s
  attempt_all draw ((now, reply) ∷ rest) s = elim (is_pending s.row.status) [
    | false ↦ some s
    | true ↦ elim (attempt is_text s.row.attempt (some reply) now draw s) [
      | none ↦ none
      | some s' ↦ attempt_all draw rest s'
    ]
  ]

  attempt_all-next :
      (draw : ℕ → ℕ) (now : ℕ) (reply : Reply) (rest : List (ℕ × Reply)) (s u : State)
      → is_pending s.row.status ≡ true
      → record_attempt is_text s.row.attempt (send reply) now draw s ≡ some u
      → attempt_all draw ((now, reply) ∷ rest) s ≡ attempt_all draw rest u
  unfolding attempt_all attempt
  attempt_all-next draw now reply rest s u t e = ground (arith, t, e)

  attempt_all-stop :
      (draw : ℕ → ℕ) (now : ℕ) (reply : Reply) (rest : List (ℕ × Reply)) (s : State)
      → is_pending s.row.status ≡ false
      → attempt_all draw ((now, reply) ∷ rest) s ≡ some s
  unfolding attempt_all
  attempt_all-stop draw now reply rest s f = ground (arith, f)

  -- If a row is claimed again as long as it waits, the secret opens, and the text that is kept of each
  -- attempt can be stored in a TEXT column, then, whatever the receiver answers, the row has a final
  -- status after as many rounds as it has attempts left of 8.
  pub attempts_end :
      (draw : ℕ → ℕ) (rounds : List (ℕ × Reply)) (s : State)
      → IsFair draw
      → All (λ (p : ℕ × Reply). IsStorable is_text (snippet_of (send p.1))) rounds
      → (is_pending s.row.status ≡ true → s.row.attempt < 8)
      → 8 ≤ length rounds + s.row.attempt
      → (s' : State) × (attempt_all draw rounds s ≡ some s') × (is_pending s'.row.status ≡ false)
  unfolding attempt_all
  attempts_end draw [] s fair texts few h = elim (Bool-cases (is_pending s.row.status)) [
    | inl t ↦ absurd (omega (arith, few t))
    | inr f ↦ (s, refl, f)
  ]
  attempts_end draw ((now, reply) ∷ rest) s fair (text, texts) few h =
      elim (Bool-cases (is_pending s.row.status)) [
        | inl t ↦
            let (u, e, k) = record_attempt-Recorded is_text (send reply) now draw s fair in
            let o = k.0 text in
            let (s', q, f) =
              attempts_end draw rest u fair texts (λ p. omega (arith, o.0, o.1 p))
                (omega (arith, o.0)) in
            (s', attempt_all-next draw now reply rest s u t e ∙ q, f)
        | inr f ↦ (s, attempt_all-stop draw now reply rest s f, f)
      ]
