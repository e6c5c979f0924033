-- ===== src/Webhooks/Retry.antt =====
-- internal/modules/webhooks/domain/webhook.go, Backoff and Retryable, and the Result and Send of
-- internal/modules/webhooks/app/deliver.go: which attempts are repeated, and when.
use collectr.Prelude.{
  ℕ, zero, suc, ◌+◌, ◌-◌, ◌*◌, ◌/◌, ◌%◌, ◌^◌, ◌≤◌, ◌<◌, ◌≡◌, refl, List, [], Bool, true, false,
  ◌&&◌, ◌||◌, Option, none, some, ltb, leb, eqb, if◌then◌else◌, arith,
}

-- A time.Duration in nanoseconds.
abbrev pub second : ℕ
second = 1000000000

abbrev pub max_attempts : ℕ
max_attempts = 8

abbrev pub disable_after_failures : ℕ
disable_after_failures = 20

-- Retryable: status 0 stands for no response.
unfoldable pub retryable : ℕ → Bool
retryable status = eqb status 0 || eqb status 408 || eqb status 429 || leb 500 status

abbrev pub Bytes : Type 0
Bytes = List ℕ

-- What the HTTP client reports, with its text: ECONNREFUSED, or another failure.
pub data SendError : Type 0 where
  connection_refused : Bytes → SendError
  other : Bytes → SendError

pub record Attempt : Type 0 where
  pub status_code : ℕ
  pub snippet : Bytes
  pub failure : Option SendError

unfoldable pub is_delivered : Attempt → Bool
is_delivered r = elim r.failure [
  | some e ↦ false
  | none ↦ leb 200 r.status_code && ltb r.status_code 300
]

unfoldable pub attempt_retryable : Attempt → Bool
unfolding retryable
attempt_retryable r = elim r.failure [
  | some e ↦ elim e [ connection_refused text ↦ true | other text ↦ eqb r.status_code 0 ]
  | none ↦ retryable r.status_code
]

-- What the network makes of a request: it cannot be built, it fails, or it is answered.
pub data Reply : Type 0 where
  not_built : Bytes → Reply
  failed : SendError → Reply
  answered : ℕ → Bytes → Reply

-- The results of Send.
unfoldable pub send : Reply → Attempt
send (not_built text) = record { status_code = 0; snippet = []; failure = some (other text) }
send (failed e) = record { status_code = 0; snippet = []; failure = some e }
send (answered status body) = record { status_code = status; snippet = body; failure = none }

-- math.Pow(3, n)
unfoldable pub pow3 : ℕ → ℕ
pow3 zero = 1
pow3 (suc n) = 3 * pow3 n

-- `base` times 3 ^ (attempt - 1) in 64 bits. A float64 holds that power exactly up to 3 ^ 33.
unfoldable pub product : ℕ → ℕ
unfolding pow3
product attempt = pow3 (attempt - 1) * (10 * second) % 2 ^ 64

abbrev pub longest : ℕ
longest = 12 * (3600 * second)

-- Half of the wait and up to as much again; `draw n` is rand.Int64N(n), which panics at 0 and below.
unfoldable pub jitter : ℕ → (ℕ → ℕ) → ℕ
jitter wait draw = let half = wait / 2 in half + draw (half + 1)

-- `none` is a panic: a product that is negative as an int64 is below the limit of 12 hours.
unfoldable pub backoff : ℕ → (ℕ → ℕ) → Option ℕ
unfolding product jitter
backoff attempt draw =
    let p = product attempt in
    if leb (2 ^ 63) p
    then (if leb 1 ((2 ^ 64 - p) / 2) then none else some (draw 1))
    else some (jitter (if ltb longest p then longest else p) draw)

-- Whatever keeps a request from being answered, Send reports an attempt that counts as worth
-- repeating.
send-retryable : (e : SendError) → attempt_retryable (send (failed e)) ≡ true
unfolding send attempt_retryable
send-retryable (connection_refused text) = refl
send-retryable (other text) = refl

pow3_pos : (n : ℕ) → 1 ≤ pow3 n
unfolding pow3
pow3_pos zero = omega arith
pow3_pos (suc n) = omega (arith, pow3_pos n)

pow3_mono : (n m : ℕ) → n ≤ m → pow3 n ≤ pow3 m
unfolding pow3
pow3_mono zero m h = pow3_pos m
pow3_mono (suc n) zero h = absurd (omega arith)
pow3_mono (suc n) (suc m) h = omega (arith, pow3_mono n m (omega arith))

pow3_18 : pow3 18 ≡ 387420489
unfolding pow3
pow3_18 = refl

product_exact : (n : ℕ) → n ≤ 19 → product n ≡ pow3 (n - 1) * 10000000000
unfolding product
product_exact n h = omega (arith, pow3_mono (n - 1) 18 (omega arith), pow3_18)

-- What the wait of an attempt should be.
abbrev pub wait : ℕ → ℕ
wait n = let b = pow3 (n - 1) * (10 * second) in if ltb longest b then longest else b

product_positive : (n : ℕ) → n ≤ 19 → leb (2 ^ 63) (product n) ≡ false
product_positive n h =
    ground (arith, product_exact n h, pow3_mono (n - 1) 18 (omega arith), pow3_18)

jitter_bounds :
    (w : ℕ) (draw : ℕ → ℕ)
    → ((k : ℕ) → 1 ≤ k → draw k < k)
    → (w / 2 ≤ jitter w draw) × (jitter w draw ≤ w)
unfolding jitter
jitter_bounds w draw fair = (omega arith, omega (arith, fair (w / 2 + 1) (omega arith)))

-- Up to attempt 19, which is more than a delivery ever reaches, Backoff does not panic, and the
-- delay is between half the wait and the wait, which triples from 10 seconds up to 12 hours, if the
-- random draw is below its argument.
pub backoff-wait :
    (n : ℕ) (draw : ℕ → ℕ)
    → n ≤ 19
    → ((k : ℕ) → 1 ≤ k → draw k < k)
    → (d : ℕ) × (backoff n draw ≡ some d) × (wait n / 2 ≤ d) × (d ≤ wait n)
unfolding backoff
backoff-wait n draw h fair =
    let (low, high) = jitter_bounds (wait n) draw fair in
    (jitter (wait n) draw, rw (product_positive n h, product_exact n h) refl, low, high)
