-- ===== src/Webhooks/Examples.antt =====
-- Deliveries to run, and the theorems on deliveries at these.
use collectr.Prelude.{
  ℕ, ◌*◌, ◌/◌, ◌≤◌, ◌≡◌, refl, Bool, true, false, none, some, List, [], ◌∷◌, arith, Ensures, ok,
}
use collectr.Webhooks.Retry.{
  Bytes, Reply, answered, failed, connection_refused, second, backoff, wait, backoff-wait,
}
use collectr.Webhooks.Address.{
  Address, v4, v6, nat64_prefix, is_private_v4, is_private_ip, dial_address,
}
use collectr.Webhooks.Reach.{
  Writes, is_private_ip-Writes, Dialled, NotDialled, dial_address-Dialled,
}
use collectr.Webhooks.Signing.{signature, verify_signature, verify_signature_binds}
use collectr.Webhooks.Delivery.{Status, State, is_pending, attempt, claimable}
use collectr.Webhooks.Lifecycle.{
  Step, attempted, here, next, IsSound, Reach-IsSound, attempt_all, attempts_end,
}

abbrev metadata_service : Address
metadata_service = v6 nat64_prefix 169 254 169 254

is_private_ip-Writes_example : is_private_ip metadata_service ≡ is_private_v4 169 254 169 254
is_private_ip-Writes_example =
    is_private_ip-Writes 169 254 169 254 metadata_service Writes.translated

public_host : dial_address (v4 203 0 113 9 ∷ []) ≡ ok (v4 203 0 113 9)
unfolding dial_address
public_host = refl

dial_address-Dialled_example :
    Ensures
      (Dialled (v4 203 0 113 9 ∷ metadata_service ∷ []))
      (NotDialled (v4 203 0 113 9 ∷ metadata_service ∷ []))
      (dial_address (v4 203 0 113 9 ∷ metadata_service ∷ []))
dial_address-Dialled_example = dial_address-Dialled (v4 203 0 113 9 ∷ metadata_service ∷ [])

abbrev no_jitter : ℕ → ℕ
no_jitter n = 0

-- All bytes are text.
abbrev any_text : Bytes → Bool
any_text b = true

abbrev queued : State
queued = record {
  row = record {
    status = Status.pending;
    attempt = 0;
    next_attempt_at = 0;
    response_code = none;
    response_snippet = [];
  };
  hook = record { active = true; disabled = false; consecutive_failures = 0 };
}

abbrev accepted : State
accepted = record {
  row = record {
    status = Status.delivered;
    attempt = 1;
    next_attempt_at = 0;
    response_code = some 204;
    response_snippet = [];
  };
  hook = record { active = true; disabled = false; consecutive_failures = 0 };
}

abbrev refused : State
refused = record {
  row = record {
    status = Status.failed;
    attempt = 2;
    next_attempt_at = 0;
    response_code = some 410;
    response_snippet = [];
  };
  hook = record { active = true; disabled = false; consecutive_failures = 1 };
}

queued-accepted : attempt any_text 0 (some (answered 204 [])) 5 no_jitter queued ≡ some accepted
unfolding attempt
queued-accepted = refl

-- A body of the byte 255 is not UTF-8: the delivery is not recorded, and the row waits as before.
not_recorded :
    attempt
      (λ b. elim b [ [] ↦ true | _ ∷ _ ↦ false ])
      0
      (some (answered 204 (255 ∷ [])))
      5
      no_jitter
      queued
    ≡ some queued
unfolding attempt
not_recorded = refl

-- A second worker that had claimed the row before it was delivered makes it a failure.
accepted-refused : attempt any_text 0 (some (answered 410 [])) 6 no_jitter accepted ≡ some refused
unfolding attempt
accepted-refused = refl

third_wait : backoff 3 no_jitter ≡ some (45 * second)
unfolding backoff
third_wait = refl

backoff-wait_example : (d : ℕ) × (backoff 3 no_jitter ≡ some d) × (wait 3 / 2 ≤ d) × (d ≤ wait 3)
backoff-wait_example = backoff-wait 3 no_jitter (omega arith) (λ k h. h)

queued-IsSound : IsSound queued
queued-IsSound = ((λ p. omega arith), omega arith, λ h. absurd (omega (arith, h)))

one-Step : Step any_text queued accepted
unfolding claimable attempt
one-Step = attempted 5 (some (answered 204 [])) no_jitter (λ k h. h) refl refl

Reach-IsSound_example : IsSound accepted
Reach-IsSound_example = Reach-IsSound any_text (next here one-Step) queued-IsSound

elsewhere-Step : Step any_text accepted accepted
unfolding attempt
elsewhere-Step =
    Step.elsewhere {t = accepted} accepted queued.row 5 (some (answered 204 [])) no_jitter
      (λ k h. h) refl

abbrev eight_failures : List (ℕ × Reply)
eight_failures =
    (1, failed (connection_refused []))
    ∷ (20, answered 503 [])
    ∷ (60, answered 429 [])
    ∷ (200, answered 500 [])
    ∷ (600, failed (connection_refused []))
    ∷ (2000, answered 408 [])
    ∷ (6000, answered 503 [])
    ∷ (20000, answered 503 [])
    ∷ []

attempts_end_example :
    (s' : State) × (attempt_all any_text no_jitter eight_failures queued ≡ some s')
    × (is_pending s'.row.status ≡ false)
attempts_end_example =
    attempts_end any_text no_jitter eight_failures queued (λ k h. h)
      (refl, (refl, (refl, (refl, (refl, (refl, (refl, (refl, tt)))))))) (λ p. omega arith)
      (omega arith)

-- A code that tells every text from every other, in place of HMAC.
abbrev plain_mac : Bytes → Bytes → Bytes
plain_mac secret m = m

abbrev body : Bytes
body = 123 ∷ 125 ∷ []

late_refused :
    verify_signature plain_mac []
      (signature plain_mac [] 1000 body)
      1000
      body
      (1400 * second)
      (300 * second)
    ≡ false
unfolding verify_signature signature
late_refused = refl

verify_signature_binds_example : (◌≡◌ {A = ℕ} 1000 1000) × (body ≡ body)
unfolding verify_signature signature
verify_signature_binds_example =
    verify_signature_binds plain_mac [] (signature plain_mac [] 1000 body) 1000 1000 body body
      (1200 * second) (1100 * second) (300 * second) (λ q. q) refl refl
