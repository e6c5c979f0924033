-- ===== src/Dsr/Tokens.antt =====
-- The magic links of internal/modules/dsr/store/store.go and app/service.go: IssueToken, ConsumeToken,
-- PurgeExpired and Exchange. `hash` is SHA-256.
use collectr.Prelude.{
  ℕ, ◌+◌, ◌≡◌, refl, sym, ap, ◌∙◌, Bool, true, false, ◌&&◌, ◌||◌, not, Option, none, some, List, [],
  ◌∷◌, ltb, if◌then◌else◌, Result, ok, err, ◌>>=◌, Bytes, eq_bytes, arith, Option-cases, inl, inr,
}
use collectr.Dsr.Requests.{Scope, DsrError, token_invalid, Session}

-- consent.dsr_tokens
pub record Token : Type 0 where
  pub token_hash : Bytes
  pub subject : ℕ
  pub scope : Scope
  pub submission : Option ℕ
  pub expires_at : ℕ
  pub used_at : Option ℕ

abbrev pub session_ttl : ℕ
session_ttl = 1800000000000

abbrev pub unused : Token → Bool
unused t = elim t.used_at [ none ↦ true | some _ ↦ false ]

unfoldable pub new_token : Bytes → ℕ → Scope → Option ℕ → ℕ → ℕ → Token
new_token hash subject scope submission now ttl = record {
  token_hash = hash;
  subject = subject;
  scope = scope;
  submission = submission;
  expires_at = now + ttl;
  used_at = none;
}

-- WHERE token_hash = $1 AND used_at IS NULL AND expires_at > now()
unfoldable pub usable : Bytes → ℕ → Token → Bool
unfolding eq_bytes
usable hash now t = eq_bytes t.token_hash hash && unused t && ltb now t.expires_at

unfoldable pub mark_used : Bytes → ℕ → List Token → List Token
unfolding usable
mark_used hash now [] = []
mark_used hash now (t ∷ rest) =
    let later = mark_used hash now rest in
    if usable hash now t then record t { used_at = some now } ∷ later else t ∷ later

unfoldable pub first_usable : Bytes → ℕ → List Token → Option Token
unfolding usable
first_usable hash now [] = none
first_usable hash now (t ∷ rest) =
    let later = first_usable hash now rest in if usable hash now t then some t else later

-- ConsumeToken of the token with this hash.
unfoldable pub consume_token : Bytes → ℕ → List Token → Result DsrError (List Token × Token)
unfolding mark_used first_usable
consume_token hash now tokens = elim (first_usable hash now tokens) [
  | none ↦ err token_invalid
  | some t ↦ ok (mark_used hash now tokens, t)
]

unfoldable pub stale : ℕ → Token → Bool
stale cutoff t = ltb t.expires_at cutoff || elim t.used_at [ none ↦ false | some u ↦ ltb u cutoff ]

-- The first DELETE of PurgeExpired.
unfoldable pub purge_tokens : ℕ → List Token → List Token
unfolding stale
purge_tokens cutoff [] = []
purge_tokens cutoff (t ∷ rest) =
    let later = purge_tokens cutoff rest in if stale cutoff t then later else t ∷ later

-- Service.Exchange
unfoldable pub exchange : Bytes → ℕ → List Token → Result DsrError (List Token × Session)
unfolding consume_token
exchange hash now tokens = do
  consumed ← consume_token hash now tokens
  let t = consumed.1
  ok (
    consumed.0,
    record {
      subject = t.subject;
      scope = t.scope;
      submission = t.submission;
      expires_at = now + session_ttl;
    },
  )

-- What later calls do to the tokens, none of which issues one with the hash `h` again.
pub data Moves (h : Bytes) : List Token → List Token → Type 0 where
  stop : {l : List Token} → Moves h l l
  issue :
      {l l' : List Token} (hash : Bytes) (subject : ℕ) (scope : Scope) (submission : Option ℕ)
      (now ttl : ℕ)
      → eq_bytes hash h ≡ false
      → Moves h (new_token hash subject scope submission now ttl ∷ l) l'
      → Moves h l l'
  consume :
      {l l' : List Token} (hash : Bytes) (now : ℕ)
      → Moves h (mark_used hash now l) l'
      → Moves h l l'
  purge : {l l' : List Token} (cutoff : ℕ) → Moves h (purge_tokens cutoff l) l' → Moves h l l'

-- No token with this hash is unused.
is_spent : Bytes → List Token → Bool
is_spent h [] = true
is_spent h (t ∷ rest) = not (eq_bytes t.token_hash h && unused t) && is_spent h rest

is_spent-mark_used :
    (h hash : Bytes) (now : ℕ) (l : List Token)
    → is_spent h l ≡ true
    → is_spent h (mark_used hash now l) ≡ true
unfolding is_spent mark_used
is_spent-mark_used h hash now [] s = refl
is_spent-mark_used h hash now (t ∷ l) s = ground (arith, s, is_spent-mark_used h hash now l)

is_spent-purge :
    (h : Bytes) (cutoff : ℕ) (l : List Token)
    → is_spent h l ≡ true
    → is_spent h (purge_tokens cutoff l) ≡ true
unfolding is_spent purge_tokens
is_spent-purge h cutoff [] s = refl
is_spent-purge h cutoff (t ∷ l) s = ground (arith, s, is_spent-purge h cutoff l)

is_spent-Moves :
    (h : Bytes) {l l' : List Token} → Moves h l l' → is_spent h l ≡ true → is_spent h l' ≡ true
is_spent-Moves h stop s = s
is_spent-Moves h (issue hash subject scope submission now ttl other m) s =
    is_spent-Moves h m (unfold is_spent new_token in (ground (arith, other, s)))
is_spent-Moves h (consume {l} hash now m) s = is_spent-Moves h m (is_spent-mark_used h hash now l s)
is_spent-Moves h (purge {l} cutoff m) s = is_spent-Moves h m (is_spent-purge h cutoff l s)

is_absent : Bytes → List Token → Bool
is_absent h [] = true
is_absent h (t ∷ rest) = not (eq_bytes t.token_hash h) && is_absent h rest

-- `token_hash BYTEA NOT NULL UNIQUE`, for one hash.
unfoldable pub is_unique : Bytes → List Token → Bool
unfolding is_absent
is_unique h [] = true
is_unique h (t ∷ rest) = if eq_bytes t.token_hash h then is_absent h rest else is_unique h rest

absent-spent :
    (h : Bytes) (now : ℕ) (l : List Token)
    → is_absent h l ≡ true
    → is_spent h (mark_used h now l) ≡ true
unfolding is_absent is_spent mark_used usable
absent-spent h now [] a = refl
absent-spent h now (t ∷ l) a = ground (arith, a, absent-spent h now l)

first_usable-absent :
    (h : Bytes) (now : ℕ) (l : List Token) → is_absent h l ≡ true → first_usable h now l ≡ none
unfolding is_absent first_usable usable
first_usable-absent h now [] a = refl
first_usable-absent h now (t ∷ l) a = ground (arith, a, first_usable-absent h now l)

consumed-spent :
    (h : Bytes) (now : ℕ) (l : List Token) (t : Token)
    → is_unique h l ≡ true
    → first_usable h now l ≡ some t
    → is_spent h (mark_used h now l) ≡ true
unfolding is_unique is_spent mark_used first_usable usable
consumed-spent h now [] t u q = cc
consumed-spent h now (x ∷ l) t u q =
    ground
      (arith, u, q, consumed-spent h now l t, absent-spent h now l, first_usable-absent h now l)

spent-none :
    (h : Bytes) (now : ℕ) (l : List Token) → is_spent h l ≡ true → first_usable h now l ≡ none
unfolding is_spent first_usable usable
spent-none h now [] s = refl
spent-none h now (t ∷ l) s = ground (arith, s, spent-none h now l)

-- A magic link works once: after Exchange has given a session for it, and whatever tokens are then
-- issued, used or purged, it gives no other, if the hash of each token is its own.
pub exchange_once :
    (h : Bytes) (now now' : ℕ) (tokens tokens1 tokens2 : List Token) (s : Session)
    → is_unique h tokens ≡ true
    → exchange h now tokens ≡ ok (tokens1, s)
    → Moves h tokens1 tokens2
    → exchange h now' tokens2 ≡ err token_invalid
unfolding exchange consume_token
exchange_once h now now' tokens tokens1 tokens2 s u q m =
    elim (Option-cases (first_usable h now tokens)) [
      | inl unusable ↦ absurd (ground (arith, q, unusable))
      | inr (t, found) ↦
          let same : mark_used h now tokens ≡ tokens1 = ground (arith, q, found) in
          let spent = consumed-spent h now tokens t u found in
          let still = is_spent-Moves h m (ap (is_spent h) (sym same) ∙ spent) in
          rw (spent-none h now' tokens2 still, exchange, consume_token) refl
    ]
