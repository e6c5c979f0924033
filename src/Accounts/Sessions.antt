-- ===== src/Accounts/Sessions.antt =====
-- Sessions that stay revoked, of those that a test picks: internal/modules/iam/store/store.go.
use collectr.Prelude.{
  ℕ, ◌≡◌, refl, sym, ap, ◌∙◌, Bool, true, false, ◌&&◌, not, Option, none, some, List, [], ◌∷◌,
  if◌then◌else◌, Bytes, arith, Bool-cases, inl, inr,
}
use collectr.Accounts.Tables.{SessionRow}
use collectr.Accounts.Store.{is_null, is_live, live_session, revoke_where, purge_sessions}

-- None of the sessions that `mine` picks is left open.
unfoldable pub all_revoked : (SessionRow → Bool) → List SessionRow → Bool
all_revoked mine [] = true
all_revoked mine (s ∷ rest) = not (mine s && is_null s.revoked_at) && all_revoked mine rest

-- What happens to sessions until one that `mine` picks is created.
pub data Quiet (mine : SessionRow → Bool) : List SessionRow → List SessionRow → Type 0 where
  stop : {l : List SessionRow} → Quiet mine l l
  create :
      {l l' : List SessionRow} (s : SessionRow)
      → mine s ≡ false
      → Quiet mine (s ∷ l) l'
      → Quiet mine l l'
  revoke :
      {l l' : List SessionRow} (p : SessionRow → Bool) (now : ℕ)
      → Quiet mine (revoke_where p now l) l'
      → Quiet mine l l'
  purge :
      {l l' : List SessionRow} (cutoff : ℕ)
      → Quiet mine (purge_sessions cutoff l) l'
      → Quiet mine l l'

pub all_revoked-revoke_mine :
    (mine : SessionRow → Bool) (now : ℕ) (l : List SessionRow)
    → all_revoked mine (revoke_where mine now l) ≡ true
unfolding all_revoked revoke_where
all_revoked-revoke_mine mine now [] = refl
all_revoked-revoke_mine mine now (s ∷ l) = ground (arith, all_revoked-revoke_mine mine now l)

all_revoked-revoke_where :
    (mine : SessionRow → Bool) (p : SessionRow → Bool) (now : ℕ) (l : List SessionRow)
    → all_revoked mine l ≡ true
    → all_revoked mine (revoke_where p now l) ≡ true
unfolding all_revoked revoke_where
all_revoked-revoke_where mine p now [] h = refl
all_revoked-revoke_where mine p now (s ∷ l) h =
    ground (arith, h, all_revoked-revoke_where mine p now l)

all_revoked-purge :
    (mine : SessionRow → Bool) (cutoff : ℕ) (l : List SessionRow)
    → all_revoked mine l ≡ true
    → all_revoked mine (purge_sessions cutoff l) ≡ true
unfolding all_revoked purge_sessions
all_revoked-purge mine cutoff [] h = refl
all_revoked-purge mine cutoff (s ∷ l) h = ground (arith, h, all_revoked-purge mine cutoff l)

pub all_revoked-Quiet :
    (mine : SessionRow → Bool) {l l' : List SessionRow}
    → Quiet mine l l'
    → all_revoked mine l ≡ true
    → all_revoked mine l' ≡ true
all_revoked-Quiet mine stop h = h
all_revoked-Quiet mine (create s other q) h =
    all_revoked-Quiet mine q (unfold all_revoked in (ground (arith, other, h)))
all_revoked-Quiet mine (revoke {l} p now q) h =
    all_revoked-Quiet mine q (all_revoked-revoke_where mine p now l h)
all_revoked-Quiet mine (purge {l} cutoff q) h =
    all_revoked-Quiet mine q (all_revoked-purge mine cutoff l h)

is_live-open :
    (hash : Bytes) (now : ℕ) (s : SessionRow)
    → is_live hash now s ≡ true
    → is_null s.revoked_at ≡ true
unfolding is_live
is_live-open hash now s h = ground (arith, h)

open-other : (a b c : Bool) → not (a && b) && c ≡ true → b ≡ true → a ≡ false
open-other true true c h o = cc
open-other true false c h o = cc
open-other false b c h o = refl

rest_of : (a c : Bool) → a && c ≡ true → c ≡ true
rest_of true c h = h
rest_of false c h = cc

pub live_session-revoked :
    (mine : SessionRow → Bool) (hash : Bytes) (now : ℕ) (l : List SessionRow) (s : SessionRow)
    → all_revoked mine l ≡ true
    → live_session hash now l ≡ some s
    → mine s ≡ false
unfolding all_revoked live_session
live_session-revoked mine hash now [] s h q = cc
live_session-revoked mine hash now (x ∷ l) s h q =
    let later = live_session hash now l in
    let found : Bool → Option SessionRow = λ b. if b then some x else later in
    elim (Bool-cases (is_live hash now x)) [
      | inl live ↦
          let other : mine x ≡ false =
            open-other (mine x) (is_null x.revoked_at) (all_revoked mine l) h
              (is_live-open hash now x live) in
          let same : some x ≡ some s = sym (ap found live) ∙ q in
          ap (λ o. elim o [ none ↦ false | some t ↦ mine t ]) (sym same) ∙ other
      | inr dead ↦
          live_session-revoked mine hash now l s
            (rest_of (not (mine x && is_null x.revoked_at)) (all_revoked mine l) h)
            (sym (ap found dead) ∙ q)
    ]
