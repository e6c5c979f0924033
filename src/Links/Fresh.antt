-- ===== src/Links/Fresh.antt =====
-- What the cache of internal/modules/links/app/service.go answers beside the database.
use collectr.Prelude.{
  ℕ, ◌≡◌, refl, sym, ap, ◌∙◌, subst, Bool, true, false, Option, none, some, List, [], ◌∷◌,
  if◌then◌else◌, Result, ok, err, ok_injective, Bytes, eq_bytes, eq_bytes-eq, eq_bytes_refl, arith,
  Bool-cases, inl, inr, ◌⊎◌,
}
use collectr.Links.Resolution.{
  LinkStatus, LinkError, link_not_found, link_gone, Resolution, check_status, check, LinkRow,
  Cached, LinkState, cache_key, get_cached, read_cached, write_cached, drop_cached, del_cached,
  set_cached, checked, answer, is_at, find_link, cached_of, found, resolve_from, resolve_at,
  resolve_link, invalidate, is_taken, insert_link, row_by_id, update_status, change_status,
}
use collectr.Links.Keys.{
  plain, some_same, both, inserted, key_apart, get_cached-del, is_key, find_link-update_status,
}

read_cached-some :
    (reads : Bool) (key : Bytes) (cache : List (Bytes × Cached)) (v : Cached)
    → read_cached reads key cache ≡ some v
    → get_cached key cache ≡ some v
unfolding read_cached
read_cached-some true key cache v q = q
read_cached-some false key cache v q = cc

module _ (lower : Bytes → Bytes) where
  -- Every entry of a place says what the table has there.
  abbrev pub IsCoherent : LinkState → Type 0
  IsCoherent st =
      (h c : Bytes) (v : Cached)
      → plain c ≡ true
      → get_cached (cache_key h c) st.cache ≡ some v
      → v ≡ cached_of (find_link lower h c st.rows)

  filled-IsCoherent :
      (h c : Bytes) (st : LinkState)
      → plain c ≡ true
      → IsCoherent st
      → IsCoherent (record st {
        cache = set_cached (cache_key h c) (cached_of (find_link lower h c st.rows)) st.cache;
      })
  unfolding set_cached get_cached
  filled-IsCoherent h c st p k h' c' v p' q =
      let key = cache_key h c in
      let r = cached_of (find_link lower h c st.rows) in
      let later = get_cached (cache_key h' c') (del_cached key st.cache) in
      let seen : Bool → Option Cached = λ b. if b then some r else later in
      elim (Bool-cases (eq_bytes key (cache_key h' c'))) [
        | inl same ↦
            let (eh, ec) = key_apart h h' c c' p p' same in
            let e : some r ≡ some v = sym (ap seen same) ∙ q in
            sym (some_same e)
            ∙ ap (λ x. cached_of (find_link lower x c st.rows)) eh
            ∙ ap (λ x. cached_of (find_link lower h' x st.rows)) ec
        | inr apart ↦
            let (other, old) =
              get_cached-del (cache_key h' c') key st.cache v (sym (ap seen apart) ∙ q) in
            k h' c' v p' old
      ]

  resolve_from-IsCoherent :
      (writes : Bool) (h c : Bytes) (now : ℕ) (st : LinkState) (o : Option Cached)
      → plain c ≡ true
      → IsCoherent st
      → IsCoherent (resolve_from lower writes h c now st o).0
  unfolding resolve_from write_cached
  resolve_from-IsCoherent writes h c now st (some v) p k = k
  resolve_from-IsCoherent true h c now st none p k = filled-IsCoherent h c st p k
  resolve_from-IsCoherent false h c now st none p k = k

  is_at-eq :
      (l : LinkRow) (h c : Bytes) → is_at lower h c l ≡ true → (l.host ≡ h) × (lower l.code ≡ c)
  unfolding is_at
  is_at-eq l h c q =
      let (eh, ec) = both (eq_bytes l.host h) (eq_bytes (lower l.code) c) q in
      (eq_bytes-eq l.host h eh, eq_bytes-eq (lower l.code) c ec)

  -- Entries that are deleted, over rows that differ from before at one place only, which is among
  -- what is deleted.
  deleted-IsCoherent :
      (lh lc : Bytes) (st : LinkState) (rows : List LinkRow)
      → IsCoherent st
      → ((h c : Bytes)
          → eq_bytes (cache_key lh lc) (cache_key h c) ≡ false
          → find_link lower h c rows ≡ find_link lower h c st.rows)
      → IsCoherent (record { rows = rows; cache = del_cached (cache_key lh lc) st.cache })
  deleted-IsCoherent lh lc st rows k same h c v p q =
      let (apart, old) = get_cached-del (cache_key h c) (cache_key lh lc) st.cache v q in
      k h c v p old ∙ ap cached_of (sym (same h c apart))

  -- A place whose key is another one is not that of the row.
  not_at :
      (l : LinkRow) (h c : Bytes)
      → lower l.host ≡ l.host
      → eq_bytes (cache_key (lower l.host) (lower l.code)) (cache_key h c) ≡ false
      → is_at lower h c l ≡ false
  not_at l h c low apart = elim (Bool-cases (is_at lower h c l)) [
    | inr away ↦ away
    | inl here ↦
        let (eh, ec) = is_at-eq l h c here in
        let e : eq_bytes (cache_key (lower l.host) (lower l.code)) (cache_key h c) ≡ true =
          ap (λ x. eq_bytes (cache_key x (lower l.code)) (cache_key h c)) (low ∙ eh)
          ∙ ap (λ x. eq_bytes (cache_key h x) (cache_key h c)) ec
          ∙ eq_bytes_refl (cache_key h c) in
        absurd (ground (arith, sym e ∙ apart))
  ]

  insert_link-IsCoherent :
      (l : LinkRow) (st st' : LinkState)
      → lower l.host ≡ l.host
      → IsCoherent st
      → insert_link lower true l st ≡ ok st'
      → IsCoherent st'
  unfolding insert_link invalidate drop_cached find_link
  insert_link-IsCoherent l st st' low k q =
      let done : LinkState =
        invalidate lower true l.host l.code (record st { rows = l ∷ st.rows }) in
      subst IsCoherent (inserted (is_taken lower l.host (lower l.code) st.rows) done q) (
        deleted-IsCoherent (lower l.host) (lower l.code) st (l ∷ st.rows) k (λ h c apart.
          ap (λ b. if b then some l.resolution else find_link lower h c st.rows)
            (not_at l h c low apart)))

  change_status-IsCoherent :
      (id : ℕ) (status : LinkStatus) (l : LinkRow) (st st' : LinkState)
      → is_key id st.rows ≡ true
      → row_by_id id st.rows ≡ some l
      → lower l.host ≡ l.host
      → IsCoherent st
      → change_status lower true id status st ≡ ok st'
      → IsCoherent st'
  unfolding change_status invalidate drop_cached
  change_status-IsCoherent id status l st st' key row low k q =
      let done : LinkRow → LinkState = λ l.
        invalidate lower true l.host l.code
          (record st { rows = update_status id status st.rows }) in
      let e : ok (done l) ≡ ok st' =
        sym (ap (λ o. elim o [ none ↦ err link_not_found | some x ↦ ok (done x) ]) row) ∙ q in
      subst IsCoherent (ok_injective e) (
        deleted-IsCoherent (lower l.host) (lower l.code) st (update_status id status st.rows) k
          (λ h c apart.
            find_link-update_status lower id status h c st.rows l key row (not_at l h c low apart)))

-- What happens to the table and the cache, one call after the other: visits, entries that are forgotten,
-- links that are created, and statuses that change. Codes have no colon; hosts are stored in lower case;
-- reads and writes of the cache may fail, and each deletion of Invalidate reaches Redis.
pub data Moves (lower : Bytes → Bytes) : LinkState → LinkState → Type 0 where
  stop : {st : LinkState} → Moves lower st st
  resolves :
      {st st' : LinkState} (reads writes : Bool) (h c : Bytes) (now : ℕ)
      → plain c ≡ true
      → Moves lower (resolve_at lower reads writes h c now st).0 st'
      → Moves lower st st'
  forgets :
      {st st' : LinkState} (key : Bytes)
      → Moves lower (record st { cache = del_cached key st.cache }) st'
      → Moves lower st st'
  inserts :
      {st st1 st' : LinkState} (l : LinkRow)
      → lower l.host ≡ l.host
      → insert_link lower true l st ≡ ok st1
      → Moves lower st1 st'
      → Moves lower st st'
  changes :
      {st st1 st' : LinkState} (id : ℕ) (status : LinkStatus) (l : LinkRow)
      → is_key id st.rows ≡ true
      → row_by_id id st.rows ≡ some l
      → lower l.host ≡ l.host
      → change_status lower true id status st ≡ ok st1
      → Moves lower st1 st'
      → Moves lower st st'

-- What Resolve may answer of what the table has at a place.
abbrev pub IsFresh : Option Resolution → ℕ → Result LinkError Resolution → Type 0
IsFresh o now r = (r ≡ found o now) ⊎ ((o ≡ none) × (r ≡ err link_gone))

answer-IsFresh : (o : Option Resolution) (now : ℕ) → IsFresh o now (answer (cached_of o) now)
unfolding answer cached_of found checked check check_status
answer-IsFresh none now = inr (refl, refl)
answer-IsFresh (some r) now = inl refl

module _ (lower : Bytes → Bytes) where
  Moves-IsCoherent :
      {st st' : LinkState} → Moves lower st st' → IsCoherent lower st → IsCoherent lower st'
  Moves-IsCoherent stop k = k
  Moves-IsCoherent (resolves {st} reads writes h c now p m) k = Moves-IsCoherent m (
      unfold resolve_at in
      (resolve_from-IsCoherent lower writes h c now st (read_cached reads (cache_key h c) st.cache)
        p k))
  Moves-IsCoherent (forgets {st} key m) k =
      Moves-IsCoherent m
        (λ h c v p q. k h c v p (get_cached-del (cache_key h c) key st.cache v q).1)
  Moves-IsCoherent (inserts {st} {st1} l low q m) k =
      Moves-IsCoherent m (insert_link-IsCoherent lower l st st1 low k q)
  Moves-IsCoherent (changes {st} {st1} id status l key row low q m) k =
      Moves-IsCoherent m (change_status-IsCoherent lower id status l st st1 key row low k q)

  resolve_from-IsFresh :
      (writes : Bool) (h c : Bytes) (now : ℕ) (st : LinkState) (o : Option Cached)
      → ((v : Cached) → o ≡ some v → v ≡ cached_of (find_link lower h c st.rows))
      → IsFresh (find_link lower h c st.rows) now (resolve_from lower writes h c now st o).1
  unfolding resolve_from
  resolve_from-IsFresh writes h c now st none k = inl refl
  resolve_from-IsFresh writes h c now st (some v) k =
      subst (λ w. IsFresh (find_link lower h c st.rows) now (answer w now)) (sym (k v refl))
        (answer-IsFresh (find_link lower h c st.rows) now)

  -- Whatever was visited, forgotten, created or changed since the cache was empty, Resolve answers what the
  -- table says of the host and the code at that time, also where reads and writes of the cache fail, if
  -- the calls came one after the other, each deletion of Invalidate reached Redis, and the codes have
  -- no colon; except that a code which never existed may be answered as gone.
  pub resolve_link-IsFresh :
      (rows : List LinkRow) (st : LinkState) (reads writes : Bool) (host code : Bytes) (now : ℕ)
      → Moves lower (record { rows = rows; cache = [] }) st
      → plain (lower code) ≡ true
      → IsFresh
          (find_link lower (lower host) (lower code) st.rows)
          now
          (resolve_link lower reads writes host code now st).1
  unfolding resolve_link resolve_at
  resolve_link-IsFresh rows st reads writes host code now m p =
      let k = Moves-IsCoherent m (λ h c v p q. absurd (ground (arith, q))) in
      let h = lower host in
      let c = lower code in
      resolve_from-IsFresh writes h c now st (read_cached reads (cache_key h c) st.cache)
        (λ v q. k h c v p (read_cached-some reads (cache_key h c) st.cache v q))
