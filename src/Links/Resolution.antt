-- ===== src/Links/Resolution.antt =====
-- internal/modules/links: Check of domain/link.go, the service of app/service.go with its cache, and the
-- queries of store/store.go that it uses. Hosts and codes are lists of code points, `lower` is
-- strings.ToLower, and what Redis forgets, by its own times to live too, is a step of its own.
-- A Bool says whether Redis answered a call; an error of it is logged, and Resolve goes on without it.
use collectr.Prelude.{
  ℕ, String, Bool, true, false, ◌&&◌, ◌||◌, Option, none, some, List, [], ◌∷◌, ◌++◌, eqb, ltb,
  if◌then◌else◌, Result, ok, err, Bytes, eq_bytes,
}

pub data LinkStatus : Type 0 where
  active disabled deleted legal_hold : LinkStatus
  other : String → LinkStatus

pub data LinkError : Type 0 where
  link_not_found link_gone link_withheld alias_taken invalid_target : LinkError

pub record Resolution : Type 0 where
  pub link_id : ℕ
  pub tenant_id : ℕ
  pub project_id : ℕ
  pub target_url : String
  pub form_id : Option ℕ
  pub form_public_id : String
  pub status : LinkStatus
  pub expires_at : Option ℕ

abbrev pub is_past : Option ℕ → ℕ → Bool
is_past none now = false
is_past (some t) now = ltb t now

unfoldable pub check_status : LinkStatus → Result LinkError (Unit {0})
check_status active = ok tt
check_status legal_hold = err link_withheld
check_status _ = err link_gone

-- Check
unfoldable pub check : Resolution → ℕ → Result LinkError (Unit {0})
unfolding check_status
check r now = elim (check_status r.status) [
  | err e ↦ err e
  | ok _ ↦ if is_past r.expires_at now then err link_gone else ok tt
]

-- A row of links.links with the host of its domain.
pub record LinkRow : Type 0 where
  pub id : ℕ
  pub host : Bytes
  pub code : Bytes
  pub resolution : Resolution

-- negativeMarker, or a resolution.
pub data Cached : Type 0 where
  absent : Cached
  present : Resolution → Cached

pub record LinkState : Type 0 where
  pub rows : List LinkRow
  pub cache : List (Bytes × Cached)

-- Of a host and a code in lower case.
unfoldable pub cache_key : Bytes → Bytes → Bytes
cache_key host code = 108 ∷ 50 ∷ 58 ∷ (host ++ 58 ∷ code)

unfoldable pub get_cached : Bytes → List (Bytes × Cached) → Option Cached
unfolding eq_bytes
get_cached key [] = none
get_cached key ((k, v) ∷ rest) =
    let later = get_cached key rest in if eq_bytes k key then some v else later

unfoldable pub del_cached : Bytes → List (Bytes × Cached) → List (Bytes × Cached)
unfolding eq_bytes
del_cached key [] = []
del_cached key ((k, v) ∷ rest) =
    let later = del_cached key rest in if eq_bytes k key then later else (k, v) ∷ later

unfoldable pub set_cached : Bytes → Cached → List (Bytes × Cached) → List (Bytes × Cached)
unfolding del_cached
set_cached key v cache = (key, v) ∷ del_cached key cache

unfoldable pub read_cached : Bool → Bytes → List (Bytes × Cached) → Option Cached
unfolding get_cached
read_cached reads key cache = if reads then get_cached key cache else none

unfoldable pub write_cached : Bool → Bytes → Cached → LinkState → LinkState
unfolding set_cached
write_cached writes key v st =
    if writes then record st { cache = set_cached key v st.cache } else st

unfoldable pub drop_cached : Bool → Bytes → LinkState → LinkState
unfolding del_cached
drop_cached deletes key st = if deletes then record st { cache = del_cached key st.cache } else st

-- What an entry that was never stored decodes to.
abbrev pub blank : Resolution
blank = record {
  link_id = 0;
  tenant_id = 0;
  project_id = 0;
  target_url = "";
  form_id = none;
  form_public_id = "";
  status = other "";
  expires_at = none;
}

unfoldable pub checked : Resolution → ℕ → Result LinkError Resolution
unfolding check
checked r now = elim (check r now) [ err e ↦ err e | ok _ ↦ ok r ]

unfoldable pub answer : Cached → ℕ → Result LinkError Resolution
unfolding checked
answer absent now = checked blank now
answer (present r) now = checked r now

unfoldable pub cached_of : Option Resolution → Cached
cached_of none = absent
cached_of (some r) = present r

unfoldable pub found : Option Resolution → ℕ → Result LinkError Resolution
unfolding checked
found none now = err link_not_found
found (some r) now = checked r now

abbrev pub with_status : LinkStatus → LinkRow → LinkRow
with_status status l = record l { resolution = record l.resolution { status = status } }

unfoldable pub row_by_id : ℕ → List LinkRow → Option LinkRow
row_by_id id [] = none
row_by_id id (l ∷ rest) = let later = row_by_id id rest in if eqb l.id id then some l else later

-- UpdateStatus of the store.
unfoldable pub update_status : ℕ → LinkStatus → List LinkRow → List LinkRow
update_status id status [] = []
update_status id status (l ∷ rest) =
    let later = update_status id status rest in
    if eqb l.id id then with_status status l ∷ later else l ∷ later

abbrev pub is_settable : LinkStatus → Bool
is_settable active = true
is_settable disabled = true
is_settable legal_hold = true
is_settable _ = false

module _ (lower : Bytes → Bytes) where
  unfoldable pub is_at : Bytes → Bytes → LinkRow → Bool
  unfolding eq_bytes
  is_at host code l = eq_bytes l.host host && eq_bytes (lower l.code) code

  -- links.resolve, of a host and a code in lower case.
  unfoldable pub find_link : Bytes → Bytes → List LinkRow → Option Resolution
  unfolding is_at
  find_link host code [] = none
  find_link host code (l ∷ rest) =
      let later = find_link host code rest in if is_at host code l then some l.resolution else later

  -- The rest of Resolve, after the cache was read.
  unfoldable pub resolve_from :
      Bool → Bytes → Bytes → ℕ → LinkState → Option Cached → LinkState × Result LinkError Resolution
  unfolding cache_key write_cached answer find_link cached_of found
  resolve_from writes host code now st (some c) = (st, answer c now)
  resolve_from writes host code now st none =
      let r = find_link host code st.rows in
      (write_cached writes (cache_key host code) (cached_of r) st, found r now)

  -- Resolve, of a host and a code in lower case.
  unfoldable pub resolve_at :
      Bool → Bool → Bytes → Bytes → ℕ → LinkState → LinkState × Result LinkError Resolution
  unfolding cache_key read_cached resolve_from
  resolve_at reads writes host code now st =
      resolve_from writes host code now st (read_cached reads (cache_key host code) st.cache)

  unfoldable pub resolve_link :
      Bool → Bool → Bytes → Bytes → ℕ → LinkState → LinkState × Result LinkError Resolution
  unfolding resolve_at
  resolve_link reads writes host code now st =
      resolve_at reads writes (lower host) (lower code) now st

  -- Invalidate
  unfoldable pub invalidate : Bool → Bytes → Bytes → LinkState → LinkState
  unfolding cache_key drop_cached
  invalidate deletes host code st = drop_cached deletes (cache_key (lower host) (lower code)) st

  -- The unique index on the domain and lower(code).
  unfoldable pub is_taken : Bytes → Bytes → List LinkRow → Bool
  unfolding is_at
  is_taken host code [] = false
  is_taken host code (l ∷ rest) = is_at host code l || is_taken host code rest

  -- Insert of the store, then Invalidate, as Create does for each code that it tries.
  unfoldable pub insert_link : Bool → LinkRow → LinkState → Result LinkError LinkState
  unfolding is_taken invalidate
  insert_link deletes l st =
      if is_taken l.host (lower l.code) st.rows
      then err alias_taken
      else ok (invalidate deletes l.host l.code (record st { rows = l ∷ st.rows }))

  -- UpdateStatus, then Invalidate.
  unfoldable pub change_status : Bool → ℕ → LinkStatus → LinkState → Result LinkError LinkState
  unfolding row_by_id update_status invalidate
  change_status deletes id status st = elim (row_by_id id st.rows) [
    | none ↦ err link_not_found
    | some l ↦
        ok (invalidate deletes l.host l.code (record st { rows = update_status id status st.rows }))
  ]

  -- SetStatus, but for the row that it reads back.
  unfoldable pub set_status : Bool → ℕ → LinkStatus → LinkState → Result LinkError LinkState
  unfolding change_status
  set_status deletes id status st =
      if is_settable status then change_status deletes id status st else err invalid_target

  -- Delete
  unfoldable pub delete_link : Bool → ℕ → LinkState → Result LinkError LinkState
  unfolding change_status
  delete_link deletes id st = change_status deletes id deleted st
