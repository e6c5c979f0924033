-- ===== src/Links/Keys.antt =====
-- The keys of the cache of internal/modules/links/app/service.go, and what a deletion of one leaves.
use collectr.Prelude.{
  ℕ, ◌≡◌, refl, sym, ap, ◌∙◌, Bool, true, false, ◌&&◌, not, none, some, List, [], ◌∷◌, ◌++◌, eqb,
  if◌then◌else◌, Result, ok, err, ok_injective, Bytes, eq_bytes, eq_bytes-eq, arith, Bool-cases,
  inl, inr,
}
use collectr.Links.Resolution.{
  LinkStatus, LinkError, alias_taken, LinkRow, Cached, LinkState, cache_key, get_cached, del_cached,
  is_at, find_link, row_by_id, update_status,
}

-- No ':' in a code.
unfoldable pub plain : Bytes → Bool
plain [] = true
plain (c ∷ cs) = not (eqb c 58) && plain cs

no_colon_in : (h c : Bytes) → plain (h ++ 58 ∷ c) ≡ false
unfolding plain
no_colon_in [] c = refl
no_colon_in (x ∷ h) c = ground (arith, no_colon_in h c)

pub some_same : {A : Type 0} {a b : A} → some a ≡ some b → a ≡ b
some_same q = cc

pub both : (a b : Bool) → a && b ≡ true → (a ≡ true) × (b ≡ true)
both true true q = (refl, refl)
both true false q = cc
both false b q = cc

pub inserted :
    (t : Bool) (d : LinkState) {st : LinkState}
    → ◌≡◌ {A = Result LinkError LinkState} (if t then err alias_taken else ok d) (ok st)
    → d ≡ st
inserted true d q = cc
inserted false d q = ok_injective q

tail_of : Bytes → Bytes
tail_of [] = []
tail_of (x ∷ xs) = xs

head_or : ℕ → Bytes → ℕ
head_or d [] = d
head_or d (x ∷ xs) = x

split_at_colon :
    (h h' c c' : Bytes)
    → plain c ≡ true
    → plain c' ≡ true
    → ◌≡◌ {A = Bytes} (h ++ 58 ∷ c) (h' ++ 58 ∷ c')
    → (h ≡ h') × (c ≡ c')
unfolding tail_of head_or
split_at_colon [] [] c c' p p' q = (refl, ap tail_of q)
split_at_colon [] (x ∷ h') c c' p p' q =
    let e : c ≡ h' ++ 58 ∷ c' = ap tail_of q in
    absurd (ground (arith, sym p ∙ ap plain e ∙ no_colon_in h' c'))
split_at_colon (x ∷ h) [] c c' p p' q =
    let e : h ++ 58 ∷ c ≡ c' = ap tail_of q in
    absurd (ground (arith, sym p' ∙ ap plain (sym e) ∙ no_colon_in h c))
split_at_colon (x ∷ h) (y ∷ h') c c' p p' q =
    let (same, rest) = split_at_colon h h' c c' p p' (ap tail_of q) in
    let first : x ≡ y = ap (head_or 0) q in (ap (λ l. x ∷ l) same ∙ ap (λ z. z ∷ h') first, rest)

pub key_apart :
    (h h' c c' : Bytes)
    → plain c ≡ true
    → plain c' ≡ true
    → eq_bytes (cache_key h c) (cache_key h' c') ≡ true
    → (h ≡ h') × (c ≡ c')
unfolding cache_key tail_of
key_apart h h' c c' p p' e =
    split_at_colon h h' c c' p p'
      (ap (λ l. tail_of (tail_of (tail_of l))) (eq_bytes-eq (cache_key h c) (cache_key h' c') e))

get_cached-del_same :
    (key : Bytes) (cache : List (Bytes × Cached)) → get_cached key (del_cached key cache) ≡ none
unfolding get_cached del_cached
get_cached-del_same key [] = refl
get_cached-del_same key ((k, v) ∷ cache) = ground (arith, get_cached-del_same key cache)

get_cached-del_other :
    (key k : Bytes) (cache : List (Bytes × Cached))
    → eq_bytes k key ≡ false
    → get_cached key (del_cached k cache) ≡ get_cached key cache
unfolding get_cached del_cached
get_cached-del_other key k [] other = refl
get_cached-del_other key k ((k', v) ∷ cache) other =
    let later = get_cached-del_other key k cache other in
    elim (Bool-cases (eq_bytes k' k)) [
      | inl same ↦
          let e : eq_bytes k' key ≡ false =
            ap (λ x. eq_bytes x key) (eq_bytes-eq k' k same) ∙ other in
          ground (arith, same, e, later)
      | inr apart ↦ ground (arith, apart, later)
    ]

-- What a deletion leaves was there before, under another key.
pub get_cached-del :
    (key k : Bytes) (cache : List (Bytes × Cached)) (v : Cached)
    → get_cached key (del_cached k cache) ≡ some v
    → (eq_bytes k key ≡ false) × (get_cached key cache ≡ some v)
get_cached-del key k cache v q = elim (Bool-cases (eq_bytes k key)) [
  | inl same ↦
      let e : get_cached key (del_cached k cache) ≡ none =
        ap (λ x. get_cached key (del_cached x cache)) (eq_bytes-eq k key same)
        ∙ get_cached-del_same key cache in
      absurd (ground (arith, sym e ∙ q))
  | inr apart ↦ (apart, sym (get_cached-del_other key k cache apart) ∙ q)
]

-- No row has this id; one row at most has it, as it is the primary key.
unfoldable is_free : ℕ → List LinkRow → Bool
is_free id [] = true
is_free id (l ∷ rest) = not (eqb l.id id) && is_free id rest

unfoldable pub is_key : ℕ → List LinkRow → Bool
unfolding is_free
is_key id [] = true
is_key id (l ∷ rest) = if eqb l.id id then is_free id rest else is_key id rest

update_status-free :
    (id : ℕ) (status : LinkStatus) (l : List LinkRow)
    → is_free id l ≡ true
    → update_status id status l ≡ l
unfolding is_free update_status
update_status-free id status [] f = refl
update_status-free id status (x ∷ l) f = ground (arith, f, update_status-free id status l)

module _ (lower : Bytes → Bytes) where
  -- A change of a row that is not at this place changes nothing there.
  pub find_link-update_status :
      (id : ℕ) (status : LinkStatus) (h c : Bytes) (rows : List LinkRow) (l : LinkRow)
      → is_key id rows ≡ true
      → row_by_id id rows ≡ some l
      → is_at lower h c l ≡ false
      → find_link lower h c (update_status id status rows) ≡ find_link lower h c rows
  unfolding is_key row_by_id is_at find_link update_status
  find_link-update_status id status h c [] l k q a = refl
  find_link-update_status id status h c (x ∷ rows) l k q a = ground (
    arith,
    k,
    q,
    a,
    find_link-update_status id status h c rows l,
    update_status-free id status rows,
  )
