-- ===== src/Links/Examples.antt =====
-- Links, and visits of them.
use collectr.Prelude.{◌≡◌, refl, true, false, none, some, [], ◌∷◌, ok, err, Bytes}
use collectr.Links.Resolution.{
  active, legal_hold, link_not_found, link_gone, LinkRow, LinkState, cache_key, present, find_link,
  resolve_at, resolve_link, change_status, set_status,
}
use collectr.Links.Keys.{plain, is_key}
use collectr.Links.Fresh.{Moves, stop, resolves, changes, IsFresh, resolve_link-IsFresh}

abbrev same_case : Bytes → Bytes
same_case b = b

abbrev campaign : LinkRow
campaign = record {
  id = 1;
  host = 97 ∷ [];
  code = 120 ∷ 121 ∷ [];
  resolution = record {
    link_id = 1;
    tenant_id = 5;
    project_id = 6;
    target_url = "https://example.org";
    form_id = none;
    form_public_id = "";
    status = active;
    expires_at = some 100;
  };
}

abbrev one_link : LinkState
one_link = record { rows = campaign ∷ []; cache = [] }

open_link :
    (resolve_link same_case true true (97 ∷ []) (120 ∷ 121 ∷ []) 100 one_link).1
    ≡ ok campaign.resolution
unfolding resolve_link
open_link = refl

expired_link :
    (resolve_link same_case true true (97 ∷ []) (120 ∷ 121 ∷ []) 101 one_link).1 ≡ err link_gone
unfolding resolve_link
expired_link = refl

-- A code that never existed is not found once, and gone after that.
never_existed :
    (resolve_link same_case true true (97 ∷ []) (122 ∷ []) 5 one_link).1 ≡ err link_not_found
unfolding resolve_link
never_existed = refl

never_existed_again :
    (resolve_link same_case true true
      (97 ∷ [])
      (122 ∷ [])
      6
      (resolve_link same_case true true (97 ∷ []) (122 ∷ []) 5 one_link).0).1
    ≡ err link_gone
unfolding resolve_link
never_existed_again = refl

-- The code "80:x" of the host "a" has the key of the code "x" of the host "a:80".
shared_key :
    cache_key (97 ∷ []) (56 ∷ 48 ∷ 58 ∷ 120 ∷ []) ≡ cache_key (97 ∷ 58 ∷ 56 ∷ 48 ∷ []) (120 ∷ [])
unfolding cache_key
shared_key = refl

-- The link is visited, then held.
abbrev visited : LinkState
visited = record one_link {
  cache = (108 ∷ 50 ∷ 58 ∷ 97 ∷ 58 ∷ 120 ∷ 121 ∷ [], present campaign.resolution) ∷ [];
}

abbrev held : LinkState
held = record {
  rows = record campaign { resolution = record campaign.resolution { status = legal_hold } } ∷ [];
  cache = [];
}

held_again : set_status same_case true 1 legal_hold visited ≡ ok held
unfolding set_status
held_again = refl

-- Where the deletion does not reach Redis, the link stays open.
held_in_vain :
    set_status same_case false 1 legal_hold visited ≡ ok (record held { cache = visited.cache })
unfolding set_status
held_in_vain = refl

visits : Moves same_case one_link held
unfolding plain is_key resolve_at change_status
visits =
    resolves true true (97 ∷ []) (120 ∷ 121 ∷ []) 7 refl
      (changes {st = visited} {st1 = held} 1 legal_hold campaign refl refl refl refl stop)

resolve_link-IsFresh_example :
    IsFresh
      (find_link same_case (97 ∷ []) (120 ∷ 121 ∷ []) held.rows)
      8
      (resolve_link same_case true true (97 ∷ []) (120 ∷ 121 ∷ []) 8 held).1
unfolding plain
resolve_link-IsFresh_example =
    resolve_link-IsFresh same_case one_link.rows held true true (97 ∷ []) (120 ∷ 121 ∷ []) 8 visits
      refl
