-- ===== src/Dsr/Requests.antt =====
-- internal/modules/dsr/domain/dsr.go and the requests of internal/modules/dsr/store/store.go,
-- app/service.go and api/admin.go. Times are nanoseconds.
use collectr.Prelude.{
  ℕ, ◌+◌, String, Bool, true, false, ◌&&◌, not, Option, none, some, List, [], ◌∷◌, eqb, ltb,
  if◌then◌else◌, Result, ok, err, ◌>>=◌, require,
}

pub data RequestType : Type 0 where
  access rectify erase restrict withdraw export object : RequestType
  unknown : String → RequestType

pub data Status : Type 0 where
  received verified in_progress fulfilled rejected : Status

pub data Scope : Type 0 where
  portal receipt : Scope

pub data DsrError : Type 0 where
  token_invalid not_found forbidden unknown_type note_missing needs_correction not_automatic :
      DsrError

-- consent.dsr_requests
pub record Request : Type 0 where
  pub id : ℕ
  pub subject : ℕ
  pub type : RequestType
  pub status : Status
  pub received_at : ℕ
  pub due_at : ℕ
  pub fulfilled_at : Option ℕ
  pub handled_by : Option ℕ
  pub note : String

unfoldable pub is_closed : Status → Bool
is_closed s = elim s [ fulfilled ↦ true | rejected ↦ true | _ ↦ false ]

unfoldable pub overdue : Request → ℕ → Bool
unfolding is_closed
overdue r now = not (is_closed r.status) && ltb r.due_at now

unfoldable pub auto_fulfillable : RequestType → Bool
auto_fulfillable t = elim t [
  | erase ↦ true
  | withdraw ↦ true
  | access ↦ true
  | export ↦ true
  | _ ↦ false
]

unfoldable pub valid_type : RequestType → Bool
valid_type t = elim t [ unknown _ ↦ false | _ ↦ true ]

-- The Session of app/service.go.
pub record Session : Type 0 where
  pub subject : ℕ
  pub scope : Scope
  pub submission : Option ℕ
  pub expires_at : ℕ

unfoldable pub can_see : Session → ℕ → Bool
can_see s id = elim s.scope [
  | portal ↦ true
  | receipt ↦ elim s.submission [ none ↦ false | some x ↦ eqb x id ]
]

unfoldable pub create_request : ℕ → ℕ → RequestType → ℕ → ℕ → Request
create_request id subject type now sla = record {
  id = id;
  subject = subject;
  type = type;
  status = verified;
  received_at = now;
  due_at = now + sla;
  fulfilled_at = none;
  handled_by = none;
  note = "";
}

unfoldable pub may_raise : Session → RequestType → Bool
may_raise s t = elim s.scope [ portal ↦ true | receipt ↦ elim t [ rectify ↦ true | _ ↦ false ] ]

-- Service.Raise
unfoldable pub raise :
    ℕ → ℕ → ℕ → Session → RequestType → List Request → Result DsrError (List Request × Request)
unfolding valid_type may_raise create_request
raise id now sla s t requests = do
  _ ← require (valid_type t) unknown_type
  _ ← require (may_raise s t) forbidden
  let r = create_request id s.subject t now sla
  ok (r ∷ requests, r)

unfoldable pub request_by_id : List Request → ℕ → Option Request
request_by_id [] id = none
request_by_id (r ∷ rest) id =
    let later = request_by_id rest id in if eqb r.id id then some r else later

unfoldable pub update_request : List Request → ℕ → (Request → Request) → List Request
update_request [] id f = []
update_request (r ∷ rest) id f =
    let later = update_request rest id f in if eqb r.id id then f r ∷ later else r ∷ later

abbrev pub as_fulfilled : ℕ → String → Request → Request
as_fulfilled now note r = record r { status = fulfilled; fulfilled_at = some now; note = note }

-- Store.MarkFulfilled
unfoldable pub mark_fulfilled : ℕ → String → ℕ → List Request → List Request
unfolding update_request
mark_fulfilled now note id requests = update_request requests id (as_fulfilled now note)

-- The SET of Store.Resolve, with the CASE on the status.
unfoldable pub resolved : ℕ → ℕ → Status → String → Request → Request
resolved now by status note r = record r {
  status = status;
  handled_by = some by;
  note = note;
  fulfilled_at = elim status [ fulfilled ↦ some now | _ ↦ r.fulfilled_at ];
}

-- Store.Resolve, whose WHERE leaves out what is closed.
unfoldable pub resolve :
    ℕ → ℕ → Status → String → ℕ → List Request → Result DsrError (List Request × Request)
unfolding request_by_id is_closed update_request resolved
resolve now by status note id requests = elim (request_by_id requests id) [
  | none ↦ err not_found
  | some r ↦
      if is_closed r.status
      then err not_found
      else ok
          (update_request requests id (resolved now by status note), resolved now by status note r)
]
