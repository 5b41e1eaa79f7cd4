-- ===== src/Requests.antt =====
-- The rows of cirrinad/requests/requests.go and `BeforeCreate` of cirrinad/requests/db.go: the queue of requests
-- that the RPC server fills and the loop of cirrinad/reqproc.go empties.
-- The operations on the database stand in `Queue`, the handlers of the daemon in `Handlers`.
pub mod Queue
pub mod Pending
pub mod Lifecycle
pub mod Handlers
pub mod Exclusion
pub mod Dispatch
pub mod Drain
pub mod Clone
use cirrina.Prelude.{
  ℕ, String, ◌≡◌, refl, Bool, true, false, not, ◌&&◌, ◌||◌, Option, none, some, List, [], ◌∷◌, ◌++◌,
  map, str_eq, if◌then◌else◌, Result, ok, err,
}
use cirrina.Store.{Store, Write, failed, affected}
use cirrina.Util.Json.{Json, null, text, Fields, end, entry, field}
use cirrina.Util.Name.{valid_nic_name}

pub data ReqType : Type 0 where
  vmstart vmstop vmdelete nicclone diskwipe : ReqType
  other : String → ReqType

-- The column Data: empty, the JSON object that `json.Marshal` wrote, or a text that is none.
pub data Payload : Type 0 where
  blank : Payload
  json : Fields → Payload
  garbled : Payload

pub record Request : Type 0 where
  pub id : String
  pub started_at : Option ℕ
  pub successful : Bool
  pub complete : Bool
  pub req_type : ReqType
  pub payload : Payload

-- The zero value `Request{}`.
abbrev pub zero_request : Request
zero_request = record {
  id = "";
  started_at = none;
  successful = false;
  complete = false;
  req_type = other "";
  payload = blank;
}

pub data RequestError : Type 0 where
  invalid_request create_failure request_not_found database_error : RequestError

unfoldable pub valid_vm_req_type : ReqType → Bool
valid_vm_req_type vmstart = true
valid_vm_req_type vmstop = true
valid_vm_req_type vmdelete = true
valid_vm_req_type nicclone = false
valid_vm_req_type diskwipe = false
valid_vm_req_type (other t) = false

unfoldable pub valid_disk_req_type : ReqType → Bool
valid_disk_req_type vmstart = false
valid_disk_req_type vmstop = false
valid_disk_req_type vmdelete = false
valid_disk_req_type nicclone = false
valid_disk_req_type diskwipe = true
valid_disk_req_type (other t) = false

-- `json.Unmarshal` into a struct's text field: a missing key leaves it empty.
abbrev pub text_field : Option Json → Option String
text_field none = some ""
text_field (some null) = some ""
text_field (some (text s)) = some s
text_field (some _) = none

unfoldable pub unmarshal : String → Payload → Option String
unfolding field
unmarshal key blank = none
unmarshal key (json fields) = text_field (field key fields)
unmarshal key garbled = none

-- `Updates` of a struct writes only the fields that are not the zero value.
abbrev written_text : String → String → String
written_text new old = if str_eq new "" then old else new

abbrev written_time : Option ℕ → Option ℕ → Option ℕ
written_time none old = old
written_time (some t) old = some t

abbrev written_type : ReqType → ReqType → ReqType
written_type (other t) old = if str_eq t "" then old else other t
written_type new old = new

abbrev written_payload : Payload → Payload → Payload
written_payload blank old = old
written_payload new old = new

unfoldable pub updates : Request → Request → Request
updates new row = record {
  id = written_text new.id row.id;
  started_at = written_time new.started_at row.started_at;
  successful = new.successful || row.successful;
  complete = new.complete || row.complete;
  req_type = written_type new.req_type row.req_type;
  payload = written_payload new.payload row.payload;
}

-- `BeforeCreate`: `id_ok` is `uuid.Validate` and the length test of an ID.
unfoldable pub before_create : (String → Bool) → Option String → Request → Option Request
before_create id_ok new_id r =
    if id_ok r.id
    then some r
    else elim new_id [ none ↦ none | some fresh ↦ some (record r { id = fresh }) ]

-- The first row where a test passes: `Limit(1)` and `Find`.
unfoldable pub first_where {ℓ} : {A : Type ℓ} → (A → Bool) → List A → Option A
first_where p [] = none
first_where p (r ∷ rs) = if p r then some r else first_where p rs

abbrev is_unstarted : Option ℕ → Bool
is_unstarted none = true
is_unstarted (some t) = false

abbrev pub unstarted : Request → Bool
unstarted r = is_unstarted r.started_at

-- The key under which a request of a type holds the object that it is about.
abbrev pub object_key : ReqType → Option String
object_key vmstop = some "vm_id"
object_key vmstart = some "vm_id"
object_key vmdelete = some "vm_id"
object_key nicclone = some "nic_id"
object_key diskwipe = some "disk_id"
object_key (other t) = none

abbrev pub target_at : Option String → Payload → Option String
target_at none body = none
target_at (some key) body = unmarshal key body

abbrev pub is_read : Option String → Option String → Option String → Bool
is_read (some name) (some mac) (some desc) = true
is_read _ _ _ = false

-- `json.Unmarshal` into `NicCloneReqData`: whether the fields besides `nic_id` are texts too.
abbrev pub other_fields_read : Payload → Bool
other_fields_read payload =
    is_read (unmarshal "new_nic_name" payload) (unmarshal "new_nic_mac" payload)
      (unmarshal "new_nic_desc" payload)

unfoldable pub is_nicclone : ReqType → Bool
is_nicclone nicclone = true
is_nicclone _ = false

-- The object that a request is about; `none` where it has none or its data does not parse.
unfoldable pub target_of : ReqType → Payload → Option String
unfolding unmarshal is_nicclone
target_of t payload =
    if is_nicclone t && not (other_fields_read payload)
    then none
    else target_at (object_key t) payload

unfoldable pub target : Request → Option String
unfolding target_of
target r = target_of r.req_type r.payload

abbrev pub is_about : Option String → String → Bool
is_about none obj = false
is_about (some o) obj = str_eq o obj

-- The loop over the incomplete requests.
unfoldable pub pending_ids : String → List Request → List String
unfolding target
pending_ids obj [] = []
pending_ids obj (r ∷ rs) =
    let rest = pending_ids obj rs in
    if r.complete then rest else if is_about (target r) obj then r.id ∷ rest else rest
