-- ===== src/Requests/Handlers.antt =====
-- The daemon's handlers of requests: cirrinad/vmops.go and `diskWipe` of cirrinad/diskops.go.
-- What a handler does to a VM or a disk is an interface here; the request's row is the model's own.
-- A handler is read as one step: it runs in a goroutine, and holds no lock on the table.
use cirrina.Prelude.{
  ℕ, String, Bool, true, false, not, Option, none, some, List, [], ◌∷◌, str_eq, if◌then◌else◌,
}
use cirrina.Store.{Store}
use cirrina.Requests.{
  ReqType, vmstart, vmstop, vmdelete, nicclone, diskwipe, other, Request, unmarshal,
}
use cirrina.Requests.Queue.{get_un_started, pending_req_exists, start, succeeded, failed_request}

-- The VMs as the handlers see them. A call that may fail says whether it did.
pub record VmOps : Type 1 where
  pub World : Type 0
  pub known : String → World → Bool
  pub start_vm : String → World → Bool × World
  pub stop_vm : String → World → Bool × World
  pub delete_vm : String → World → Bool × World
  pub forget : String → World → World

pub data DevType : Type 0 where
  file zvol : DevType
  invalid : String → DevType

-- The disks, and the service for each type of backing.
pub record DiskOps : Type 1 where
  pub World : Type 0
  pub dev_type : String → World → Option DevType
  pub get_size : DevType → String → World → Option ℕ
  pub remove_backing : DevType → String → World → Bool × World
  pub create_backing : DevType → String → ℕ → World → Bool × World

-- Whether a request other than this one is in the list.
unfoldable pub other_pending : String → List String → Bool
other_pending this_id [] = false
other_pending this_id (i ∷ ids) =
    let rest = other_pending this_id ids in if not (str_eq i this_id) then true else rest

module _ (store : Store Request) (vms : VmOps) where
  open store use {Db}
  open vms use {World, known, forget}

  -- The row after a handler's call: failed if the call did.
  report : Request → Bool × World → Db → World × Db
  report request (true, w) db = (w, failed_request store request db)
  report request (false, w) db = (w, succeeded store request db)

  unfoldable pub handle_start : Request → World × Db → World × Db
  unfolding report
  handle_start request (w, db) = elim (unmarshal "vm_id" request.payload) [
    | none ↦ (w, db)
    | some id ↦
        if not (known id w)
        then (w, db)
        else if other_pending request.id (pending_req_exists store id db)
        then (w, failed_request store request db)
        else report request (vms.start_vm id w) db
  ]

  unfoldable pub handle_stop : Request → World × Db → World × Db
  unfolding report
  handle_stop request (w, db) = elim (unmarshal "vm_id" request.payload) [
    | none ↦ (w, db)
    | some id ↦
        if not (known id w)
        then (w, db)
        else if other_pending request.id (pending_req_exists store id db)
        then (w, failed_request store request db)
        else report request (vms.stop_vm id w) db
  ]

  -- The VM leaves the list only after its row is gone and the request is marked.
  report_delete : Request → String → Bool × World → Db → World × Db
  report_delete request id (true, w) db = (w, failed_request store request db)
  report_delete request id (false, w) db = (forget id w, succeeded store request db)

  unfoldable pub handle_delete : Request → World × Db → World × Db
  unfolding report_delete
  handle_delete request (w, db) = elim (unmarshal "vm_id" request.payload) [
    | none ↦ (w, db)
    | some id ↦
        if not (known id w)
        then (w, db)
        else if other_pending request.id (pending_req_exists store id db)
        then (w, failed_request store request db)
        else report_delete request id (vms.delete_vm id w) db
  ]

unfoldable pub is_diskwipe : ReqType → Bool
is_diskwipe diskwipe = true
is_diskwipe _ = false

-- `json.Unmarshal` into `DiskCloneReqData`: both fields must be texts, and the first is used.
abbrev pub disk_data : Option String → Option String → Option String
disk_data (some id) (some name) = some id
disk_data _ _ = none

module _ (store : Store Request) (disks : DiskOps) where
  open store use {Db}
  open disks use {World, dev_type, get_size, remove_backing, create_backing}

  -- Errors of the two calls are logged, and the request succeeds.
  unfoldable pub wipe_backing : Request → DevType → String → World → Db → World × Db
  wipe_backing request dev id w db = elim (get_size dev id w) [
    | none ↦ (w, db)
    | some size ↦
        let (_, removed) = remove_backing dev id w in
        let (_, created) = create_backing dev id size removed in
        (created, succeeded store request db)
  ]

  unfoldable pub wipe_disk : Request → String → DevType → World → Db → World × Db
  unfolding wipe_backing
  wipe_disk request id file w db = wipe_backing request file id w db
  wipe_disk request id zvol w db = wipe_backing request zvol id w db
  wipe_disk request id (invalid t) w db = (w, db)

  unfoldable pub disk_wipe : Request → World × Db → World × Db
  unfolding wipe_disk is_diskwipe
  disk_wipe request (w, db) =
      if not (is_diskwipe request.req_type)
      then (w, failed_request store request db)
      else elim (disk_data (unmarshal "disk_id" request.payload)
          (unmarshal "new_disk_name" request.payload)) [
            | none ↦ (w, failed_request store request db)
            | some id ↦ elim (dev_type id w) [
              | none ↦ (w, failed_request store request db)
              | some dev ↦
                  if other_pending request.id (pending_req_exists store id db)
                  then (w, failed_request store request db)
                  else wipe_disk request id dev w db
            ]
          ]

-- A handler that the loop starts; `none` for a type that it does not know.
pub data Task : Type 0 where
  start_task stop_task delete_task clone_task wipe_task : Task

unfoldable pub task_of : ReqType → Option Task
task_of vmstart = some start_task
task_of vmstop = some stop_task
task_of vmdelete = some delete_task
task_of nicclone = some clone_task
task_of diskwipe = some wipe_task
task_of (other t) = none

-- One round of the loop of `processRequests`: what it starts, for which request.
module _ (store : Store Request) where
  open store use {Db}

  unfoldable pub process_round : ℕ → Db → Option (Request × Option Task) × Db
  unfolding task_of
  process_round now db =
      let request = get_un_started store db in
      if str_eq request.id ""
      then (none, db)
      else let (request', db') = start store now request db in
        (some (request', task_of request.req_type), db')
