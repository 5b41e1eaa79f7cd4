-- ===== src/Tests/Queue.antt =====
-- Runs of the queue of requests and of its handlers.
use mathlib.Core.Option
use mathlib.Core.Bool.{false≢true}
use cirrina.Prelude.{
  ℕ, String, ◌≡◌, refl, ◌↔◌, Bool, true, false, none, some, List, [], ◌∷◌, str_eq, eq_iff,
  if◌then◌else◌, All, Member, arith, here, there,
}
use cirrina.Store.{Store}
use cirrina.Util.Json.{text, end, entry}
use cirrina.Requests.{
  Request, ReqType, vmstart, vmstop, diskwipe, json, unmarshal, unstarted, first_where,
}
use cirrina.Requests.Queue.{
  get_un_started, pending_req_exists, fail_all_pending, succeeded, failed_request, or_zero,
}
use cirrina.Requests.Pending.{IsPendingFor, pending_req_exists_iff}
use cirrina.Requests.Lifecycle.{ended-not-pending, fail_all_pending-keeps_waiting, completed}
use cirrina.Requests.Handlers.{
  VmOps, DiskOps, zvol, handle_start, handle_stop, handle_delete, disk_wipe,
}
use cirrina.Requests.Exclusion.{handlers_exclusive, Outcome, disk_wipe-Outcome}
use cirrina.Requests.Drain.{AllNamed, polls, drained}
use cirrina.Requests.Dispatch.{Distinct, System, poll, Step, Reach, dispatched_once}
use cirrina.Tests.Tables.{list_store, list_store-laws, list_store-Reliable}

abbrev requests : Store Request
requests = list_store Request

abbrev contains : String → List String → Bool
contains id [] = false
contains id (v ∷ vs) = if str_eq v id then true else contains id vs

-- The VMs that are known.
abbrev vms : VmOps
vms = record {
  World = List String;
  known = λ id w. contains id w;
  start_vm = λ id w. (false, w);
  stop_vm = λ id w. (false, w);
  delete_vm = λ id w. (true, w);
  forget = λ id w. [];
}

-- One volume, of the size that the world is.
abbrev disks : DiskOps
disks = record {
  World = ℕ;
  dev_type = λ id w. some zvol;
  get_size = λ dev id w. some w;
  remove_backing = λ dev id w. (false, 0);
  create_backing = λ dev id size w. (true, size);
}

abbrev request_of : String → ReqType → Request
request_of id t = record {
  id = id;
  started_at = none;
  successful = false;
  complete = false;
  req_type = t;
  payload = json (entry "vm_id" (text "vm-1") end);
}

abbrev first_request : Request
first_request = request_of "r1" vmstart

abbrev rival_request : Request
rival_request = request_of "r2" vmstop

abbrev queue : List Request
queue = first_request ∷ rival_request ∷ []

rival_is_pending : IsPendingFor "vm-1" rival_request
unfolding unmarshal
rival_is_pending = record { not_complete = refl; about = refl }

vm_of_first : unmarshal "vm_id" first_request.payload ≡ some "vm-1"
unfolding unmarshal
vm_of_first = refl

pending_req_exists_iff_example :
    Member "r2" (pending_req_exists requests "vm-1" queue)
    ↔ ((r : Request) × Member r queue × ("r2" ≡ r.id) × IsPendingFor "vm-1" r)
pending_req_exists_iff_example = pending_req_exists_iff requests "vm-1" "r2" queue refl

handlers_exclusive_example :
    (handle_start requests vms first_request ("vm-1" ∷ [], queue)
      ≡ ("vm-1" ∷ [], failed_request requests first_request queue))
    × (handle_stop requests vms first_request ("vm-1" ∷ [], queue)
        ≡ ("vm-1" ∷ [], failed_request requests first_request queue))
    × (handle_delete requests vms first_request ("vm-1" ∷ [], queue)
        ≡ ("vm-1" ∷ [], failed_request requests first_request queue))
handlers_exclusive_example =
    handlers_exclusive requests vms first_request rival_request "vm-1" ("vm-1" ∷ []) queue
      vm_of_first refl refl (there (here refl)) rival_is_pending
      (λ e. false≢true ((eq_iff "r2" "r1").1 e))

ended-not-pending_example :
    (¬ Member "r1" (pending_req_exists requests "vm-1" (succeeded requests first_request queue)))
    × (¬ Member "r1"
        (pending_req_exists requests "vm-1" (failed_request requests first_request queue)))
ended-not-pending_example =
    ended-not-pending requests (list_store-laws Request) (list_store-Reliable Request) first_request
      queue "vm-1"

fail_all_pending-keeps_waiting_example :
    All (λ r. r.complete ≡ true) (fail_all_pending requests queue).1
    × (get_un_started requests (fail_all_pending requests queue).1
        ≡ or_zero (Option.map completed (first_where unstarted queue)))
fail_all_pending-keeps_waiting_example =
    fail_all_pending-keeps_waiting requests (list_store-laws Request) (list_store-Reliable Request)
      queue

abbrev wipe_request : Request
wipe_request = record first_request {
  req_type = diskwipe;
  payload = json (entry "disk_id" (text "disk-1") end);
}

disk_wipe-Outcome_example :
    Outcome requests disks wipe_request 1024
      (wipe_request ∷ [])
      (disk_wipe requests disks wipe_request (1024, wipe_request ∷ []))
disk_wipe-Outcome_example =
    disk_wipe-Outcome requests disks wipe_request 1024 (wipe_request ∷ []) refl

abbrev at_first : System requests
at_first = record { db = queue; dispatched = [] }

abbrev two_rounds : Reach requests at_first (poll requests 9 (poll requests 7 at_first))
two_rounds = Reach.next (Reach.next Reach.begin (Step.round 7)) (Step.round 9)

dispatched_once_example : Distinct (poll requests 9 (poll requests 7 at_first)).dispatched
dispatched_once_example =
    dispatched_once requests (list_store-laws Request) (list_store-Reliable Request) queue
      (poll requests 9 (poll requests 7 at_first)) two_rounds

queue_is_named : AllNamed queue
queue_is_named =
    ((λ e. false≢true ((eq_iff "r1" "").1 e)), ((λ e. false≢true ((eq_iff "r2" "").1 e)), tt))

drained_example : Member "r2" (polls requests (7 ∷ 9 ∷ []) at_first).dispatched
drained_example =
    drained requests (list_store-laws Request) (list_store-Reliable Request) (7 ∷ 9 ∷ []) at_first
      rival_request queue_is_named (omega arith) (there (here refl)) refl
