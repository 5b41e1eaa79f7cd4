-- ===== src/Tests/Nics.antt =====
-- Runs of the table of NICs of cirrinad/vmnic/vm_nics.go.
use cirrina.Prelude.{some, String, ◌≡◌, ◌≢◌, refl, Bool, true, [], ◌∷◌, Member, ok}
use cirrina.Util.Name.{valid_nic_name}
use cirrina.Vmnic.{VmNic, validate, with_defaults, in_use, parse_nic_mac}
use cirrina.Vmnic.Table.{create, delete_nic, insert_if_new, with_new_id, get_by_name, get_by_id}
use cirrina.Util.Json.{text, end, entry}
use cirrina.Requests.{first_where, Request, zero_request, nicclone, json, unmarshal, pending_ids}
use cirrina.Requests.Queue.{pending_req_exists}
use cirrina.Requests.Handlers.{other_pending}
use cirrina.Requests.Clone.{Outcome, nic_clone, nic_clone-Outcome}
use cirrina.Vmnic.TableLaws.{IsCreated, create-IsCreated, delete_nic-removes}
use cirrina.Tests.Tables.{list_store, list_store-laws}
use cirrina.Tests.Slots.{nic, nics}

abbrev id_ok : String → Bool
id_ok id = true

abbrev second_nic : VmNic
second_nic = record nic { id = "nic-2"; name = "db-net"; config_id = 0 }

abbrev stored_nic : VmNic
stored_nic = second_nic

second_is_created : (create nics id_ok "nic-3" second_nic (nic ∷ [])).0 ≡ ok stored_nic
unfolding create validate insert_if_new get_by_name with_new_id valid_nic_name with_defaults
    first_where
second_is_created = refl

create-IsCreated_example :
    IsCreated second_nic stored_nic
      (nic ∷ [])
      (nics.rows (create nics id_ok "nic-3" second_nic (nic ∷ [])).1)
create-IsCreated_example =
    create-IsCreated nics (list_store-laws VmNic) id_ok "nic-3" second_nic stored_nic (nic ∷ [])
      second_is_created

second_is_deleted : (delete_nic nics second_nic (nic ∷ second_nic ∷ [])).0 ≡ ok tt
unfolding delete_nic in_use
second_is_deleted = refl

delete_nic-removes_example :
    (second_nic.config_id ≡ 0)
    × ((r : VmNic)
        → Member r (nics.rows (delete_nic nics second_nic (nic ∷ second_nic ∷ [])).1)
        → r.id ≢ second_nic.id)
delete_nic-removes_example =
    delete_nic-removes nics (list_store-laws VmNic) second_nic (nic ∷ second_nic ∷ [])
      second_is_deleted

abbrev clone_request : Request
clone_request = record zero_request {
  id = "r1";
  req_type = nicclone;
  payload = json (entry "nic_id" (text "nic-1") (entry "new_nic_name" (text "web-net-2") end));
}

clone_name : unmarshal "new_nic_name" clone_request.payload ≡ some "web-net-2"
unfolding unmarshal
clone_name = refl

nic_clone-Outcome_example :
    Outcome
      (list_store Request)
      nics
      id_ok
      "nic-9"
      (list_store-laws VmNic)
      clone_request
      (nic ∷ [])
      (clone_request ∷ [])
      "web-net-2"
      (nic_clone
        (list_store Request)
        nics
        id_ok
        "nic-9"
        clone_request
        (nic ∷ [], clone_request ∷ []))
nic_clone-Outcome_example =
    nic_clone-Outcome (list_store Request) nics id_ok "nic-9" (list_store-laws VmNic) clone_request
      (nic ∷ []) (clone_request ∷ []) "web-net-2" clone_name

-- The same request adds a NIC.
clone_test :
    (nic_clone
      (list_store Request)
      nics
      id_ok
      "nic-9"
      clone_request
      (nic ∷ [], clone_request ∷ [])).0
    ≡ nic ∷ record nic { id = ""; name = "web-net-2"; config_id = 0 } ∷ []
unfolding nic_clone unmarshal get_by_id first_where other_pending pending_req_exists pending_ids
    get_by_name valid_nic_name parse_nic_mac create validate with_defaults
clone_test = refl
