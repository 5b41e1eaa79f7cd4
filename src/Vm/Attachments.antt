-- ===== src/Vm/Attachments.antt =====
-- The clean-up of attachments, `CheckAll` of cirrinad/vm/vm.go, with `GetVMIDs` of
-- cirrinad/disk/disk.go, cirrinad/iso/iso.go and cirrinad/vmnic/vm_nics.go.
-- `like` is the database's LIKE; `configs` answers the query for the VMs of a configuration.
pub mod Known
use cirrina.Prelude.{
  ℕ, String, Bool, true, false, List, [], ◌∷◌, ◌==◌, str_eq, if◌then◌else◌, Result, ok, err,
}
use cirrina.Store.{Store}
use cirrina.Vmnic.{VmNic}
use cirrina.Vmnic.Table.{get_all, save}
use cirrina.Vm.Table.{VmList, VmError, get_by_id}

-- A row of vm_disks or vm_isos: a VM, and a disk or an ISO.
pub record Attachment : Type 0 where
  pub vm_id : String
  pub item_id : String

abbrev found : {A : Type 0} → Result VmError A → Bool
found (ok a) = true
found (err e) = false

unfoldable pub is_known : VmList → String → Bool
unfolding get_by_id
is_known vms vm_id = found (get_by_id vm_id vms)

unfoldable pub vm_ids_of : (String → String → Bool) → String → List Attachment → List String
vm_ids_of like id [] = []
vm_ids_of like id (r ∷ rs) =
    let rest = vm_ids_of like id rs in if like r.item_id id then r.vm_id ∷ rest else rest

module _ (like : String → String → Bool) (vms : VmList) (joins : Store Attachment) where
  open joins use {Db, rows, query_fails, delete as remove}

  -- `GetVMIDs` of a disk and of an ISO.
  unfoldable pub get_vm_ids : String → Db → List String
  unfolding vm_ids_of
  get_vm_ids id db = if query_fails db then [] else vm_ids_of like id (rows db)

  unfoldable pub check_vm_ids : List String → Db → Db
  unfolding is_known
  check_vm_ids [] db = db
  check_vm_ids (i ∷ ids) db =
      check_vm_ids ids (if is_known vms i then db else (remove (λ r. str_eq r.vm_id i) db).1)

  -- `checkDiskAttachments` and `checkIsoAttachments`, with the IDs of all disks or ISOs.
  unfoldable pub check_attachments : List String → Db → Db
  unfolding get_vm_ids check_vm_ids
  check_attachments [] db = db
  check_attachments (id ∷ ids) db = check_attachments ids (check_vm_ids (get_vm_ids id db) db)

module _ (vms : VmList) (configs : ℕ → List String) (nics : Store VmNic) where
  -- `GetVMIDs` of a NIC.
  unfoldable pub nic_vm_ids : VmNic → List String
  nic_vm_ids nic = if nic.config_id == 0 then [] else configs nic.config_id

  unfoldable pub check_nic_vm_ids : List String → VmNic → nics.Db → nics.Db
  unfolding is_known save
  check_nic_vm_ids [] nic db = db
  check_nic_vm_ids (i ∷ ids) nic db =
      if is_known vms i
      then check_nic_vm_ids ids nic db
      else let nic' = record nic { config_id = 0 } in
        check_nic_vm_ids ids nic' (save nics nic' db).1

  unfoldable pub check_nics : List VmNic → nics.Db → nics.Db
  unfolding nic_vm_ids check_nic_vm_ids
  check_nics [] db = db
  check_nics (nic ∷ rest) db = check_nics rest (check_nic_vm_ids (nic_vm_ids nic) nic db)

  unfoldable pub check_nic_attachments : nics.Db → nics.Db
  unfolding get_all check_nics
  check_nic_attachments db = check_nics (get_all nics db) db
