-- ===== src/Vm/Delete.antt =====
-- `Save` and `Delete` of cirrinad/vm/vm.go with the tables vm_isos and vm_disks; the column `position`
-- of their rows is left out.
-- Whether the updates of the rows of the configuration and of the VM succeed is an answer of the
-- database, an argument; `parse` is `uuid.Parse` and the print of what it yields.
use cirrina.Prelude.{
  String, Bool, true, false, ◌||◌, Option, none, some, List, [], ◌∷◌, ◌==◌, str_eq, if◌then◌else◌,
}
use cirrina.Store.{Store, Write, failed, affected}
use cirrina.Vmnic.{VmNic}
use cirrina.Disk.{DiskList}
use cirrina.Vm.{Vm, Disk, Iso}
use cirrina.Vm.Table.{VmList}
use cirrina.Vm.Attach.{AttachError, save_failed, attach_disks, attach_isos}
use cirrina.Vm.Attach.Nics.{set_nics}
use cirrina.Vm.Attachments.{Attachment}

-- The IDs of the entries, where none is nil.
abbrev with_id :
    {A : Type 0} → (A → String) → Option A → Option (List String) → Option (List String)
with_id id none ids = none
with_id id (some a) none = none
with_id id (some a) (some ids) = some (id a ∷ ids)

unfoldable pub ids_of : {A : Type 0} → (A → String) → List (Option A) → Option (List String)
ids_of id [] = some []
ids_of id (a ∷ rest) = let ids = ids_of id rest in with_id id a ids

abbrev inserted_one : {D : Type 0} → Write × D → Option D
inserted_one (failed, db) = none
inserted_one (affected n, db) = if n == 1 then some db else none

module _ (links : Store Attachment) where
  open links use {Db, create as insert, delete as remove}

  -- The loop of the transaction: `none` where a row could not be added.
  unfoldable pub insert_links : String → List String → Db → Option Db
  insert_links vm_id [] db = some db
  insert_links vm_id (i ∷ ids) db =
      elim (inserted_one (insert (record { vm_id = vm_id; item_id = i }) db)) [
        | none ↦ none
        | some db' ↦ insert_links vm_id ids db'
      ]

  -- A transaction that failed is undone.
  abbrev committed : Option Db → Db → Bool × Db
  committed none before = (false, before)
  committed (some db) before = (true, db)

  abbrev after_delete : String → List String → Write × Db → Bool × Db
  after_delete vm_id ids (failed, db) = (false, db)
  after_delete vm_id ids (affected n, db) = committed (insert_links vm_id ids db) db

  -- The rows of the VM are deleted, and those of its items are added.
  unfoldable pub replace_links : String → List String → Db → Bool × Db
  unfolding insert_links
  replace_links vm_id ids db = after_delete vm_id ids (remove (λ r. str_eq r.vm_id vm_id) db)

module _ (iso_links disk_links : Store Attachment) where
  -- The tables vm_isos and vm_disks.
  pub record Links : Type 0 where
    pub isos : iso_links.Db
    pub disks : disk_links.Db

  abbrev iso_id : Iso → String
  iso_id i = i.id

  abbrev disk_id : Disk → String
  disk_id d = d.id

  unfoldable pub save_links : String → List String → List String → Links → Bool × Links
  unfolding replace_links
  save_links vm_id iso_ids disk_ids l =
      let (isos_done, isos) = replace_links iso_links vm_id iso_ids l.isos in
      let (disks_done, disks) = replace_links disk_links vm_id disk_ids l.disks in
      if isos_done
      then (disks_done, record { isos = isos; disks = disks })
      else (false, record l { isos = isos })

  -- `Save` with the IDs of the ISOs and of the disks, if none of them is nil.
  unfoldable pub save_with :
      Bool → Vm → Option (List String) → Option (List String) → Links → Bool × Links
  unfolding save_links
  save_with rows_saved v none disk_ids l = (false, l)
  save_with rows_saved v (some iso_ids) none l = (false, l)
  save_with rows_saved v (some iso_ids) (some disk_ids) l =
      if rows_saved then save_links v.id iso_ids disk_ids l else (false, l)

  unfoldable pub save_vm : Bool → Vm → Links → Bool × Links
  unfolding save_with ids_of
  save_vm rows_saved v l =
      if str_eq v.id "" || v.config.id == 0
      then (false, l)
      else save_with rows_saved v (ids_of iso_id v.isos) (ids_of disk_id v.disks) l

  -- Whether `AttachDisks` or `AttachIsos` came to its save.
  abbrev reached : Option AttachError → Bool
  reached none = true
  reached (some save_failed) = true
  reached (some e) = false

  -- One of them with its save: `attach` takes whether the save succeeded.
  unfoldable pub attach_and_save : Bool → (Bool → Option AttachError × Vm) → Links → Vm × Links
  unfolding save_vm
  attach_and_save rows_saved attach l =
      let (saved, l') = save_vm rows_saved (attach true).1 l in
      let (answer, v') = attach saved in (v', if reached answer then l' else l)

  module _ (nics : Store VmNic) (store : Store Vm) where
    abbrev deleted_one : Write → Bool
    deleted_one failed = false
    deleted_one (affected n) = n == 1

    -- `Delete`: whether it succeeded, the VM in memory, the two tables, the table of NICs and that of
    -- VMs. The errors of detaching, and of deleting the row of the configuration, are logged and
    -- passed over. The two answers are those for the saves after detaching the disks and the ISOs.
    unfoldable pub delete_vm :
        (String → Option String)
        → DiskList
        → VmList
        → Bool
        → Bool
        → Vm
        → Links
        → nics.Db
        → store.Db
        → Bool × Vm × Links × nics.Db × store.Db
    unfolding attach_and_save attach_disks attach_isos set_nics
    delete_vm parse disks vms first second v l nic_db db =
        let (v1, l1) = attach_and_save first (λ saves. attach_disks parse disks vms saves [] v) l in
        let (v2, l2) = attach_and_save second (λ saves. attach_isos saves [] v1) l1 in
        let nic_db' = (set_nics nics parse vms v2 [] nic_db).1 in
        let (written, db') = store.delete (λ row. str_eq row.id v.id) db in
        (deleted_one written, v2, l2, nic_db', db')
