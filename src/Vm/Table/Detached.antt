-- ===== src/Vm/Table/Detached.antt =====
-- What `Delete` of cirrinad/vm/vm.go takes off a VM.
use mathlib.Core.Path.{subst}
use cirrina.Prelude.{
  ℕ, String, ◌≡◌, refl, sym, ap, ◌∙◌, ◌≢◌, Bool, true, false, not, ◌||◌, ◌==◌, ==_iff, str_eq,
  eq_iff, Option, List, [], Member, if_split, arith, Bool-cases, inl, inr,
}
use mathlib.Core.Bool.{false≢true}
use cirrina.Store.{Store, StoreLaws, Reliable, Write, failed, affected}
use cirrina.Vmnic.{VmNic}
use cirrina.Disk.{DiskList}
use cirrina.Vm.{Vm}
use cirrina.Vm.Args.{is_stopped}
use cirrina.Vm.Attach.{AttachError, attach_disks, attach_isos, validate_disks, gather_disks}
use cirrina.Vm.Attach.Nics.{set_nics, validate_nics, add_nics}
use cirrina.Vm.Attach.Nics.Exact.{removed}
use cirrina.Vm.Table.{VmList}
use cirrina.Vm.Attachments.{Attachment}
use cirrina.Vm.Attachments.Known.{left_where}
use cirrina.Vm.Delete.{
  ids_of, insert_links, replace_links, Links, save_links, save_with, save_vm, attach_and_save,
  delete_vm,
}

no_disks :
    (parse : String → Option String) (disks : DiskList) (vms : VmList) (saves : Bool) (v : Vm)
    → is_stopped v.status ≡ true
    → (attach_disks parse disks vms saves [] v).1 ≡ record v { disks = [] }
unfolding attach_disks validate_disks gather_disks
no_disks parse disks vms saves v idle =
    if_split (λ (out : Option AttachError × Vm). out.1 ≡ record v { disks = [] })
      (not (is_stopped v.status)) (λ busy. ground arith) (λ _. refl)

no_isos :
    (saves : Bool) (v : Vm)
    → is_stopped v.status ≡ true
    → (attach_isos saves [] v).1 ≡ record v { isos = [] }
unfolding attach_isos
no_isos saves v idle =
    if_split (λ (out : Option AttachError × Vm). out.1 ≡ record v { isos = [] })
      (not (is_stopped v.status)) (λ busy. ground arith) (λ _. refl)

-- No delete on the table fails.
abbrev pub DeletesWork : Store Attachment → Type 0
DeletesWork links =
    (p : Attachment → Bool) (db : links.Db) → (n : ℕ) × ((links.delete p db).0 ≡ affected n)

-- No row of the table is of the VM.
abbrev pub NoneOf : (links : Store Attachment) → String → links.Db → Type 0
NoneOf links vm_id db = (x : Attachment) → Member x (links.rows db) → x.vm_id ≢ vm_id

replaced :
    (links : Store Attachment) (vm_id : String) (db : links.Db) (written : Write × links.Db) (n : ℕ)
    → written ≡ links.delete (λ r. str_eq r.vm_id vm_id) db
    → written.0 ≡ affected n
    → replace_links links vm_id [] db ≡ (true, written.1)
unfolding replace_links insert_links
replaced links vm_id db (failed, after) n e done = absurd (cc)
replaced links vm_id db (affected m, after) n e done = rw (sym e) refl

-- Where no delete fails, replacing the rows of a VM by none leaves none.
replace_links-NoneOf :
    (links : Store Attachment) (laws : StoreLaws links) (vm_id : String) (db : links.Db)
    → DeletesWork links
    → ((replace_links links vm_id [] db).0 ≡ true)
      × NoneOf links vm_id (replace_links links vm_id [] db).1
replace_links-NoneOf links laws vm_id db works =
    let p : Attachment → Bool = λ r. str_eq r.vm_id vm_id in
    let (n, done) = works p db in
    let same = replaced links vm_id db (links.delete p db) n refl done in
    rw (same) (
      refl,
      λ x m named.
          let left = subst (λ (l : List Attachment). Member x l) (laws.delete_done p db n done) m in
          false≢true (sym (left_where p x (links.rows db) left).1 ∙ (eq_iff x.vm_id vm_id).1 named),
    )

module _ (iso_links disk_links : Store Attachment) (iso_laws : StoreLaws iso_links)
    (disk_laws : StoreLaws disk_links) where
  -- The saved VM has no ISO and no disk in the two tables.
  abbrev pub Unlinked : String → Links iso_links disk_links → Type 0
  Unlinked vm_id l = NoneOf iso_links vm_id l.isos × NoneOf disk_links vm_id l.disks

  save_vm-Unlinked :
      (v : Vm) (l : Links iso_links disk_links)
      → DeletesWork iso_links
      → DeletesWork disk_links
      → v.id ≢ ""
      → v.config.id ≢ 0
      → v.isos ≡ []
      → v.disks ≡ []
      → Unlinked v.id (save_vm iso_links disk_links true v l).1
  unfolding save_vm save_with save_links ids_of
  save_vm-Unlinked v l isos_work disks_work named real no_isos no_disks =
      let (isos_done, isos_gone) = replace_links-NoneOf iso_links iso_laws v.id l.isos isos_work in
      let (disks_done, disks_gone) =
        replace_links-NoneOf disk_links disk_laws v.id l.disks disks_work in
      let guard : (str_eq v.id "" || v.config.id == 0) ≡ false =
        ground (arith, eq_iff v.id "", ==_iff v.config.id 0) in
      rw (guard, no_isos, no_disks, isos_done) (isos_gone, disks_gone)

  module _ (store : Store Vm) (nics : Store VmNic) (laws : StoreLaws nics)
      (works : Reliable nics) where
    no_nics :
        (parse : String → Option String) (vms : VmList) (v : Vm) (db : nics.Db)
        → is_stopped v.status ≡ true
        → v.config.id ≢ 0
        → (x : VmNic) → Member x (nics.rows (set_nics nics parse vms v [] db).1)
        → x.config_id ≢ v.config.id
    unfolding set_nics validate_nics add_nics
    no_nics parse vms v db idle real =
        let (cleared, gone) = removed nics laws works v db real in rw (idle, cleared) gone

    disks_taken_off :
        (parse : String → Option String) (disks : DiskList) (vms : VmList) (first : Bool) (v : Vm)
        (l : Links iso_links disk_links)
        → is_stopped v.status ≡ true
        → (attach_and_save iso_links disk_links first
            (λ saves. attach_disks parse disks vms saves [] v)
            l).0
          ≡ record v { disks = [] }
    unfolding attach_and_save
    disks_taken_off parse disks vms first v l idle = no_disks parse disks vms _ v idle

    isos_taken_off :
        (second : Bool) (v : Vm) (l : Links iso_links disk_links)
        → is_stopped v.status ≡ true
        → attach_and_save iso_links disk_links second (λ saves. attach_isos saves [] v) l ≡ (
          record v { isos = [] },
          (save_vm iso_links disk_links second (record v { isos = [] }) l).1,
        )
    unfolding attach_and_save attach_isos
    isos_taken_off second v l idle =
        let l' = save_vm iso_links disk_links second (record v { isos = [] }) l in
        elim (Bool-cases l'.0) [
          | inl done ↦ rw (idle, done) refl
          | inr undone ↦ rw (idle, undone) refl
        ]

    -- A stopped VM that is deleted has no disk and no ISO in memory, no row in vm_disks and vm_isos,
    -- and no NIC, whether its own row could be deleted or not, if it has an ID and its configuration
    -- one that is not 0, the updates of its rows succeed in the save after its ISOs were detached, no
    -- delete on the two tables fails, and no query or update of NICs does.
    pub delete_vm-detaches :
        (parse : String → Option String) (disks : DiskList) (vms : VmList) (first : Bool) (v : Vm)
        (l : Links iso_links disk_links) (nic_db : nics.Db) (db : store.Db)
        → is_stopped v.status ≡ true
        → v.id ≢ ""
        → v.config.id ≢ 0
        → DeletesWork iso_links
        → DeletesWork disk_links
        → let (deleted, v', l', nic_db', db') =
            delete_vm iso_links disk_links nics store parse disks vms first true v l nic_db db in
          (v'.disks ≡ [])
          × (v'.isos ≡ [])
          × Unlinked v.id l'
          × ((x : VmNic) → Member x (nics.rows nic_db') → x.config_id ≢ v.config.id)
    unfolding delete_vm
    delete_vm-detaches parse disks vms first v l nic_db db idle named real isos_work disks_work =
        let taken =
          attach_and_save iso_links disk_links first
            (λ saves. attach_disks parse disks vms saves [] v) l in
        let no_disk : taken.0 ≡ record v { disks = [] } =
          disks_taken_off parse disks vms first v l idle in
        let bare = record v { disks = []; isos = [] } in
        let both =
          ap
            (λ (w : Vm).
              attach_and_save iso_links disk_links true (λ saves. attach_isos saves [] w) taken.1)
            no_disk
          ∙ isos_taken_off true (record v { disks = [] }) taken.1 idle in
        subst
          (λ (p : Vm × Links iso_links disk_links).
            ((p.0).disks ≡ [])
            × ((p.0).isos ≡ [])
            × Unlinked v.id p.1
            × ((x : VmNic)
                → Member x (nics.rows (set_nics nics parse vms p.0 [] nic_db).1)
                → x.config_id ≢ v.config.id))
          (sym both)
          (
            refl,
            refl,
            save_vm-Unlinked bare taken.1 isos_work disks_work named real refl refl,
            no_nics parse vms bare nic_db idle real,
          )
