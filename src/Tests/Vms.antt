-- ===== src/Tests/Vms.antt =====
-- Runs of `Create`, `Delete` and `CheckAll` of cirrinad/vm/vm.go and of `Create` of
-- cirrinad/iso/iso.go.
use cirrina.Prelude.{eq_iff, ◌≡◌, refl, ◌≢◌, true, false, some, List, [], ◌∷◌, Member, str_eq}
use cirrina.Requests.Dispatch.{Distinct}
use cirrina.Vmnic.{VmNic}
use cirrina.Vm.{Vm, Iso, Host}
use cirrina.Vm.Table.{Vms, create}
use cirrina.Vm.Delete.{Links, delete_vm}
use cirrina.Store.{Store}
use mathlib.Core.Bool.{false≢true}
use cirrina.Vm.Table.Names.{names, IsCreated, create-Outcome}
use cirrina.Vm.Table.Detached.{Unlinked, delete_vm-detaches}
use cirrina.Vm.Attachments.{Attachment, check_attachments}
use cirrina.Vm.Attachments.Known.{OnlyUnknownLeft, AllKnown, check_attachments-AllKnown}
use cirrina.Iso.{create as create_iso}
use cirrina.Iso.Created.{IsNewIso, create-IsNewIso}
use cirrina.Tests.Tables.{count, list_store, list_store-laws, list_store-Reliable}
use cirrina.Tests.Slots.{web, boot_disk, nic, nics, settings, host}
use cirrina.Tests.Attach.{db_vm, fleet, list, parse, config_is_real}

abbrev one_vm : Vms (list_store Vm)
one_vm = record { db = web ∷ []; list = web ∷ [] }

one_name : Distinct (names (web ∷ []))
one_name = ((λ m. elim m [ ]), tt)

create-Outcome_example :
    Distinct (names ((create (list_store Vm) (λ i. true) "vm-9" db_vm one_vm).1).list)
    × IsCreated
        (list_store Vm)
        db_vm
        one_vm.list
        (create (list_store Vm) (λ i. true) "vm-9" db_vm one_vm)
create-Outcome_example = create-Outcome (list_store Vm) (λ i. true) "vm-9" db_vm one_vm one_name

abbrev full_vm : Vm
full_vm = record db_vm { disks = some boot_disk ∷ [] }

abbrev links : Store Attachment
links = list_store Attachment

abbrev full_links : Links links links
full_links = record { isos = []; disks = record { vm_id = "vm-2"; item_id = "disk-1" } ∷ [] }

delete_vm-detaches_example :
    let (deleted, v', l', nic_db', db') =
      delete_vm links links nics
        (list_store Vm)
        parse
        list
        fleet
        true
        true
        full_vm
        full_links
        (nic ∷ [])
        fleet in
    (v'.disks ≡ [])
    × (v'.isos ≡ [])
    × Unlinked links links (list_store-laws Attachment) (list_store-laws Attachment) "vm-2" l'
    × ((x : VmNic) → Member x (nics.rows nic_db') → x.config_id ≢ 5)
delete_vm-detaches_example =
    delete_vm-detaches links links (list_store-laws Attachment) (list_store-laws Attachment)
      (list_store Vm) nics (list_store-laws VmNic) (list_store-Reliable VmNic) parse list fleet true
      full_vm full_links (nic ∷ []) fleet refl (λ e. false≢true ((eq_iff "vm-2" "").1 e))
      config_is_real (λ p db. (count p db, refl)) (λ p db. (count p db, refl))

abbrev live_iso : Iso
live_iso = record { id = ""; name = "live.iso"; path = "" }

-- A host without the file.
abbrev empty_host : Host
empty_host = record host { path_exists = λ path. record { exists = false; failed = false } }

create-IsNewIso_example :
    IsNewIso
      (list_store Iso)
      (list_store-laws Iso)
      settings
      empty_host
      live_iso
      []
      (create_iso (list_store Iso) (λ i. true) "iso-9" settings empty_host live_iso [])
create-IsNewIso_example =
    create-IsNewIso (list_store Iso) (list_store-laws Iso) (λ i. true) "iso-9" settings empty_host
      live_iso []

abbrev joined : List Attachment
joined =
    record { vm_id = "vm-1"; item_id = "disk-1" }
    ∷ record { vm_id = "gone"; item_id = "disk-1" }
    ∷ []

check_attachments-AllKnown_example :
    let after = check_attachments str_eq fleet (list_store Attachment) ("disk-1" ∷ []) joined in
    OnlyUnknownLeft str_eq fleet (list_store Attachment) (list_store-laws Attachment) joined after
    × AllKnown str_eq fleet
        (list_store Attachment)
        (list_store-laws Attachment)
        ("disk-1" ∷ [])
        after
check_attachments-AllKnown_example =
    check_attachments-AllKnown str_eq fleet (list_store Attachment) (list_store-laws Attachment)
      ("disk-1" ∷ []) joined (λ db. refl, λ p db. (count p db, refl))
