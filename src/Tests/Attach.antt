-- ===== src/Tests/Attach.antt =====
-- Runs of `AttachDisks` of cirrinad/vm/disk.go and of `SetNics` of cirrinad/vm/nic.go.
use mathlib.Core.Bool.{false≢true}
use cirrina.Prelude.{
  String, ◌≡◌, refl, ◌≢◌, ◌↔◌, ◌⊎◌, sym, ap, ◌∙◌, true, false, Option, none, some, List, [], ◌∷◌,
  arith, eq_iff, if◌then◌else◌, ok, Member, Member-cons, here, there, inl, inr,
}
use cirrina.Requests.{first_where}
use cirrina.Requests.Dispatch.{Distinct}
use cirrina.Vmnic.{VmNic, validate, nic_type_valid, nic_dev_type_valid}
use cirrina.Vmnic.Table.{get_nics, select_nics, get_by_id as nic_by_id, save}
use cirrina.Util.Name.{valid_nic_name}
use cirrina.Vm.{Vm, Disk, stopped}
use cirrina.Disk.{DiskList, with_id, get_by_id}
use cirrina.Vm.Args.Net.{contains_str}
use cirrina.Vm.Lifecycle.{disk_ids}
use cirrina.Vm.Attach.{holds, disk_attached, disk_lookup, save_failed, attach_disks, with_vm}
use cirrina.Vm.Attach.Exclusive.{ExclusiveDisks, attach_disks-ExclusiveDisks}
use cirrina.Vm.Attach.Whole.{attach_disks-whole, attach_disks-other_spelling}
use cirrina.Vm.Attach.Nics.{
  nic_lookup, detach_all, detach_read, remove_all_nics_from_vm, has_nic, other_vm_has, nic_attached,
  check_nic, validate_nics, saved_to, attach_found, add_nics, set_nics,
}
use cirrina.Vm.Attach.Nics.Exact.{set_nics-exact, set_nics-refused}
use cirrina.Tests.Tables.{list_store-laws, list_store-Reliable}
use cirrina.Tests.Slots.{web, boot_disk, nic, nics}

abbrev pub db_vm : Vm
db_vm = record web {
  id = "vm-2";
  name = "db";
  status = stopped;
  config = record web.config { id = 5 };
  disks = [];
}

abbrev pub fleet : List Vm
fleet = web ∷ db_vm ∷ []

abbrev data_disk : Disk
data_disk = record boot_disk { id = "disk-2"; name = "data" }

abbrev pub list : DiskList
list = boot_disk ∷ data_disk ∷ []

abbrev pub parse : String → Option String
parse i = some i

fleet_cases : (a : Vm) → Member a fleet → (a ≡ web) ⊎ (a ≡ db_vm)
fleet_cases a m = elim (Member-cons m) [
  | inl is_web ↦ inl is_web
  | inr later ↦ elim (Member-cons later) [
    | inl is_db ↦ inr is_db
    | inr none_left ↦ elim none_left [ ]
  ]
]

bare : (a : Vm) (i : String) → a ≡ db_vm → ¬ (holds i a.disks ≡ true)
unfolding holds
bare a i e h = false≢true (sym (ap (λ (v : Vm). holds i v.disks) e) ∙ h)

fleet_is_exclusive : ExclusiveDisks fleet
unfolding ExclusiveDisks
fleet_is_exclusive a b i ma mb ha hb = elim (fleet_cases a ma) [
  | inr is_db ↦ absurd (bare a i is_db ha)
  | inl a_web ↦ elim (fleet_cases b mb) [
    | inr is_db ↦ absurd (bare b i is_db hb)
    | inl b_web ↦ ap (λ v. v.id) (a_web ∙ sym b_web)
  ]
]

attach_disks-ExclusiveDisks_example :
    ExclusiveDisks (with_vm (attach_disks parse list fleet true ("disk-2" ∷ []) db_vm).1 fleet)
attach_disks-ExclusiveDisks_example =
    attach_disks-ExclusiveDisks parse list fleet true ("disk-2" ∷ []) db_vm (there (here refl))
      fleet_is_exclusive

attach_disks-whole_example :
    let (answer, v') = attach_disks parse list fleet true ("disk-2" ∷ []) db_vm in
    ((v' ≡ db_vm) × (answer ≢ none))
    ⊎ ((disk_ids v'.disks ≡ "disk-2" ∷ [])
        × Distinct ("disk-2" ∷ [])
        × (answer ≡ (if true then none else some save_failed)))
attach_disks-whole_example =
    attach_disks-whole parse list fleet true ("disk-2" ∷ []) db_vm (refl, tt)

abbrev lower : String → Option String
lower i = some "disk-2"

upper_is_free : disk_attached "DISK-2" "vm-2" fleet ≡ false
unfolding disk_attached holds
upper_is_free = refl

upper_is_absent : with_id "DISK-2" list ≡ none
unfolding first_where
upper_is_absent = refl

data_is_found : get_by_id "disk-2" list ≡ ok data_disk
unfolding get_by_id first_where
data_is_found = refl

attach_disks-other_spelling_example :
    attach_disks lower list fleet true ("DISK-2" ∷ []) db_vm
    ≡ (some disk_lookup, record db_vm { disks = [] })
attach_disks-other_spelling_example =
    attach_disks-other_spelling lower list fleet true "DISK-2" "disk-2" data_disk db_vm refl refl
      data_is_found (λ e. false≢true ((eq_iff "data" "").1 e))
      (λ e. false≢true ((eq_iff "DISK-2" "").1 e)) upper_is_absent upper_is_free

abbrev spare_nic : VmNic
spare_nic = record nic { id = "nic-2"; name = "spare"; config_id = 0 }

abbrev table : List VmNic
table = nic ∷ spare_nic ∷ []

pub config_is_real : db_vm.config.id ≢ 0
config_is_real e = ground arith

spare_is_set : (set_nics nics parse fleet db_vm ("nic-2" ∷ []) table).0 ≡ none
unfolding set_nics remove_all_nics_from_vm detach_read detach_all get_nics select_nics validate_nics
    check_nic nic_attached other_vm_has has_nic contains_str nic_by_id validate valid_nic_name
    nic_type_valid nic_dev_type_valid add_nics attach_found saved_to save first_where
spare_is_set = refl

abbrev set_nic : VmNic
set_nic = record spare_nic { config_id = 5 }

set_nic_is_there :
    Member set_nic (nics.rows (set_nics nics parse fleet db_vm ("nic-2" ∷ []) table).1)
unfolding set_nics remove_all_nics_from_vm detach_read detach_all get_nics select_nics validate_nics
    check_nic nic_attached other_vm_has has_nic contains_str nic_by_id validate valid_nic_name
    nic_type_valid nic_dev_type_valid add_nics attach_found saved_to save first_where
set_nic_is_there = there (here refl)

set_nics-exact_example : (set_nic.config_id ≡ 5) ↔ Member set_nic.id ("nic-2" ∷ [])
set_nics-exact_example =
    set_nics-exact nics (list_store-laws VmNic) (list_store-Reliable VmNic) parse fleet db_vm
      ("nic-2" ∷ []) table config_is_real spare_is_set set_nic set_nic_is_there

ghost_is_refused :
    validate_nics nics parse fleet db_vm.id []
      ("nic-9" ∷ [])
      (remove_all_nics_from_vm nics db_vm table).1
    ≡ some nic_lookup
unfolding remove_all_nics_from_vm detach_read detach_all get_nics select_nics validate_nics
    check_nic nic_by_id first_where save
ghost_is_refused = refl

set_nics-refused_example :
    ((set_nics nics parse fleet db_vm ("nic-9" ∷ []) table).0 ≡ some nic_lookup)
    × ((x : VmNic)
        → Member x (nics.rows (set_nics nics parse fleet db_vm ("nic-9" ∷ []) table).1)
        → x.config_id ≢ 5)
set_nics-refused_example =
    set_nics-refused nics (list_store-laws VmNic) (list_store-Reliable VmNic) parse fleet db_vm
      ("nic-9" ∷ []) table nic_lookup config_is_real refl ghost_is_refused
