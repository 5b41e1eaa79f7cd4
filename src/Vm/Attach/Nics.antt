-- ===== src/Vm/Attach/Nics.antt =====
-- `SetNics` of cirrinad/vm/nic.go, with `removeAllNicsFromVM`, `validateNics` and `nicAttached`.
-- `parse` is `uuid.Parse` and the print of what it yields.
pub mod Exact
use cirrina.Prelude.{
  ℕ, String, Bool, true, false, not, ◌&&◌, Option, none, some, List, [], ◌∷◌, str_eq, if◌then◌else◌,
  Result, ok, err,
}
use cirrina.Store.{Store}
use cirrina.Vmnic.{VmNic, NicError, validate}
use cirrina.Vmnic.Table.{get_nics, get_by_id, save}
use cirrina.Vm.{Vm}
use cirrina.Vm.Args.{is_stopped}
use cirrina.Vm.Args.Net.{contains_str}

-- Where `SetNics` gave up.
pub data NicsError : Type 0 where
  vm_not_stopped remove_failed nic_unparsed nic_lookup nic_invalid nic_dupe : NicsError
  nic_elsewhere nics_unread add_lookup add_failed : NicsError

unfoldable pub has_nic : String → List VmNic → Bool
has_nic i [] = false
has_nic i (nic ∷ nics) = let rest = has_nic i nics in if str_eq i nic.id then true else rest

-- The test of one VM's NICs, before those of the VMs behind it.
unfoldable pub other_vm_has :
    String → Bool → Option NicsError → Result NicError (List VmNic) → Option NicsError
unfolding has_nic
other_vm_has i other rest (err e) = some nics_unread
other_vm_has i other rest (ok nics) = if has_nic i nics && other then some nic_elsewhere else rest

module _ (store : Store VmNic) where
  open store use {Db}

  -- One save of a loop, and the rest of the loop if it succeeded.
  abbrev after_save :
      NicsError → Result NicError (Unit {0}) → Db → Option NicsError × Db → Option NicsError × Db
  after_save e (err _) db rest = (some e, db)
  after_save e (ok _) db rest = rest

  unfoldable pub detach_all : List VmNic → Db → Option NicsError × Db
  unfolding save
  detach_all [] db = (none, db)
  detach_all (nic ∷ nics) db =
      let (saved, db') = save store (record nic { config_id = 0 }) db in
      let rest = detach_all nics db' in after_save remove_failed saved db' rest

  unfoldable pub detach_read : Result NicError (List VmNic) → Db → Option NicsError × Db
  unfolding detach_all
  detach_read (err e) db = (some remove_failed, db)
  detach_read (ok nics) db = detach_all nics db

  unfoldable pub remove_all_nics_from_vm : Vm → Db → Option NicsError × Db
  unfolding detach_read
  remove_all_nics_from_vm v db = detach_read (get_nics store v.config.id db) db

  unfoldable pub nic_attached : String → String → List Vm → Db → Option NicsError
  unfolding other_vm_has
  nic_attached i vm_id [] db = none
  nic_attached i vm_id (w ∷ vms) db =
      let rest = nic_attached i vm_id vms db in
      other_vm_has i (not (str_eq w.id vm_id)) rest (get_nics store w.config.id db)

  module _ (parse : String → Option String) (vms : List Vm) where
    abbrev first_error : Option NicsError → Option NicsError → Option NicsError
    first_error none rest = rest
    first_error (some e) rest = some e

    abbrev is_refused : Result NicError VmNic → Bool
    is_refused (ok nic) = false
    is_refused (err e) = true

    -- The tests on a NIC that was looked up, before those on the NICs behind it.
    unfoldable pub check_nic :
        String
        → String
        → List String
        → Option NicsError
        → Result NicError VmNic
        → Db
        → Option NicsError
    unfolding contains_str nic_attached
    check_nic vm_id i occurred rest (err e) db = some nic_lookup
    check_nic vm_id i occurred rest (ok nic) db =
        if is_refused (validate nic)
        then some nic_invalid
        else if contains_str occurred i
        then some nic_dupe
        else first_error (nic_attached i vm_id vms db) rest

    unfoldable pub validate_nics : String → List String → List String → Db → Option NicsError
    unfolding check_nic get_by_id
    validate_nics vm_id occurred [] db = none
    validate_nics vm_id occurred (i ∷ ids) db =
        let rest = validate_nics vm_id (i ∷ occurred) ids db in
        elim (parse i) [
          | none ↦ some nic_unparsed
          | some u ↦ check_nic vm_id i occurred rest (get_by_id store u db) db
        ]

  -- The loop that adds the NICs.
  unfoldable pub saved_to : ℕ → VmNic → Db → Result NicError (Unit {0}) × Db
  unfolding save
  saved_to config_id nic db = save store (record nic { config_id = config_id }) db

  unfoldable pub attach_found : ℕ → Result NicError VmNic → Db → Option NicsError × Db
  unfolding saved_to
  attach_found config_id (err e) db = (some add_lookup, db)
  attach_found config_id (ok nic) db =
      let (saved, db') = saved_to config_id nic db in after_save add_failed saved db' (none, db')

  unfoldable pub add_nics : ℕ → List String → Db → Option NicsError × Db
  unfolding attach_found get_by_id
  add_nics config_id [] db = (none, db)
  add_nics config_id (i ∷ ids) db =
      let (answer, db') = attach_found config_id (get_by_id store i db) db in
      let rest = add_nics config_id ids db' in elim answer [ some e ↦ (some e, db') | none ↦ rest ]

  unfoldable pub set_nics :
      (String → Option String) → List Vm → Vm → List String → Db → Option NicsError × Db
  unfolding remove_all_nics_from_vm validate_nics add_nics
  set_nics parse vms v ids db =
      if not (is_stopped v.status)
      then (some vm_not_stopped, db)
      else let (removed, db') = remove_all_nics_from_vm v db in
        elim removed [
          | some e ↦ (some e, db')
          | none ↦ elim (validate_nics parse vms v.id [] ids db') [
            | some e ↦ (some e, db')
            | none ↦ add_nics v.config.id ids db'
          ]
        ]
