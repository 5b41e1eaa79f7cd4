-- ===== src/Vm/Table.antt =====
-- The table and the list of VMs: `Create` and `Exists` of cirrinad/vm/vm.go, `BeforeCreate` of
-- cirrinad/vm/db.go and the lookups of cirrinad/vm/util.go.
-- `id_ok` is the test of an ID in `BeforeCreate`, `new_id` the ID that package uuid makes.
pub mod Names
pub mod Detached
use cirrina.Prelude.{
  ℕ, suc, String, Bool, true, false, not, Option, none, some, List, [], ◌∷◌, ◌==◌, str_eq,
  if◌then◌else◌, Result, ok, err,
}
use cirrina.Store.{Store, Write, failed, affected, remove_where}
use cirrina.Requests.{first_where}
use cirrina.Util.Name.{valid_vm_name}
use cirrina.Vmnic.{VmNic}
use cirrina.Disk.{DiskList}
use cirrina.Vm.{Vm}
use cirrina.Vm.Args.{is_stopped}
use cirrina.Vm.Attach.{attach_disks, attach_isos}
use cirrina.Vm.Attach.Nics.{set_nics}

pub data VmError : Type 0 where
  vm_not_found vm_dupe invalid_vm_name internal_db database_error : VmError

-- `List.VMList`: a map from an ID to the VM that has it, in some order, which the loops of Go do not
-- promise; two VMs of one name would be found by it.
abbrev pub VmList : Type 0
VmList = List Vm

abbrev pub found_vm : Option Vm → Result VmError Vm
found_vm none = err vm_not_found
found_vm (some v) = ok v

unfoldable pub get_by_id : String → VmList → Result VmError Vm
get_by_id id list = found_vm (first_where (λ v. str_eq v.id id) list)

unfoldable pub get_by_name : String → VmList → Result VmError Vm
get_by_name name list = found_vm (first_where (λ v. str_eq v.name name) list)

abbrev is_found : Result VmError Vm → Bool
is_found (ok v) = true
is_found (err e) = false

-- `Exists`
unfoldable pub vm_exists : String → VmList → Bool
unfolding get_by_name
vm_exists name list = is_found (get_by_name name list)

unfoldable pub get_running_vms : VmList → ℕ
get_running_vms [] = 0
get_running_vms (v ∷ list) =
    let rest = get_running_vms list in if is_stopped v.status then rest else suc rest

-- `initVM` puts the VM into the list, and `delete` takes it out.
unfoldable pub init_vm : Vm → VmList → VmList
init_vm v list = v ∷ remove_where (λ w. str_eq w.id v.id) list

unfoldable pub forget_vm : String → VmList → VmList
forget_vm id list = remove_where (λ w. str_eq w.id id) list

unfoldable pub with_new_id : (String → Bool) → String → Vm → Vm
with_new_id id_ok new_id v = if id_ok v.id then v else record v { id = new_id }

module _ (store : Store Vm) where
  open store use {Db, create as insert, delete as remove}

  pub record Vms : Type 0 where
    pub db : Db
    pub list : VmList

  abbrev inserted : Write × Db → Vm → Vms → Result VmError Vm × Vms
  inserted (failed, db) row s = (err database_error, record s { db = db })
  inserted (affected n, db) row s =
      if n == 1
      then (ok row, record { db = db; list = init_vm row s.list })
      else (err database_error, record s { db = db })

  unfoldable pub insert_vm : (String → Bool) → String → Vm → Vms → Result VmError Vm × Vms
  unfolding with_new_id init_vm
  insert_vm id_ok new_id v s =
      if str_eq v.name ""
      then (err invalid_vm_name, s)
      else let row = with_new_id id_ok new_id v in inserted (insert row s.db) row s

  unfoldable pub create : (String → Bool) → String → Vm → Vms → Result VmError Vm × Vms
  unfolding vm_exists insert_vm
  create id_ok new_id v s =
      if vm_exists v.name s.list
      then (err vm_dupe, s)
      else if not (valid_vm_name v.name)
      then (err invalid_vm_name, s)
      else insert_vm id_ok new_id v s
