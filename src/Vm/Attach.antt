-- ===== src/Vm/Attach.antt =====
-- `AttachDisks` of cirrinad/vm/disk.go with its tests, and `AttachIsos` of cirrinad/vm/iso.go.
-- `parse` is `uuid.Parse` and the print of what it yields; the list of VMs holds the VM that the
-- disks are attached to, as `GetByID` hands it out; `saves` says whether the VM's `Save` succeeds.
pub mod Exclusive
pub mod Whole
pub mod Nics
use cirrina.Prelude.{
  ℕ, String, ◌≡◌, refl, Bool, true, false, not, ◌&&◌, Option, none, some, List, [], ◌∷◌, ◌++◌, map,
  str_eq, if◌then◌else◌, Result, ok, err,
}
use cirrina.Disk.{DiskError, DiskList, get_by_id}
use cirrina.Vm.{Vm, Disk, Iso}
use cirrina.Vm.Args.{is_stopped}
use cirrina.Vm.Args.Net.{contains_str}

pub data AttachError : Type 0 where
  vm_not_stopped disk_invalid disk_lookup disk_nameless disk_dupe disk_elsewhere : AttachError
  save_failed : AttachError

-- Whether a disk of that ID is among those of a VM; a nil entry is passed over.
unfoldable pub holds : String → List (Option Disk) → Bool
holds i [] = false
holds i (none ∷ disks) = holds i disks
holds i (some d ∷ disks) = let rest = holds i disks in if str_eq i d.id then true else rest

unfoldable pub disk_attached : String → String → List Vm → Bool
unfolding holds
disk_attached i vm_id [] = false
disk_attached i vm_id (v ∷ vms) =
    let rest = disk_attached i vm_id vms in
    if holds i v.disks && not (str_eq v.id vm_id) then true else rest

abbrev put_first : Disk → Bool × List (Option Disk) → Bool × List (Option Disk)
put_first d (all_found, disks) = (all_found, some d ∷ disks)

abbrev looked_up : Result DiskError Disk → Bool × List (Option Disk) → Bool × List (Option Disk)
looked_up (err e) rest = (false, [])
looked_up (ok d) rest = put_first d rest

-- The loop that appends the disks: whether all were found, and the disks up to the first that was not.
unfoldable pub gather_disks : DiskList → List String → Bool × List (Option Disk)
unfolding get_by_id
gather_disks list [] = (true, [])
gather_disks list (i ∷ ids) = let rest = gather_disks list ids in looked_up (get_by_id i list) rest

module _ (parse : String → Option String) (list : DiskList) (vms : List Vm) where
  -- The tests on a disk that was looked up, before those on the disks behind it.
  unfoldable pub check_disk :
      String
      → String
      → List String
      → Option AttachError
      → Result DiskError Disk
      → Option AttachError
  unfolding disk_attached contains_str
  check_disk vm_id i occurred rest (err e) = some disk_lookup
  check_disk vm_id i occurred rest (ok d) =
      if str_eq d.name ""
      then some disk_nameless
      else if contains_str occurred i
      then some disk_dupe
      else if disk_attached i vm_id vms
      then some disk_elsewhere
      else rest

  -- The loop of `validateDisks`, with the IDs that occurred so far.
  unfoldable pub validate_disks : String → List String → List String → Option AttachError
  unfolding check_disk get_by_id
  validate_disks vm_id occurred [] = none
  validate_disks vm_id occurred (i ∷ ids) =
      let rest = validate_disks vm_id (i ∷ occurred) ids in
      elim (parse i) [
        | none ↦ some disk_invalid
        | some u ↦ check_disk vm_id i occurred rest (get_by_id u list)
      ]

  abbrev gathered : Bool → Vm → Bool × List (Option Disk) → Option AttachError × Vm
  gathered saves v (false, disks) = (some disk_lookup, record v { disks = disks })
  gathered saves v (true, disks) =
      (if saves then none else some save_failed, record v { disks = disks })

  unfoldable pub attach_disks : Bool → List String → Vm → Option AttachError × Vm
  unfolding validate_disks gather_disks
  attach_disks saves ids v =
      if not (is_stopped v.status)
      then (some vm_not_stopped, v)
      else elim (validate_disks v.id [] ids) [
        | some e ↦ (some e, v)
        | none ↦ gathered saves v (gather_disks list ids)
      ]

-- The list of VMs after a change of one of them.
abbrev pub with_vm : Vm → List Vm → List Vm
with_vm v vms = map (λ w. if str_eq w.id v.id then v else w) vms

unfoldable pub attach_isos : Bool → List (Option Iso) → Vm → Option AttachError × Vm
attach_isos saves isos v =
    if not (is_stopped v.status)
    then (some vm_not_stopped, v)
    else (if saves then none else some save_failed, record v { isos = isos })
