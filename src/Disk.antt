-- ===== src/Disk.antt =====
-- cirrinad/disk/disk.go: the table of disks, the list of disks in memory that mirrors it, and the
-- disks' backings. `BeforeCreate` of cirrinad/disk/db.go is `with_new_id`.
-- The two services for backings (files and ZFS volumes) are an interface, `Backings`, as they are in
-- the code; what a service needs of the host is its `World`.
pub mod Table
pub mod Mirror
use cirrina.Prelude.{
  ℕ, String, ◌≡◌, refl, Bool, true, false, not, ◌&&◌, ◌||◌, Option, none, some, List, [], ◌∷◌, ◌==◌,
  str_eq, if◌then◌else◌, Result, ok, err,
}
use cirrina.Store.{remove_where}
use cirrina.Util.Name.{valid_disk_name}
use cirrina.Requests.{first_where}
use cirrina.Vm.{Disk, Settings}

pub data DiskError : Type 0 where
  disk_exists disk_not_found id_empty_or_invalid disk_in_use invalid_disk_name : DiskError
  invalid_disk_type invalid_dev_type zpool_not_configured internal_db : DiskError
  database_error backing_error size_error : DiskError

unfoldable pub disk_dev_type_valid : String → Bool
disk_dev_type_valid t = if str_eq t "FILE" then true else if str_eq t "ZVOL" then true else false

unfoldable pub disk_type_valid : String → Bool
disk_type_valid t =
    if str_eq t "NVME"
    then true
    else if str_eq t "AHCI-HD"
    then true
    else if str_eq t "VIRTIO-BLK"
    then true
    else false

-- The error that a disk is refused with.
unfoldable pub validate : Settings → Disk → Option DiskError
unfolding disk_type_valid disk_dev_type_valid
validate settings d =
    if not (valid_disk_name d.name)
    then some invalid_disk_name
    else if not (disk_type_valid d.disk_type)
    then some invalid_disk_type
    else if not (disk_dev_type_valid d.dev_type)
    then some invalid_dev_type
    else if str_eq d.dev_type "ZVOL" && str_eq settings.zpool ""
    then some zpool_not_configured
    else none

-- `List.DiskList`: a map from an ID to the disk that has it.
abbrev pub DiskList : Type 0
DiskList = List Disk

abbrev pub with_id : String → List Disk → Option Disk
with_id i disks = first_where (λ d. str_eq d.id i) disks

abbrev pub found_disk : Option Disk → Result DiskError Disk
found_disk none = err disk_not_found
found_disk (some d) = ok d

unfoldable pub get_by_id : String → DiskList → Result DiskError Disk
get_by_id disk_id list =
    if str_eq disk_id "" then err id_empty_or_invalid else found_disk (with_id disk_id list)

unfoldable pub get_by_name : String → DiskList → Result DiskError Disk
get_by_name name list = found_disk (first_where (λ d. str_eq d.name name) list)

abbrev pub drop_id : String → DiskList → DiskList
drop_id i list = remove_where (λ d. str_eq d.id i) list

-- `initOneDisk`: an entry under the same ID is replaced.
unfoldable pub init_one_disk : Disk → DiskList → DiskList
init_one_disk d list = d ∷ drop_id d.id list

-- A service for backings: whether one exists, `none` where the check fails, and the creation of one
-- of a size, with whether it succeeded.
pub record InfoService (World : Type 0) : Type 0 where
  pub exists : String → World → Option Bool
  pub create : String → ℕ → World → Bool × World

pub record Backings : Type 1 where
  pub World : Type 0
  pub file : InfoService World
  pub zvol : InfoService World

unfoldable pub service_of : (backings : Backings) → String → Option (InfoService backings.World)
service_of backings dev_type =
    if str_eq dev_type "FILE"
    then some backings.file
    else if str_eq dev_type "ZVOL"
    then some backings.zvol
    else none
