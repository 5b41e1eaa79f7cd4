-- ===== src/Vm.antt =====
-- The VM of cirrinad/vm/vm.go: its configuration, its state, and what the host tells it.
-- Below: `Args` is the command line of cirrinad/vm/args.go.
pub mod Args
pub mod Lifecycle
pub mod Attach
pub mod Table
pub mod Networking
pub mod Attachments
pub mod Delete
use cirrina.Prelude.{ℕ, String, Bool, Option, List, Result}
use cirrina.Strconv.{ℤ}
use cirrina.Util.Port.{CommandRun}

pub data StatusType : Type 0 where
  stopped starting running stopping : StatusType

-- `sql.NullBool`
pub record NullBool : Type 0 where
  pub valid : Bool
  pub bool : Bool

-- The columns of the configuration that the daemon reads when it starts a VM.
pub record Config : Type 0 where
  pub id : ℕ
  pub cpu : ℕ
  pub mem : ℕ
  pub screen : Bool
  pub screen_width : ℕ
  pub screen_height : ℕ
  pub vnc_wait : Bool
  pub vnc_port : String
  pub tablet : Bool
  pub store_uefi_vars : Bool
  pub utc_time : Bool
  pub host_bridge : Bool
  pub acpi : Bool
  pub use_hlt : Bool
  pub exit_on_pause : Bool
  pub wire_guest_mem : Bool
  pub destroy_power_off : Bool
  pub ignore_unknown_msr : Bool
  pub kbd_layout : String
  pub sound : Bool
  pub sound_in : String
  pub sound_out : String
  pub com1 : Bool
  pub com1_dev : String
  pub com2 : Bool
  pub com2_dev : String
  pub com3 : Bool
  pub com3_dev : String
  pub com4 : Bool
  pub com4_dev : String
  pub extra_args : String
  pub debug : Bool
  pub debug_wait : Bool
  pub debug_port : String
  pub priority : ℤ
  pub protect : NullBool

pub record Iso : Type 0 where
  pub id : String
  pub name : String
  pub path : String

-- `disk.Disk`; its type and the type of its backing are the texts of the database.
pub record Disk : Type 0 where
  pub id : String
  pub name : String
  pub disk_type : String
  pub dev_type : String
  pub disk_cache : NullBool
  pub disk_direct : NullBool

-- The lists of ISOs and disks hold pointers that may be nil.
pub record Vm : Type 0 where
  pub id : String
  pub name : String
  pub status : StatusType
  pub bhyve_pid : ℕ
  pub vnc_port : ℕ
  pub debug_port : ℕ
  pub config : Config
  pub isos : List (Option Iso)
  pub disks : List (Option Disk)
  pub com1_dev : String
  pub com2_dev : String
  pub com3_dev : String
  pub com4_dev : String

-- The daemon's own configuration, as far as a command line reads it.
pub record Settings : Type 0 where
  pub sudo : String
  pub iso_path : String
  pub image_path : String
  pub zpool : String
  pub state_path : String
  pub rom_path : String
  pub vnc_port : ℕ
  pub vnc_ip : String
  pub debug_port : ℕ
  pub debug_ip : String
  pub mac_oui : String

-- What a path check answers: whether the path exists, and whether the check failed.
pub record PathCheck : Type 0 where
  pub exists : Bool
  pub failed : Bool

-- The host: what the daemon asks of the system and of packages that are not its own.
-- `join` is `filepath.Join`, whose result is only passed on; `to_uint16` is `cast.ToUint16`;
-- `net_hash` is the tail of a generated MAC address; `ng_dev` is the answer of `GetNgDev`, which
-- reads the host's netgraph nodes.
pub record Host : Type 0 where
  pub path_exists : String → PathCheck
  pub interfaces : List String
  pub max_vm_cpus : Option ℕ
  pub netstat : CommandRun
  pub find_disk : String → Option Disk
  pub join : String → String → String
  pub to_uint16 : ℤ → ℕ
  pub net_hash : String → String → String → String → Option String
  pub ng_dev : String → String → Option (String × String)
