-- ===== src/Tests/Slots.antt =====
-- Runs of the command line of cirrinad/vm/args.go.
use cirrina.Prelude.{
  ◌≤◌, ◌<◌, ◌⊎◌, sym, ap, Bool, true, false, Option, none, some, [], ◌∷◌, ◌++◌, arith, str_eq,
  if◌then◌else◌,
}
use cirrina.Store.{Store}
use cirrina.Strconv.{pos, append}
use cirrina.Vmnic.{VmNic}
use cirrina.Vm.{running, NullBool, Config, Iso, Disk, Vm, Settings, Host}
use cirrina.Vm.Args.Slots.{is_sata, wanted_disk, get_cd_arg, get_disk_arg}
use cirrina.Vm.Args.Net.{get_tap_dev, get_vmnet_dev}
use cirrina.Vm.Args.CommandLine.{get_slot_args}
use cirrina.Vm.Args.Takes.{Takes, before_lpc, get_slot_args-Takes}
use cirrina.Vm.Args.SlotBounds.{IsSata, get_disk_arg-below_lpc}
use cirrina.Vm.Args.NetDevs.{IsUnused, net_dev_search_ends}
use cirrina.Tests.Tables.{list_store}

abbrev unset : NullBool
unset = record { valid = false; bool = false }

abbrev config : Config
config = record {
  id = 4;
  cpu = 2;
  mem = 4096;
  screen = true;
  screen_width = 1920;
  screen_height = 1080;
  vnc_wait = false;
  vnc_port = "5901";
  tablet = true;
  store_uefi_vars = true;
  utc_time = true;
  host_bridge = true;
  acpi = true;
  use_hlt = true;
  exit_on_pause = true;
  wire_guest_mem = false;
  destroy_power_off = true;
  ignore_unknown_msr = true;
  kbd_layout = "default";
  sound = true;
  sound_in = "/dev/dsp0";
  sound_out = "/dev/dsp0";
  com1 = true;
  com1_dev = "AUTO";
  com2 = false;
  com2_dev = "AUTO";
  com3 = false;
  com3_dev = "AUTO";
  com4 = false;
  com4_dev = "AUTO";
  extra_args = "";
  debug = false;
  debug_wait = false;
  debug_port = "AUTO";
  priority = pos 10;
  protect = unset;
}

abbrev pub boot_disk : Disk
boot_disk = record {
  id = "disk-1";
  name = "boot";
  disk_type = "AHCI-HD";
  dev_type = "FILE";
  disk_cache = unset;
  disk_direct = unset;
}

abbrev install_iso : Iso
install_iso = record { id = "iso-1"; name = "install.iso"; path = "" }

abbrev pub web : Vm
web = record {
  id = "vm-1";
  name = "web";
  status = running;
  bhyve_pid = 0;
  vnc_port = 0;
  debug_port = 0;
  config = config;
  isos = some install_iso ∷ none ∷ some install_iso ∷ [];
  disks = some boot_disk ∷ none ∷ [];
  com1_dev = "";
  com2_dev = "";
  com3_dev = "";
  com4_dev = "";
}

abbrev pub settings : Settings
settings = record {
  sudo = "/usr/local/bin/sudo";
  iso_path = "/bhyve/isos";
  image_path = "/bhyve/disks";
  zpool = "";
  state_path = "/var/db/cirrinad/state";
  rom_path = "/usr/local/share/uefi-firmware/BHYVE_UEFI.fd";
  vnc_port = 6900;
  vnc_ip = "0.0.0.0";
  debug_port = 2828;
  debug_ip = "127.0.0.1";
  mac_oui = "00:18:25";
}

abbrev found_if : Bool → Disk → Option Disk
found_if b d = if b then some d else none

abbrev pub host : Host
host = record {
  path_exists = λ path. record { exists = true; failed = false };
  interfaces = "em0" ∷ "tap0" ∷ [];
  max_vm_cpus = some 16;
  netstat = record { output = none; stderr = ""; return_code = pos 0; failed = true };
  find_disk = λ id. found_if (str_eq id "disk-1") boot_disk;
  join = λ a b. append a (append "/" b);
  to_uint16 = λ n. 5901;
  net_hash = λ a b c d. some "aa:bb:cc";
  ng_dev = λ switch vm. none;
}

abbrev pub nic : VmNic
nic = record {
  id = "nic-1";
  name = "web-net";
  description = "";
  mac = "AUTO";
  net_dev = "tap1";
  net_type = "VIRTIONET";
  net_dev_type = "TAP";
  switch_id = "";
  rate_limit = false;
  rate_in = 0;
  rate_out = 0;
  inst_bridge = "";
  inst_epair = "";
  config_id = 4;
}

abbrev pub nics : Store VmNic
nics = list_store VmNic

get_slot_args-Takes_example :
    let (s, last, v', db') = get_slot_args nics settings host (web ∷ []) web 0 (nic ∷ []) in
    Takes 0 last (before_lpc s) × (Takes 0 32 (before_lpc s ++ s.lpc_arg) ⊎ (31 < last))
get_slot_args-Takes_example = get_slot_args-Takes nics settings host (web ∷ []) web 0 (nic ∷ [])

net_dev_search_ends_example :
    IsUnused nics host (web ∷ []) "tap" (nic ∷ []) (get_tap_dev nics host (web ∷ []) (nic ∷ []))
    × IsUnused nics host
        (web ∷ [])
        "vmnet"
        (nic ∷ [])
        (get_vmnet_dev nics host (web ∷ []) (nic ∷ []))
net_dev_search_ends_example = net_dev_search_ends nics host (web ∷ []) (nic ∷ [])

abbrev sata_or_none : Option Disk → Bool
sata_or_none none = true
sata_or_none (some d) = is_sata d

boot_disk-IsSata : IsSata settings host (some boot_disk)
unfolding wanted_disk
boot_disk-IsSata d e = ap sata_or_none (sym e)

no_disk-IsSata : IsSata settings host none
unfolding wanted_disk
no_disk-IsSata d e = ap sata_or_none (sym e)

get_disk_arg-below_lpc_example :
    let (disks, middle) = get_disk_arg settings host web 5 in
    let (cds, last) = get_cd_arg settings web middle in
    Takes 5 middle disks × Takes middle last cds × (middle ≤ 31) × (last ≤ 31)
get_disk_arg-below_lpc_example =
    get_disk_arg-below_lpc settings host web 5 (boot_disk-IsSata, (no_disk-IsSata, tt))
      (omega arith)
