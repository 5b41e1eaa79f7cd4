-- ===== src/Vm/Args.antt =====
-- The arguments of cirrinad/vm/args.go that take no PCI slot.
pub mod Slots
pub mod Net
pub mod CommandLine
pub mod Takes
pub mod SlotBounds
pub mod NetDevs
use Prim.Native.Char.{Char, code}
use cirrina.Prelude.{
  ℕ, ◌^◌, ◌-◌, String, ◌≡◌, refl, Bool, true, false, not, ◌&&◌, ◌||◌, Option, none, some, List, [],
  ◌∷◌, ◌++◌, ltb, ◌==◌, str_eq, if◌then◌else◌, Result, ok, err,
}
use cirrina.Strconv.{codes, concat, append, parse_uint, format_uint, format_int, ℤ, pos, negsuc}
use cirrina.Util.Port.{PortError, get_free_tcp_port, is_space}
use cirrina.Vm.{Vm, Config, Settings, Host, StatusType, stopped, starting, running, stopping}

abbrev pub Args : Type 0
Args = List String

unfoldable pub get_keyboard_arg : Config → Args
get_keyboard_arg c =
    if c.screen && not (str_eq c.kbd_layout "default") then "-K" ∷ c.kbd_layout ∷ [] else []

unfoldable pub get_acpi_arg : Config → Args
get_acpi_arg c = if c.acpi then "-A" ∷ [] else []

unfoldable pub get_dpo_arg : Config → Args
get_dpo_arg c = if c.destroy_power_off then "-D" ∷ [] else []

unfoldable pub get_eop_arg : Config → Args
get_eop_arg c = if c.exit_on_pause then "-P" ∷ [] else []

unfoldable pub get_hlt_arg : Config → Args
get_hlt_arg c = if c.use_hlt then "-H" ∷ [] else []

unfoldable pub get_msr_arg : Config → Args
get_msr_arg c = if c.ignore_unknown_msr then "-w" ∷ [] else []

unfoldable pub get_utc_arg : Config → Args
get_utc_arg c = if c.utc_time then "-u" ∷ [] else []

unfoldable pub get_wire_arg : Config → Args
get_wire_arg c = if c.wire_guest_mem then "-S" ∷ [] else []

unfoldable pub get_mem_arg : Config → Args
get_mem_arg c = "-m" ∷ concat (format_uint c.mem ∷ "m" ∷ []) ∷ []

-- `strings.Fields`: the runs of characters that are no white space.
abbrev add_word : String → List String → List String
add_word word words = if str_eq word "" then words else word ∷ words

fields_from : String → String → List String
fields_from word String.[] = add_word word []
fields_from word (String.◌∷◌ ch s) =
    let ended = fields_from "" s in
    let longer = fields_from (append word (String.◌∷◌ ch "")) s in
    if is_space (code ch) then add_word word ended else longer

unfoldable pub get_extra_arg : Config → Args
unfolding fields_from is_space
get_extra_arg c = fields_from "" c.extra_args

-- `NumCpusValid` of cirrinad/util/util.go
unfoldable pub num_cpus_valid : Option ℕ → ℕ → Bool
num_cpus_valid none num_cpus = false
num_cpus_valid (some host_cpus) num_cpus = if ltb host_cpus num_cpus then false else true

unfoldable pub get_cpu_arg : Host → Config → Args
unfolding num_cpus_valid
get_cpu_arg host c = elim host.max_vm_cpus [
  | none ↦ []
  | some host_cpus ↦
      let vm_cpus =
        if ltb (2 ^ 16 - 1) c.cpu
          || not (num_cpus_valid host.max_vm_cpus (host.to_uint16 (pos c.cpu)))
        then host_cpus
        else host.to_uint16 (pos c.cpu) in
      "-c" ∷ format_uint vm_cpus ∷ []
]

unfoldable pub get_rom_arg : Settings → Host → Vm → Args
get_rom_arg settings host v =
    if v.config.store_uefi_vars
    then "-l"
      ∷ concat (
          "bootrom,"
          ∷ settings.rom_path
          ∷ ","
          ∷ host.join settings.state_path (host.join v.name "BHYVE_UEFI_VARS.fd")
          ∷ [])
      ∷ []
    else "-l" ∷ concat ("bootrom," ∷ settings.rom_path ∷ []) ∷ []

abbrev pub is_stopped : StatusType → Bool
is_stopped stopped = true
is_stopped _ = false

-- `getUsedVncPorts` and `getUsedDebugPorts` of cirrinad/vm/util.go, over the VMs in memory.
unfoldable pub get_used_vnc_ports : Host → List Vm → List ℕ
get_used_vnc_ports host [] = []
get_used_vnc_ports host (v ∷ vms) =
    let rest = get_used_vnc_ports host vms in
    if is_stopped v.status then rest else host.to_uint16 (pos v.vnc_port) ∷ rest

unfoldable pub get_used_debug_ports : Host → List Vm → List ℕ
get_used_debug_ports host [] = []
get_used_debug_ports host (v ∷ vms) =
    let rest = get_used_debug_ports host vms in
    if is_stopped v.status then rest else host.to_uint16 (pos v.debug_port) ∷ rest

-- `SetDebugPort` and `SetVNCPort` of cirrinad/vm/db.go, on the VM in memory.
unfoldable pub set_debug_port : ℕ → Vm → Vm
set_debug_port port v = record v { debug_port = port }

unfoldable pub set_vnc_port : ℕ → Vm → Vm
set_vnc_port port v = record v { vnc_port = port }

-- A port that is found, as its number and its text; `none` where the code returns no argument. A
-- search that goes round for ever has no answer either.
abbrev pub free_port : Result PortError (Option ℕ) → Option (ℕ × String)
free_port (ok (some p)) = some (p, format_uint p)
free_port _ = none

abbrev debug_port_of : Host → String → Option ℕ → Option (ℕ × String)
debug_port_of host s none = none
debug_port_of host s (some p) = some (host.to_uint16 (pos p), s)

pub find_debug_port : Settings → Host → List Vm → Config → Option (ℕ × String)
unfolding get_used_debug_ports
find_debug_port settings host vms c =
    if str_eq c.debug_port "AUTO"
    then free_port
        (get_free_tcp_port host.netstat settings.debug_port (get_used_debug_ports host vms))
    else debug_port_of host c.debug_port (parse_uint 16 (codes c.debug_port))

unfoldable pub debug_arg_at : Settings → Vm → Option (ℕ × String) → Args × Vm
unfolding set_debug_port
debug_arg_at settings v none = ([], v)
debug_arg_at settings v (some (port, s)) =
    let wait = if v.config.debug_wait then "w" else "" in
    ("-G" ∷ concat (wait ∷ settings.debug_ip ∷ ":" ∷ s ∷ []) ∷ [], set_debug_port port v)

unfoldable pub get_debug_arg : Settings → Host → List Vm → Vm → Args × Vm
unfolding find_debug_port debug_arg_at
get_debug_arg settings host vms v =
    if not v.config.debug
    then ([], v)
    else debug_arg_at settings v (find_debug_port settings host vms v.config)

abbrev is_nonzero : ℤ → Bool
is_nonzero (pos n) = not (n == 0)
is_nonzero (negsuc n) = true

unfoldable pub add_priority_args : Config → Args → Args
unfolding format_int
add_priority_args c args =
    if is_nonzero c.priority
    then args ++ ("/usr/bin/nice" ∷ "-n" ∷ format_int c.priority ∷ [])
    else args

unfoldable pub add_protect_args : Config → Args → Args
add_protect_args c args =
    if c.protect.valid && c.protect.bool then args ++ ("/usr/bin/protect" ∷ "-i" ∷ []) else args

-- `getCom`: the argument and the device.
unfoldable pub get_com : String → String → ℕ → Args × String
get_com com_dev vm_name num =
    let nmdm =
      if str_eq com_dev "AUTO"
      then concat ("/dev/nmdm-" ∷ vm_name ∷ "-com" ∷ format_uint num ∷ "-A" ∷ [])
      else com_dev in
    ("-l" ∷ concat ("com" ∷ format_uint num ∷ "," ∷ nmdm ∷ []) ∷ [], nmdm)

com_if : Bool → String → String → ℕ → String → Args × String
unfolding get_com
com_if on com_dev vm_name num old = if on then get_com com_dev vm_name num else ([], old)

unfoldable pub get_com_args : Vm → Args × Args × Args × Args × Vm
unfolding com_if
get_com_args v =
    let c = v.config in
    let (com1_arg, dev1) = com_if c.com1 c.com1_dev v.name 1 v.com1_dev in
    let (com2_arg, dev2) = com_if c.com2 c.com2_dev v.name 2 v.com2_dev in
    let (com3_arg, dev3) = com_if c.com3 c.com3_dev v.name 3 v.com3_dev in
    let (com4_arg, dev4) = com_if c.com4 c.com4_dev v.name 4 v.com4_dev in
    (
      com1_arg,
      com2_arg,
      com3_arg,
      com4_arg,
      record v { com1_dev = dev1; com2_dev = dev2; com3_dev = dev3; com4_dev = dev4 },
    )

unfoldable pub add_com_args : Args → Args → Args → Args → Args → Args
add_com_args args com1_arg com2_arg com3_arg com4_arg =
    args ++ (com1_arg ++ (com2_arg ++ (com3_arg ++ com4_arg)))

unfoldable pub add_some_args : Settings → Host → List Vm → Vm → Args → Args × Vm
unfolding get_keyboard_arg get_acpi_arg get_hlt_arg get_eop_arg get_wire_arg get_dpo_arg get_msr_arg
    get_utc_arg get_rom_arg get_debug_arg get_cpu_arg get_mem_arg
add_some_args settings host vms v args =
    let c = v.config in
    let (debug_arg, v') = get_debug_arg settings host vms v in
    (
      args
          ++ (get_keyboard_arg c
              ++ (get_acpi_arg c
                  ++ (get_hlt_arg c
                      ++ (get_eop_arg c
                          ++ (get_wire_arg c
                              ++ (get_dpo_arg c
                                  ++ (get_msr_arg c
                                      ++ (get_utc_arg c
                                          ++ (get_rom_arg settings host v
                                              ++ (debug_arg
                                                  ++ (get_cpu_arg host c
                                                      ++ get_mem_arg c))))))))))),
      v',
    )
