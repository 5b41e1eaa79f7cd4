-- ===== src/Vm/Args/Slots.antt =====
-- The arguments of cirrinad/vm/args.go that take a PCI slot, the network's excepted, and the path of a
-- disk in cirrinad/disk/disk.go.
use cirrina.Prelude.{
  ℕ, ◌+◌, String, Bool, not, ◌&&◌, ◌||◌, Option, none, some, List, [], ◌∷◌, ◌++◌, ltb, leb, str_eq,
  if◌then◌else◌, suc,
}
use cirrina.Strconv.{codes, concat, append, parse_int, format_uint, ℤ}
use cirrina.Util.Port.{get_free_tcp_port}
use cirrina.Vm.{Vm, Config, Settings, Host, PathCheck, Iso, Disk}
use cirrina.Vm.Args.{Args, get_used_vnc_ports, set_vnc_port, free_port}

-- "-s" and the slot's number with what stands there.
abbrev pub slot_arg : ℕ → List String → Args
slot_arg slot text = "-s" ∷ concat (format_uint slot ∷ text) ∷ []

unfoldable pub get_host_bridge_arg : Config → ℕ → Args × ℕ
get_host_bridge_arg c slot =
    if not c.host_bridge then ([], slot) else (slot_arg slot (",hostbridge" ∷ []), suc slot)

vnc_port_of : Host → String → Option ℤ → Option (ℕ × String)
vnc_port_of host s none = none
vnc_port_of host s (some p) = some (host.to_uint16 p, s)

pub find_vnc_port : Settings → Host → List Vm → Config → Option (ℕ × String)
unfolding get_used_vnc_ports vnc_port_of
find_vnc_port settings host vms c =
    if str_eq c.vnc_port "AUTO"
    then free_port (get_free_tcp_port host.netstat settings.vnc_port (get_used_vnc_ports host vms))
    else vnc_port_of host c.vnc_port (parse_int 16 (codes c.vnc_port))

unfoldable pub fbuf_text : Settings → Config → String → List String
fbuf_text settings c s =
    ",fbuf"
    ∷ ",w="
    ∷ format_uint c.screen_width
    ∷ ",h="
    ∷ format_uint c.screen_height
    ∷ ",tcp="
    ∷ settings.vnc_ip
    ∷ ":"
    ∷ s
    ∷ (if c.vnc_wait then ",wait" else "")
    ∷ []

unfoldable pub video_arg_at : Settings → Vm → ℕ → Option (ℕ × String) → Args × ℕ × Vm
unfolding set_vnc_port fbuf_text
video_arg_at settings v slot none = ([], slot, v)
video_arg_at settings v slot (some (port, s)) =
    (slot_arg slot (fbuf_text settings v.config s), suc slot, set_vnc_port port v)

-- The VM changes: it keeps the port.
unfoldable pub get_video_arg : Settings → Host → List Vm → Vm → ℕ → Args × ℕ × Vm
unfolding find_vnc_port video_arg_at
get_video_arg settings host vms v slot =
    if not v.config.screen
    then ([], slot, v)
    else video_arg_at settings v slot (find_vnc_port settings host vms v.config)

unfoldable pub get_tablet_arg : Config → ℕ → Args × ℕ
get_tablet_arg c slot =
    if not c.screen || not c.tablet
    then ([], slot)
    else (slot_arg slot (",xhci,tablet" ∷ []), suc slot)

-- `GetPath`
unfoldable pub get_path : Settings → Host → Disk → String
get_path settings host d =
    if str_eq d.dev_type "FILE"
    then host.join settings.image_path (append d.name ".img")
    else if str_eq d.dev_type "ZVOL"
    then host.join settings.zpool d.name
    else ""

device_path : Settings → Host → Disk → String
unfolding get_path
device_path settings host d =
    if str_eq d.dev_type "ZVOL"
    then host.join "/dev/zvol/" (get_path settings host d)
    else get_path settings host d

-- `VerifyExists`
unfoldable pub verify_exists : Settings → Host → Disk → PathCheck
unfolding device_path
verify_exists settings host d = host.path_exists (device_path settings host d)

disk_controller : String → Option String
disk_controller t =
    if str_eq t "NVME"
    then some "nvme"
    else if str_eq t "AHCI-HD"
    then some "ahci-hd"
    else if str_eq t "VIRTIO-BLK"
    then some "virtio-blk"
    else none

disk_text : Settings → Host → Disk → Option String → Option (List String)
unfolding device_path
disk_text settings host d none = none
disk_text settings host d (some controller) = some (
    controller
    ∷ ","
    ∷ device_path settings host d
    ∷ (if d.disk_cache.valid && not d.disk_cache.bool then ",nocache" else "")
    ∷ (if d.disk_direct.valid && d.disk_direct.bool then ",direct" else "")
    ∷ [])

-- `none` is an error. The text is never empty, since a controller's name stands at its head.
unfoldable pub get_one_disk_arg : Settings → Host → Disk → Option (List String)
unfolding verify_exists disk_controller disk_text
get_one_disk_arg settings host d =
    let exists = verify_exists settings host d in
    if exists.failed || not exists.exists
    then none
    else disk_text settings host d (disk_controller d.disk_type)

abbrev pub is_sata : Disk → Bool
is_sata d = str_eq d.disk_type "AHCI-HD"

-- `disk.GetByID` on the ID of an entry; a nil entry and an empty ID are passed over.
unfoldable pub wanted_disk : Host → Option Disk → Option Disk
wanted_disk host none = none
wanted_disk host (some item) = if str_eq item.id "" then none else host.find_disk item.id

-- The loop of `getDiskArg`, that began at `first`. The source's bound is `31 - first - 1`, which is
-- negative from 31 on.
unfoldable pub disk_args : Settings → Host → ℕ → List (Option Disk) → ℕ → ℕ → Args × ℕ
unfolding wanted_disk get_one_disk_arg
disk_args settings host first [] sata_dev_count slot = ([], slot)
disk_args settings host first (item ∷ items) sata_dev_count slot = elim (wanted_disk host item) [
  | none ↦ disk_args settings host first items sata_dev_count slot
  | some this_disk ↦
      let count = if is_sata this_disk then suc sata_dev_count else sata_dev_count in
      let skipped = disk_args settings host first items count slot in
      let (rest, last) = disk_args settings host first items count (suc slot) in
      if ltb 31 (count + first + 1)
      then skipped
      else elim (get_one_disk_arg settings host this_disk) [
        | none ↦ skipped
        | some text ↦ (slot_arg slot ("," ∷ text) ++ rest, last)
      ]
]

unfoldable pub get_disk_arg : Settings → Host → Vm → ℕ → Args × ℕ
unfolding disk_args
get_disk_arg settings host v slot = disk_args settings host slot v.disks 0 slot

-- The path of an ISO; an empty one is corrected.
abbrev pub cd_path : Settings → Iso → String
cd_path settings iso =
    if str_eq iso.path "" then concat (settings.iso_path ∷ "/" ∷ iso.name ∷ []) else iso.path

-- The loop of `getCDArg`, that began at `first`; its bound is `31 - first - 1`.
unfoldable pub cd_args : Settings → ℕ → List (Option Iso) → ℕ → ℕ → Args × ℕ
cd_args settings first [] dev_count slot = ([], slot)
cd_args settings first (none ∷ isos) dev_count slot = cd_args settings first isos dev_count slot
cd_args settings first (some iso ∷ isos) dev_count slot =
    let skipped = cd_args settings first isos dev_count slot in
    let (rest, last) = cd_args settings first isos (suc dev_count) (suc slot) in
    if leb (dev_count + first + 1) 31
    then (slot_arg slot (":0,ahci,cd:" ∷ cd_path settings iso ∷ []) ++ rest, last)
    else skipped

unfoldable pub get_cd_arg : Settings → Vm → ℕ → Args × ℕ
unfolding cd_args
get_cd_arg settings v slot = cd_args settings slot v.isos 0 slot

unfoldable pub sound_text : Host → Config → List String
sound_text host c =
    let into = host.path_exists c.sound_in in
    let out = host.path_exists c.sound_out in
    ",hda"
    ∷ (if out.exists && not out.failed then append ",play=" c.sound_out else "")
    ∷ (if into.exists && not into.failed then append ",rec=" c.sound_in else "")
    ∷ []

unfoldable pub get_sound_arg : Host → Config → ℕ → Args × ℕ
unfolding sound_text
get_sound_arg host c slot =
    let into = host.path_exists c.sound_in in
    let out = host.path_exists c.sound_out in
    if not c.sound || (not into.exists && not out.exists) || (into.failed && out.failed)
    then ([], slot)
    else (slot_arg slot (sound_text host c), suc slot)

unfoldable pub get_lpc_arg : ℕ → Args × ℕ
get_lpc_arg slot = ("-s" ∷ "31,lpc" ∷ [], slot)
