-- ===== src/Vm/Args/Net.antt =====
-- The network's arguments of cirrinad/vm/args.go, and the devices in use of cirrinad/vm/util.go.
use cirrina.Prelude.{
  ℕ, zero, suc, ◌+◌, String, Bool, true, false, Option, none, some, List, [], ◌∷◌, ◌++◌, str_eq,
  if◌then◌else◌, length, Result, ok, err,
}
use cirrina.Strconv.{append, format_uint}
use cirrina.Store.{Store}
use cirrina.Vmnic.{VmNic, NicError, get_mac}
use cirrina.Vmnic.Table.{get_nics, save}
use cirrina.Vm.{Vm, Settings, Host}
use cirrina.Vm.Args.{Args, is_stopped}
use cirrina.Vm.Args.Slots.{slot_arg}

unfoldable pub contains_str : List String → String → Bool
contains_str [] v = false
contains_str (s ∷ elems) v = let rest = contains_str elems v in if str_eq v s then true else rest

unfoldable pub get_net_type_arg : String → Option String
get_net_type_arg net_type =
    if str_eq net_type "VIRTIONET"
    then some "virtio-net"
    else if str_eq net_type "E1000"
    then some "e1000"
    else none

-- The loop of `getTapDev` and `getVmnetDev`: the first number whose device is free.
unfoldable pub search_dev : ℕ → String → List String → ℕ → Option String
unfolding contains_str
search_dev zero prefix taken num = none
search_dev (suc fuel) prefix taken num =
    let later = search_dev fuel prefix taken (num + 1) in
    let dev = append prefix (format_uint num) in if contains_str taken dev then later else some dev

abbrev pub net_devs : List VmNic → List String
net_devs [] = []
net_devs (nic ∷ nics) = nic.net_dev ∷ net_devs nics

abbrev pub devs_of : Result NicError (List VmNic) → List String
devs_of (ok nics) = net_devs nics
devs_of (err e) = []

-- The number that follows every taken one at the latest.
abbrev search_free : String → List String → Option String
search_free prefix taken = search_dev (suc (length taken)) prefix taken 0

module _ (store : Store VmNic) where
  open store use {Db}

  -- A VM whose NICs cannot be read is passed over.
  unfoldable pub get_used_net_ports : List Vm → Db → List String
  get_used_net_ports [] db = []
  get_used_net_ports (v ∷ vms) db =
      let rest = get_used_net_ports vms db in
      if is_stopped v.status then rest else devs_of (get_nics store v.config.id db) ++ rest

  unfoldable pub is_net_port_used : List Vm → String → Db → Bool
  unfolding get_used_net_ports contains_str
  is_net_port_used vms net_port db = contains_str (get_used_net_ports vms db) net_port

  -- A device is free where neither the host's interfaces nor the ports in use have its name.
  unfoldable pub get_tap_dev : Host → List Vm → Db → Option String
  unfolding get_used_net_ports search_dev
  get_tap_dev host vms db = search_free "tap" (host.interfaces ++ get_used_net_ports vms db)

  unfoldable pub get_vmnet_dev : Host → List Vm → Db → Option String
  unfolding get_used_net_ports search_dev
  get_vmnet_dev host vms db = search_free "vmnet" (host.interfaces ++ get_used_net_ports vms db)

  abbrev twice : Option String → Option (String × String)
  twice none = none
  twice (some dev) = some (dev, dev)

  unfoldable pub get_net_dev_type_arg :
      Host → List Vm → String → String → String → Db → Option (String × String)
  unfolding get_tap_dev get_vmnet_dev
  get_net_dev_type_arg host vms net_dev_type switch_id vm_name db =
      if str_eq net_dev_type "TAP"
      then twice (get_tap_dev host vms db)
      else if str_eq net_dev_type "VMNET"
      then twice (get_vmnet_dev host vms db)
      else if str_eq net_dev_type "NETGRAPH"
      then host.ng_dev switch_id vm_name
      else none

  abbrev is_ok : {A : Type 0} → Result NicError A → Bool
  is_ok (ok a) = true
  is_ok (err e) = false

  mac_text : String → String
  mac_text mac = if str_eq mac "" then "" else append ",mac=" mac

  unfoldable pub nic_text : Settings → Host → Vm → VmNic → String → String → List String
  unfolding mac_text
  nic_text settings host v nic net_type net_dev_arg =
      ","
      ∷ net_type
      ∷ ","
      ∷ net_dev_arg
      ∷ mac_text (get_mac host.net_hash settings.mac_oui nic v.id v.name)
      ∷ []

  -- The loop of `getNetArgs`, that began at `original` with the arguments that it has so far.
  unfoldable pub net_args :
      Settings → Host → List Vm → Vm → ℕ → List VmNic → Args → ℕ → Db → Args × ℕ × Db
  unfolding get_net_type_arg get_net_dev_type_arg nic_text save
  net_args settings host vms v original [] args slot db = (args, slot, db)
  net_args settings host vms v original (nic ∷ nics) args slot db =
      elim (get_net_type_arg nic.net_type) [
        | none ↦ ([], original, db)
        | some net_type ↦
            elim (get_net_dev_type_arg host vms nic.net_dev_type nic.switch_id v.name db) [
              | none ↦ ([], slot, db)
              | some (net_dev, net_dev_arg) ↦
                  let nic' = record nic { net_dev = net_dev } in
                  let (saved, db') = save store nic' db in
                  let text = nic_text settings host v nic' net_type net_dev_arg in
                  let done =
                    net_args settings host vms v original nics (args ++ slot_arg slot text)
                      (suc slot) db' in
                  if is_ok saved then done else ([], slot, db')
            ]
      ]

  unfoldable pub net_args_of :
      Settings → Host → List Vm → Vm → ℕ → Result NicError (List VmNic) → Db → Args × ℕ × Db
  unfolding net_args
  net_args_of settings host vms v slot (err e) db = ([], slot, db)
  net_args_of settings host vms v slot (ok nics) db =
      net_args settings host vms v slot nics [] slot db

  unfoldable pub get_net_args : Settings → Host → List Vm → Vm → ℕ → Db → Args × ℕ × Db
  unfolding net_args_of
  get_net_args settings host vms v slot db =
      net_args_of settings host vms v slot (get_nics store v.config.id db) db
