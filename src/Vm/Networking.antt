-- ===== src/Vm/Networking.antt =====
-- The devices behind a VM's NICs: `netStart` and `NetStop` of cirrinad/vm/nic.go.
pub mod Own
pub mod Others
use cirrina.Prelude.{
  String, Option, none, some, List, [], ◌∷◌, str_eq, if◌then◌else◌, Result, ok, err,
}
use cirrina.Store.{Store}
use cirrina.Vmnic.{VmNic, NicError}
use cirrina.Vmnic.Table.{get_nics}
use cirrina.Epair.{Devices, build, demolish}
use cirrina.Switch.{Switch, SwitchError, Commands, get_all_host_interfaces}
use cirrina.Switch.Table.{get_by_id}
use cirrina.Switch.Connect.{Nic, connect_nic, disconnect_nic}
use cirrina.Vm.{Vm}

module _ (commands : Commands) (devices : Devices commands.World) (nics : Store VmNic)
    (switches : Store Switch) where
  -- The table of NICs and the host.
  pub record Net : Type 0 where
    pub db : nics.Db
    pub world : commands.World

  -- One NIC, a copy of its row, and back.
  abbrev pub in_hand : VmNic → Net → Nic commands devices nics
  in_hand nic s = record { nic = nic; db = s.db; world = s.world }

  abbrev pub put_back : Nic commands devices nics → Net
  put_back s = record { db = s.db; world = s.world }

  abbrev pub host_interfaces : Net → List String
  host_interfaces s = get_all_host_interfaces (commands.interfaces s.world)

  -- The errors of the switch are logged and passed over.
  unfoldable pub connect_to : Result SwitchError Switch → VmNic → Net → Net
  unfolding connect_nic
  connect_to (err e) nic s = s
  connect_to (ok sw) nic s = put_back (connect_nic commands devices nics sw (in_hand nic s)).1

  unfoldable pub disconnect_from : Result SwitchError Switch → VmNic → Net → Net
  unfolding disconnect_nic
  disconnect_from (err e) nic s = s
  disconnect_from (ok sw) nic s =
      put_back (disconnect_nic commands devices nics sw (in_hand nic s)).1

  -- The rest of the loop's body after `Build`.
  unfoldable pub connect_built : switches.Db → VmNic → Option NicError → Net → Net
  unfolding get_by_id connect_to
  connect_built switch_db nic (some e) s = s
  connect_built switch_db nic none s =
      if str_eq nic.switch_id ""
      then s
      else connect_to (get_by_id commands switches nic.switch_id switch_db) nic s

  unfoldable pub start_nic : switches.Db → VmNic → Net → Net
  unfolding connect_built build get_all_host_interfaces
  start_nic switch_db nic s =
      let (failure, w) = build devices (host_interfaces s) nic s.world in
      connect_built switch_db nic failure (record s { world = w })

  unfoldable pub stop_nic : switches.Db → VmNic → Net → Net
  unfolding get_by_id disconnect_from demolish get_all_host_interfaces
  stop_nic switch_db nic s =
      let s1 =
        if str_eq nic.switch_id ""
        then s
        else disconnect_from (get_by_id commands switches nic.switch_id switch_db) nic s in
      record s1 { world = (demolish devices (host_interfaces s1) nic s1.world).1 }

  unfoldable pub start_nics : switches.Db → List VmNic → Net → Net
  unfolding start_nic
  start_nics switch_db [] s = s
  start_nics switch_db (nic ∷ rest) s = start_nics switch_db rest (start_nic switch_db nic s)

  unfoldable pub stop_nics : switches.Db → List VmNic → Net → Net
  unfolding stop_nic
  stop_nics switch_db [] s = s
  stop_nics switch_db (nic ∷ rest) s = stop_nics switch_db rest (stop_nic switch_db nic s)

  unfoldable pub net_start : switches.Db → Vm → Net → Option NicError × Net
  unfolding get_nics start_nics
  net_start switch_db v s = elim (get_nics nics v.config.id s.db) [
    | err e ↦ (some e, s)
    | ok own ↦ (none, start_nics switch_db own s)
  ]

  unfoldable pub net_stop : switches.Db → Vm → Net → Net
  unfolding get_nics stop_nics
  net_stop switch_db v s = elim (get_nics nics v.config.id s.db) [
    | err e ↦ s
    | ok own ↦ stop_nics switch_db own s
  ]
