-- ===== src/Switch/Connect.antt =====
-- NICs on switches: `ConnectNic` and `DisconnectNic` of cirrinad/switch/switch.go, with the rate limits
-- of cirrinad/switch/bridge_if.go.
pub mod Paired
pub mod Removed
use cirrina.Prelude.{
  String, Bool, true, false, not, ◌&&◌, Option, none, some, List, [], ◌∷◌, str_eq, if◌then◌else◌,
  Result, ok, err,
}
use cirrina.Strconv.{append}
use cirrina.Store.{Store}
use cirrina.Vmnic.{VmNic, NicError}
use cirrina.Vmnic.Table.{save}
use cirrina.Epair.{
  EpairError, Devices, andthen, get_dummy_epair_name, create_epair, destroy_epair, set_rate_limit,
  ng_shutdown_pipe,
}
use cirrina.Switch.{Switch, SwitchError, Commands, nic_type_match}
use cirrina.Switch.Bridges.{
  get_dummy_bridge_name, create_if_switch_with_members, switch_if_add_member,
  switch_if_delete_member, destroy_if_switch,
}

pub data ConnectError : Type 0 where
  type_mismatch : ConnectError
  no_such_type : ConnectError
  of_epair : EpairError → ConnectError
  of_switch : SwitchError → ConnectError
  of_nic : NicError → ConnectError

abbrev pub of_epair_step : {W : Type 0} → Option EpairError × W → Option ConnectError × W
of_epair_step (none, w) = (none, w)
of_epair_step (some e, w) = (some (of_epair e), w)

abbrev pub of_switch_step : {W : Type 0} → Option SwitchError × W → Option ConnectError × W
of_switch_step (none, w) = (none, w)
of_switch_step (some e, w) = (some (of_switch e), w)

abbrev pub of_nic_step : {D : Type 0} → Result NicError (Unit {0}) × D → Option ConnectError × D
of_nic_step (ok _, db) = (none, db)
of_nic_step (err e, db) = (some (of_nic e), db)

module _ (commands : Commands) (devices : Devices commands.World) (store : Store VmNic) where
  open commands use {World}
  open store use {Db}

  -- The NIC in hand, the table of NICs, and the host.
  pub record Nic : Type 0 where
    pub nic : VmNic
    pub db : Db
    pub world : World

  abbrev Step : Type 0
  Step = Nic → Option ConnectError × Nic

  -- A step on the host alone.
  abbrev pub on_world : Nic → Option ConnectError × World → Option ConnectError × Nic
  on_world s (e, w) = (e, record s { world = w })

  -- The save of the NIC.
  abbrev pub on_table : Nic → Option ConnectError × Db → Option ConnectError × Nic
  on_table s (e, db) = (e, record s { db = db })

  unfoldable pub save_nic : Step
  unfolding save
  save_nic s = on_table s (of_nic_step (save store s.nic s.db))

  unfoldable pub set_up_bridge : String → Step
  unfolding create_if_switch_with_members save_nic get_dummy_bridge_name
  set_up_bridge pair s =
      let bridge = get_dummy_bridge_name commands s.world in
      let members = append pair "a" ∷ s.nic.net_dev ∷ [] in
      andthen
        (on_world s
          (of_switch_step (create_if_switch_with_members commands bridge members s.world)))
        λ s'. save_nic (record s' { nic = record s'.nic { inst_bridge = bridge } })

  unfoldable pub make_pair : String → Step
  unfolding create_epair
  make_pair pair s = on_world s (of_epair_step (create_epair devices pair s.world))

  unfoldable pub keep_pair : String → Step
  unfolding save_nic
  keep_pair pair s = save_nic (record s { nic = record s.nic { inst_epair = pair } })

  unfoldable pub limit_pair : String → Step
  unfolding set_rate_limit
  limit_pair pair s =
      on_world s (of_epair_step (set_rate_limit devices pair s.nic.rate_in s.nic.rate_out s.world))

  -- `setupVMNicRateLimit` with the name of the pair.
  unfoldable pub set_up_pair : String → Step
  unfolding make_pair keep_pair limit_pair set_up_bridge
  set_up_pair pair s =
      andthen (make_pair pair s)
        λ s1. andthen (keep_pair pair s1) λ s2. andthen (limit_pair pair s2) (set_up_bridge pair)

  unfoldable pub join_switch : Switch → String → Step
  unfolding switch_if_add_member
  join_switch sw member s =
      on_world s (of_switch_step (switch_if_add_member commands sw.name member s.world))

  unfoldable pub connect_if_nic : Switch → Step
  unfolding set_up_pair get_dummy_epair_name join_switch
  connect_if_nic sw s =
      let pair = get_dummy_epair_name devices s.world in
      if s.nic.rate_limit
      then andthen (set_up_pair pair s) (join_switch sw (append pair "b"))
      else join_switch sw s.nic.net_dev s

  -- The errors of the commands are logged and passed over.
  unfoldable pub without_bridge : Nic → Nic
  unfolding destroy_if_switch
  without_bridge s =
      if not (str_eq s.nic.inst_bridge "")
      then record s {
        nic = record s.nic { inst_bridge = "" };
        world = (destroy_if_switch commands s.nic.inst_bridge false s.world).1;
      }
      else s

  unfoldable pub without_pair : Nic → Nic
  unfolding ng_shutdown_pipe destroy_epair
  without_pair s =
      let pair = s.nic.inst_epair in
      let w1 = (ng_shutdown_pipe devices (append pair "a") s.world).1 in
      let w2 = (ng_shutdown_pipe devices (append pair "b") w1).1 in
      if not (str_eq pair "")
      then record s {
        nic = record s.nic { inst_epair = "" };
        world = (destroy_epair devices pair w2).1;
      }
      else s

  unfoldable pub unset_vm_nic_rate_limit : Step
  unfolding without_bridge without_pair save_nic
  unset_vm_nic_rate_limit s =
      if str_eq s.nic.inst_bridge "" && str_eq s.nic.inst_epair ""
      then (none, s)
      else save_nic (without_pair (without_bridge s))

  unfoldable pub leave_switch : Switch → String → Step
  unfolding switch_if_delete_member unset_vm_nic_rate_limit
  leave_switch sw member s =
      andthen
        (on_world s (of_switch_step (switch_if_delete_member commands sw.name member s.world)))
        unset_vm_nic_rate_limit

  unfoldable pub disconnect_if_nic : Switch → Step
  unfolding leave_switch
  disconnect_if_nic sw s =
      if s.nic.rate_limit
      then (if str_eq s.nic.inst_epair ""
          then (none, s)
          else leave_switch sw (append s.nic.inst_epair "b") s)
      else if str_eq s.nic.net_dev ""
      then (none, s)
      else leave_switch sw s.nic.net_dev s

  unfoldable pub connect_nic : Switch → Step
  unfolding connect_if_nic nic_type_match
  connect_nic sw s =
      if not (nic_type_match sw s.nic)
      then (some type_mismatch, s)
      else if str_eq sw.switch_type "IF"
      then connect_if_nic sw s
      else if str_eq sw.switch_type "NG"
      then (none, s)
      else (some no_such_type, s)

  unfoldable pub disconnect_nic : Switch → Step
  unfolding disconnect_if_nic nic_type_match
  disconnect_nic sw s =
      if not (nic_type_match sw s.nic)
      then (some type_mismatch, s)
      else if str_eq sw.switch_type "IF"
      then disconnect_if_nic sw s
      else (none, s)
