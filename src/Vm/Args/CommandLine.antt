-- ===== src/Vm/Args/CommandLine.antt =====
-- `generateCommandLine` of cirrinad/vm/args.go and the order of the slots.
use cirrina.Prelude.{ℕ, String, List, [], ◌∷◌, ◌++◌}
use cirrina.Store.{Store}
use cirrina.Vmnic.{VmNic}
use cirrina.Vm.{Vm, Settings, Host}
use cirrina.Vm.Args.{
  Args, get_com_args, add_com_args, add_protect_args, add_priority_args, add_some_args,
  get_extra_arg,
}
use cirrina.Vm.Args.Slots.{
  get_host_bridge_arg, get_video_arg, get_tablet_arg, get_disk_arg, get_cd_arg, get_sound_arg,
  get_lpc_arg,
}
use cirrina.Vm.Args.Net.{get_net_args}

pub record SlotArgs : Type 0 where
  pub host_bridge_arg : Args
  pub fbuf_arg : Args
  pub tablet_arg : Args
  pub net_arg : Args
  pub disk_arg : Args
  pub cd_arg : Args
  pub sound_arg : Args
  pub lpc_arg : Args

unfoldable pub add_slot_args : Args → SlotArgs → Args
add_slot_args args s =
    args
    ++ (s.host_bridge_arg
        ++ (s.cd_arg
            ++ (s.fbuf_arg
                ++ (s.tablet_arg ++ (s.net_arg ++ (s.disk_arg ++ (s.sound_arg ++ s.lpc_arg)))))))

module _ (store : Store VmNic) (settings : Settings) (host : Host) (vms : List Vm) where
  open store use {Db}

  -- The arguments, the last slot, the VM, which may have got a port, and the table of NICs.
  unfoldable pub get_slot_args : Vm → ℕ → Db → SlotArgs × ℕ × Vm × Db
  unfolding get_host_bridge_arg get_video_arg get_tablet_arg get_net_args get_disk_arg get_cd_arg
      get_sound_arg get_lpc_arg
  get_slot_args v slot db =
      let c = v.config in
      let (host_bridge_arg, slot1) = get_host_bridge_arg c slot in
      let (fbuf_arg, slot2, v') = get_video_arg settings host vms v slot1 in
      let (tablet_arg, slot3) = get_tablet_arg c slot2 in
      let (net_arg, slot4, db') = get_net_args store settings host vms v slot3 db in
      let (disk_arg, slot5) = get_disk_arg settings host v slot4 in
      let (cd_arg, slot6) = get_cd_arg settings v slot5 in
      let (sound_arg, slot7) = get_sound_arg host c slot6 in
      let (lpc_arg, slot8) = get_lpc_arg slot7 in
      (
        record {
          host_bridge_arg = host_bridge_arg;
          fbuf_arg = fbuf_arg;
          tablet_arg = tablet_arg;
          net_arg = net_arg;
          disk_arg = disk_arg;
          cd_arg = cd_arg;
          sound_arg = sound_arg;
          lpc_arg = lpc_arg;
        },
        slot8,
        v',
        db',
      )

  -- The save at the end writes the VM to its own table, whose rows no argument is read from; it is left out.
  unfoldable pub generate_command_line : Vm → Db → String × Args × Vm × Db
  unfolding get_slot_args get_com_args add_com_args add_protect_args add_priority_args add_some_args
      add_slot_args get_extra_arg
  generate_command_line v db =
      let (slots, last, v1, db') = get_slot_args v 0 db in
      let (com1_arg, com2_arg, com3_arg, com4_arg, v2) = get_com_args v1 in
      let prefixed = add_priority_args v2.config (add_protect_args v2.config []) in
      let (args, v3) =
        add_some_args settings host vms v2 (prefixed ++ ("/usr/sbin/bhyve" ∷ "-U" ∷ v2.id ∷ [])) in
      let with_coms = add_com_args (add_slot_args args slots) com1_arg com2_arg com3_arg com4_arg in
      (settings.sudo, with_coms ++ (get_extra_arg v3.config ++ v3.name ∷ []), v3, db')
