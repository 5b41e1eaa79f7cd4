-- ===== src/Vm/Lifecycle/Kept.antt =====
-- What preparing the command line of a VM leaves alone, and what `Start` of cirrinad/vm/vm.go comes to.
use cirrina.Prelude.{
  ℕ, String, ◌≡◌, refl, ◌∙◌, Bool, true, not, Option, none, some, List, [], if_both,
}
use cirrina.Store.{Store}
use cirrina.Vmnic.{VmNic}
use cirrina.Vmnic.Table.{get_nics}
use cirrina.Vm.{Vm, Settings, Host}
use cirrina.Vm.Args.{
  find_debug_port, debug_arg_at, get_debug_arg, add_some_args, get_com_args, set_debug_port,
  set_vnc_port, Args,
}
use cirrina.Vm.Args.Slots.{find_vnc_port, video_arg_at, get_video_arg}
use cirrina.Vm.Args.CommandLine.{get_slot_args, generate_command_line}
use cirrina.Vm.Lifecycle.{Machine, StartResult, started, net_failed, start_process, net_starts}

-- The command line changes the ports and consoles alone.
pub record IsSameVm (v w : Vm) : Type 0 where
  pub same_status : w.status ≡ v.status
  pub same_disks : w.disks ≡ v.disks
  pub same_config : w.config ≡ v.config

same_vm : (v : Vm) → IsSameVm v v
same_vm v = record { same_status = refl; same_disks = refl; same_config = refl }

IsSameVm-trans : {u v w : Vm} → IsSameVm u v → IsSameVm v w → IsSameVm u w
IsSameVm-trans a b = record {
  same_status = b.same_status ∙ a.same_status;
  same_disks = b.same_disks ∙ a.same_disks;
  same_config = b.same_config ∙ a.same_config;
}

video_kept :
    (settings : Settings) (v : Vm) (slot : ℕ) (o : Option (ℕ × String))
    → IsSameVm v (video_arg_at settings v slot o).2
unfolding video_arg_at set_vnc_port
video_kept settings v slot none = same_vm v
video_kept settings v slot (some (port, s)) = record {
  same_status = refl;
  same_disks = refl;
  same_config = refl;
}

debug_kept :
    (settings : Settings) (v : Vm) (o : Option (ℕ × String))
    → IsSameVm v (debug_arg_at settings v o).1
unfolding debug_arg_at set_debug_port
debug_kept settings v none = same_vm v
debug_kept settings v (some (port, s)) = record {
  same_status = refl;
  same_disks = refl;
  same_config = refl;
}

module _ (settings : Settings) (host : Host) (vms : List Vm) where
  get_video_kept : (v : Vm) (slot : ℕ) → IsSameVm v (get_video_arg settings host vms v slot).2
  unfolding get_video_arg
  get_video_kept v slot =
      if_both {on = ([], slot, v)}
        {off = video_arg_at settings v slot (find_vnc_port settings host vms v.config)}
        (λ (r : Args × ℕ × Vm). IsSameVm v r.2) (not v.config.screen) (same_vm v)
        (video_kept settings v slot _)

  get_debug_kept : (v : Vm) → IsSameVm v (get_debug_arg settings host vms v).1
  unfolding get_debug_arg
  get_debug_kept v =
      if_both {on = ([], v)}
        {off = debug_arg_at settings v (find_debug_port settings host vms v.config)}
        (λ (r : Args × Vm). IsSameVm v r.1) (not v.config.debug) (same_vm v)
        (debug_kept settings v _)

  com_kept : (v : Vm) → IsSameVm v (get_com_args v).4
  unfolding get_com_args
  com_kept v = record { same_status = refl; same_disks = refl; same_config = refl }

  module _ (store : Store VmNic) where
    pub command_line_kept :
        (v : Vm) (db : store.Db) → IsSameVm v (generate_command_line store settings host vms v db).2
    unfolding generate_command_line get_slot_args add_some_args
    command_line_kept v db =
        IsSameVm-trans (get_video_kept v _) (IsSameVm-trans (com_kept _) (get_debug_kept _))

    -- What the end of `Start` does: it leaves the VM and the locks as they are.
    pub record IsProcessStart (m : Machine store settings host vms)
        (r : StartResult × Machine store settings host vms) : Type 0 where
      pub vm_kept : r.1.vm ≡ m.vm
      pub locks_kept : r.1.locked ≡ m.locked
      pub if_started : r.0 ≡ started → (r.1.has_proc ≡ true) × (r.1.monitored ≡ true)
      pub if_net_failed : r.0 ≡ net_failed → r.1.has_proc ≡ m.has_proc

    pub start_process-IsProcessStart :
        (saves process_starts : Bool) (m : Machine store settings host vms)
        → IsProcessStart m (start_process store settings host vms saves process_starts m)
    unfolding start_process
    start_process-IsProcessStart saves process_starts m =
        if_both (IsProcessStart m)
          (not (net_starts store settings host vms (get_nics store m.vm.config.id m.db)))
          (record {
            vm_kept = refl;
            locks_kept = refl;
            if_started = λ e. absurd (cc);
            if_net_failed = λ e. refl;
          })
          (if_both (IsProcessStart m) (not saves)
            (record {
              vm_kept = refl;
              locks_kept = refl;
              if_started = λ e. absurd (cc);
              if_net_failed = λ e. absurd (cc);
            })
            (if_both (IsProcessStart m) process_starts
              (record {
                vm_kept = refl;
                locks_kept = refl;
                if_started = λ e. (refl, refl);
                if_net_failed = λ e. absurd (cc);
              })
              (record {
                vm_kept = refl;
                locks_kept = refl;
                if_started = λ e. absurd (cc);
                if_net_failed = λ e. absurd (cc);
              })))
