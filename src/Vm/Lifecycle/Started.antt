-- ===== src/Vm/Lifecycle/Started.antt =====
-- What a start of a VM of cirrinad/vm/vm.go comes to once its disks' locks are taken.
use cirrina.Prelude.{◌≡◌, refl, ◌∙◌, sym, ap, ◌⊎◌, Bool, true, false, not, List, if_split, arith}
use cirrina.Store.{Store}
use cirrina.Vmnic.{VmNic}
use cirrina.Vm.{Vm, Settings, Host}
use cirrina.Vm.Args.{is_stopped}
use cirrina.Vm.Args.CommandLine.{generate_command_line}
use cirrina.Vm.Lifecycle.{
  Machine, StartResult, started, net_failed, start_locked, start_vm, set_starting, Locks,
  lock_disks, disk_ids,
}
use cirrina.Vm.Lifecycle.Kept.{command_line_kept, start_process-IsProcessStart}

module _ (store : Store VmNic) (settings : Settings) (host : Host) (vms : List Vm) where
  -- The state of the VM with what belongs to it.
  abbrev M : Type 0
  M = Machine store settings host vms

  abbrev pub Ends : StartResult → Type 0
  Ends s = (s ≡ started) ⊎ (s ≡ net_failed)

  -- After a start that got past the locks: they were taken, and the VM is no longer stopped.
  pub record IsPrepared (m : M) (taken : Bool × Locks) (r : StartResult × M) : Type 0 where
    pub got_locks : taken ≡ (true, r.1.locked)
    pub is_busy : is_stopped r.1.vm.status ≡ false
    pub disks_kept : r.1.vm.disks ≡ m.vm.disks
    pub if_started : r.0 ≡ started → (r.1.has_proc ≡ true) × (r.1.monitored ≡ true)
    pub if_net_failed : r.0 ≡ net_failed → r.1.has_proc ≡ m.has_proc

  start_locked-IsPrepared :
      (saves process_starts : Bool) (m : M) (taken : Bool × Locks)
      → is_stopped m.vm.status ≡ false
      → Ends (start_locked store settings host vms saves process_starts m taken).0
      → IsPrepared m taken (start_locked store settings host vms saves process_starts m taken)
  unfolding start_locked
  start_locked-IsPrepared saves process_starts m (false, locked) busy e = absurd (ground arith)
  start_locked-IsPrepared saves process_starts m (true, locked) busy e =
      let same = command_line_kept settings host vms store m.vm m.db in
      let made = generate_command_line store settings host vms m.vm m.db in
      let facts =
        start_process-IsProcessStart settings host vms store saves process_starts
          (record m { vm = made.2; locked = locked; db = made.3 }) in
      record {
        got_locks = ap (λ l. (true, l)) (sym facts.locks_kept);
        is_busy =
            ap (λ v. is_stopped v.status) facts.vm_kept ∙ ap is_stopped same.same_status ∙ busy;
        disks_kept = ap (λ v. v.disks) facts.vm_kept ∙ same.same_disks;
        if_started = facts.if_started;
        if_net_failed = facts.if_net_failed;
      }

  -- What holds of a start that got past the locks.
  abbrev pub AfterStart : M → StartResult × M → Type 0
  AfterStart m r =
      (is_stopped m.vm.status ≡ true) × IsPrepared m (lock_disks (disk_ids m.vm.disks) m.locked) r

  pub start_vm-AfterStart :
      (saves process_starts : Bool) (m : M)
      → Ends (start_vm store settings host vms saves process_starts m).0
      → AfterStart m (start_vm store settings host vms saves process_starts m)
  unfolding start_vm set_starting
  start_vm-AfterStart saves process_starts m =
      if_split (λ (r : StartResult × M). Ends r.0 → AfterStart m r) (not (is_stopped m.vm.status))
        (λ other e. absurd (ground arith))
        (λ was e.
          let p =
            start_locked-IsPrepared saves process_starts (record m { vm = set_starting m.vm })
              (lock_disks (disk_ids m.vm.disks) m.locked) refl e in
          (
            ground arith,
            record {
              got_locks = p.got_locks;
              is_busy = p.is_busy;
              disks_kept = p.disks_kept;
              if_started = p.if_started;
              if_net_failed = p.if_net_failed;
            },
          ))
