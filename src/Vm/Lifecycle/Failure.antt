-- ===== src/Vm/Lifecycle/Failure.antt =====
-- A start of a VM of cirrinad/vm/vm.go whose network fails, and what follows.
use cirrina.Prelude.{String, ◌≡◌, refl, ◌∙◌, sym, ap, inr, Bool, true, false, List, ◌∷◌}
use cirrina.Store.{Store}
use cirrina.Vmnic.{VmNic}
use cirrina.Vm.{Vm, Settings, Host}
use cirrina.Vm.Args.{is_stopped}
use cirrina.Vm.Lifecycle.{
  Machine, net_failed, waits_for_lock, start_locked, start_vm, stop_vm, set_stopping, set_stopped,
  lock_disks, disk_ids, Locks,
}
use cirrina.Vm.Lifecycle.Locks.{lock_disks-again}
use cirrina.Vm.Lifecycle.Started.{start_vm-AfterStart}

module _ (store : Store VmNic) (settings : Settings) (host : Host) (vms : List Vm) where
  abbrev M : Type 0
  M = Machine store settings host vms

  stop_without_proc :
      (saves process_stops : Bool) (t : M)
      → is_stopped t.vm.status ≡ false
      → t.has_proc ≡ false
      → (stop_vm store settings host vms saves process_stops t).1
        ≡ record t { vm = set_stopped (set_stopping t.vm) }
  unfolding stop_vm
  stop_without_proc saves process_stops t busy no_proc = rw (busy, no_proc) refl

  start_waits :
      (saves process_starts : Bool) (u : M) (locked : Locks)
      → is_stopped u.vm.status ≡ true
      → lock_disks (disk_ids u.vm.disks) u.locked ≡ (false, locked)
      → (start_vm store settings host vms saves process_starts u).0 ≡ waits_for_lock
  unfolding start_vm start_locked
  start_waits saves process_starts u locked off taken = rw (off, taken) refl

  -- If the network of a VM that has a disk and never had a process fails at its start, then stopping
  -- it makes it a stopped VM whose next start waits for a lock that the first start has kept.
  pub failed_start-waits :
      (saves process_starts saves' process_stops : Bool) (m : M) (i : String) (ids : List String)
      → m.has_proc ≡ false
      → disk_ids m.vm.disks ≡ i ∷ ids
      → (start_vm store settings host vms saves process_starts m).0 ≡ net_failed
      → let t = (start_vm store settings host vms saves process_starts m).1 in
        let u = (stop_vm store settings host vms saves' process_stops t).1 in
        (is_stopped u.vm.status ≡ true)
        × ((start_vm store settings host vms saves process_starts u).0 ≡ waits_for_lock)
  unfolding set_stopped set_stopping
  failed_start-waits saves process_starts saves' process_stops m i ids no_proc own e =
      let t = (start_vm store settings host vms saves process_starts m).1 in
      let (_, p) = start_vm-AfterStart store settings host vms saves process_starts m (inr e) in
      let same = stop_without_proc saves' process_stops t p.is_busy (p.if_net_failed e ∙ no_proc) in
      let kept = ap disk_ids p.disks_kept ∙ own in
      let again =
        lock_disks-again i ids m.locked t.locked
          (sym (ap (λ l. lock_disks l m.locked) own) ∙ p.got_locks) in
      rw same (
        refl,
        start_waits saves process_starts (record t { vm = set_stopped (set_stopping t.vm) })
            t.locked refl (ap (λ l. lock_disks l t.locked) kept ∙ again),
      )
