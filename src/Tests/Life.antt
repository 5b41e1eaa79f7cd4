-- ===== src/Tests/Life.antt =====
-- Runs of the life of a VM of cirrinad/vm/vm.go.
use cirrina.Prelude.{◌≡◌, refl, true, false, some, [], ◌∷◌}
use cirrina.Store.{Store}
use cirrina.Vmnic.{VmNic}
use cirrina.Vmnic.Table.{get_nics}
use cirrina.Vm.{Vm, stopped}
use cirrina.Vm.Args.{is_stopped}
use cirrina.Vm.Lifecycle.{
  Machine, started, net_failed, waits_for_lock, start_process, start_locked, start_vm, stop_vm,
  done, set_stopped, lock_disks, unlock_disks, disk_ids, Locks,
}
use cirrina.Vm.Lifecycle.Cycle.{Step, Reach, done-balanced}
use cirrina.Vm.Lifecycle.Failure.{failed_start-waits}
use cirrina.Tests.Slots.{web, settings, host, nic, nics}

abbrev no_locks : Locks
no_locks i = false

abbrev web_off : Vm
web_off = record web { status = stopped }

abbrev off : Machine nics settings host []
off = record { vm = web_off; has_proc = false; monitored = false; locked = no_locks; db = nic ∷ [] }

abbrev on : Machine nics settings host []
on = (start_vm nics settings host [] true true off).1

starts : (start_vm nics settings host [] true true off).0 ≡ started
unfolding start_vm start_locked start_process disk_ids lock_disks get_nics
starts = refl

watched : on.monitored ≡ true
unfolding start_vm start_locked start_process disk_ids lock_disks get_nics
watched = refl

abbrev to_on : Reach nics settings host [] off on
to_on = Reach.next Reach.begin (Step.start_up true true starts)

done-balanced_example :
    (u : Machine nics settings host []) × (done nics settings host [] on ≡ some u)
    × (u.locked ≡ no_locks)
    × (is_stopped u.vm.status ≡ true)
done-balanced_example = done-balanced nics settings host [] off on refl refl to_on watched

-- The same VM where the NICs cannot be read.
abbrev broken : Store VmNic
broken = record nics { query_fails = λ db. true }

abbrev broken_off : Machine broken settings host []
broken_off = record {
  vm = web_off;
  has_proc = false;
  monitored = false;
  locked = no_locks;
  db = nic ∷ [];
}

one_disk : disk_ids web_off.disks ≡ "disk-1" ∷ []
unfolding disk_ids
one_disk = refl

fails : (start_vm broken settings host [] true true broken_off).0 ≡ net_failed
unfolding start_vm start_locked start_process disk_ids lock_disks get_nics
fails = refl

failed_start-waits_example :
    let t = (start_vm broken settings host [] true true broken_off).1 in
    let u = (stop_vm broken settings host [] true true t).1 in
    (is_stopped u.vm.status ≡ true)
    × ((start_vm broken settings host [] true true u).0 ≡ waits_for_lock)
failed_start-waits_example =
    failed_start-waits broken settings host [] true true true true broken_off "disk-1" [] refl
      one_disk fails

abbrev off_again : Machine nics settings host []
off_again = record on {
  vm = set_stopped on.vm;
  locked = (unlock_disks (disk_ids on.vm.disks) on.locked).1;
  monitored = false;
}
