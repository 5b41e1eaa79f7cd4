-- ===== src/Vm/Lifecycle/Cycle.antt =====
-- Sequences of events in the life of a VM of cirrinad/vm/vm.go, and what they do to its disks' locks.
use mathlib.Core.Bool.{false≢true}
use mathlib.Core.Path.{subst}
use cirrina.Prelude.{
  ℕ, ◌≡◌, refl, ◌∙◌, sym, ap, inl, Bool, true, false, not, Option, some, List, ◌==◌, if_both,
  some-injective, if_split, arith,
}
use cirrina.Store.{Store}
use cirrina.Vmnic.{VmNic}
use cirrina.Vm.{Vm, Settings, Host}
use cirrina.Vm.Args.{is_stopped}
use cirrina.Vm.Lifecycle.{
  Machine, started, start_vm, stop_vm, done, process_start, set_stopping, set_stopped, set_running,
  Locks, lock_disks, disk_ids,
}
use cirrina.Vm.Lifecycle.Locks.{unlock_disks-lock_disks}
use cirrina.Vm.Lifecycle.Started.{start_vm-AfterStart}

module _ (store : Store VmNic) (settings : Settings) (host : Host) (vms : List Vm) where
  -- The state of the VM with what belongs to it.
  abbrev M : Type 0
  M = Machine store settings host vms

  -- What happens to a VM: a start that ends well, `Stop` at any time, the event that its process runs,
  -- and the end of its process, which only a `monitor` at work hears of.
  pub data Step (m : M) : M → Type 0 where
    start_up :
        (saves process_starts : Bool)
        → (start_vm store settings host vms saves process_starts m).0 ≡ started
        → Step m (start_vm store settings host vms saves process_starts m).1
    stop :
        (saves process_stops : Bool)
        → Step m (stop_vm store settings host vms saves process_stops m).1
    found :
        (saves process_stops : Bool) (pid : ℕ) {t : M}
        → m.monitored ≡ true
        → process_start store settings host vms saves process_stops pid m ≡ some t
        → Step m t
    ended : {t : M} → m.monitored ≡ true → done store settings host vms m ≡ some t → Step m t

  pub data Reach (m : M) : M → Type 0 where
    begin : Reach m m
    next : {t u : M} → Reach m t → Step t u → Reach m u

  -- Either the VM is stopped and its disks are as they were, or it has its process, its monitor and
  -- its disks' locks.
  data IsSound (base : Locks) (m : M) : Type 0 where
    idle : is_stopped m.vm.status ≡ true → m.monitored ≡ false → m.locked ≡ base → IsSound base m
    busy :
        is_stopped m.vm.status ≡ false
        → m.monitored ≡ true
        → m.has_proc ≡ true
        → lock_disks (disk_ids m.vm.disks) base ≡ (true, m.locked)
        → IsSound base m

  done_lem :
      (base : Locks) (m : M)
      → lock_disks (disk_ids m.vm.disks) base ≡ (true, m.locked)
      → done store settings host vms m
        ≡ some (record m { vm = set_stopped m.vm; locked = base; monitored = false })
  unfolding done
  done_lem base m taken =
      rw (unlock_disks-lock_disks (disk_ids m.vm.disks) base m.locked taken) refl

  stopped_lem : (v : Vm) → is_stopped (set_stopped v).status ≡ true
  unfolding set_stopped
  stopped_lem v = refl

  after_done :
      (base : Locks) (m t : M)
      → lock_disks (disk_ids m.vm.disks) base ≡ (true, m.locked)
      → done store settings host vms m ≡ some t
      → IsSound base t
  after_done base m t taken e =
      subst (λ m'. IsSound base m') (some-injective (sym (done_lem base m taken) ∙ e))
        (idle (stopped_lem m.vm) refl refl)

  start-IsSound :
      (saves process_starts : Bool) (base : Locks) (m : M)
      → (start_vm store settings host vms saves process_starts m).0 ≡ started
      → IsSound base m
      → IsSound base (start_vm store settings host vms saves process_starts m).1
  start-IsSound saves process_starts base m e v =
      let (off, p) = start_vm-AfterStart store settings host vms saves process_starts m (inl e) in
      elim v [
        | idle _ _ same ↦ busy p.is_busy (p.if_started e).1 (p.if_started e).0 (
            ap (λ d. lock_disks (disk_ids d) base) p.disks_kept
            ∙ ap (λ l. lock_disks (disk_ids m.vm.disks) l) (sym same)
            ∙ p.got_locks)
        | busy on _ _ _ ↦ absurd (false≢true (sym on ∙ off))
      ]

  stop-IsSound :
      (saves process_stops : Bool) (base : Locks) (m : M)
      → IsSound base m
      → IsSound base (stop_vm store settings host vms saves process_stops m).1
  unfolding stop_vm set_stopping
  stop-IsSound saves process_stops base m (idle off quiet same) =
      if_split (λ (r : Bool × M). IsSound base r.1) (is_stopped m.vm.status)
        (λ _. idle off quiet same) (λ on. absurd (false≢true (sym on ∙ off)))
  stop-IsSound saves process_stops base m (busy on watched proc taken) =
      if_split (λ (r : Bool × M). IsSound base r.1) (is_stopped m.vm.status)
        (λ off. absurd (false≢true (sym on ∙ off)))
        (λ _.
          if_split (λ (r : Bool × M). IsSound base r.1) (not m.has_proc)
            (λ no_proc. absurd (ground arith)) (λ _. busy refl watched proc taken))

  stop_monitored :
      (saves process_stops : Bool) (m : M)
      → (stop_vm store settings host vms saves process_stops m).1.monitored ≡ m.monitored
  unfolding stop_vm
  stop_monitored saves process_stops m =
      if_both (λ (r : Bool × M). r.1.monitored ≡ m.monitored) (is_stopped m.vm.status) refl
        (if_both (λ (r : Bool × M). r.1.monitored ≡ m.monitored) (not m.has_proc) refl refl)

  -- What a monitor at work may rely on.
  watched_lem :
      (base : Locks) (m : M)
      → IsSound base m
      → m.monitored ≡ true
      → (m.has_proc ≡ true) × (lock_disks (disk_ids m.vm.disks) base ≡ (true, m.locked))
  watched_lem base m (idle off quiet same) watched = absurd (false≢true (sym quiet ∙ watched))
  watched_lem base m (busy on _ proc taken) watched = (proc, taken)

  found-IsSound :
      (saves process_stops : Bool) (pid : ℕ) (base : Locks) (m t : M)
      → IsSound base m
      → m.monitored ≡ true
      → process_start store settings host vms saves process_stops pid m ≡ some t
      → IsSound base t
  unfolding process_start set_running
  found-IsSound saves process_stops pid base m t v watched =
      let s = (stop_vm store settings host vms saves process_stops m).1 in
      let (proc, taken) = watched_lem base m v watched in
      if_both (λ (o : Option M). o ≡ some t → IsSound base t) (pid == 0)
        (after_done base s t
          (watched_lem base s (stop-IsSound saves process_stops base m v)
            (stop_monitored saves process_stops m ∙ watched)).1)
        (λ e. subst (λ m'. IsSound base m') (some-injective e) (busy refl watched proc taken))

  Step-IsSound : (base : Locks) {m t : M} → Step m t → IsSound base m → IsSound base t
  Step-IsSound base {m} (start_up saves process_starts e) v =
      start-IsSound saves process_starts base m e v
  Step-IsSound base {m} (stop saves process_stops) v = stop-IsSound saves process_stops base m v
  Step-IsSound base {m} {t} (found saves process_stops pid watched e) v =
      found-IsSound saves process_stops pid base m t v watched e
  Step-IsSound base {m} {t} (ended watched e) v =
      after_done base m t (watched_lem base m v watched).1 e

  Reach-IsSound : (base : Locks) {m t : M} → IsSound base m → Reach m t → IsSound base t
  Reach-IsSound base v begin = v
  Reach-IsSound base v (next r step) = Step-IsSound base step (Reach-IsSound base v r)

  -- Whatever good starts, stops and process events follow one another from a VM that is stopped:
  -- while its monitor is at work, `Done` unlocks no lock that is not held, and it ends with the VM
  -- stopped and its disks locked as they were at first.
  pub done-balanced :
      (m t : M)
      → is_stopped m.vm.status ≡ true
      → m.monitored ≡ false
      → Reach m t
      → t.monitored ≡ true
      → (u : M) × (done store settings host vms t ≡ some u)
        × (u.locked ≡ m.locked)
        × (is_stopped u.vm.status ≡ true)
  done-balanced m t off quiet reach watched =
      let v = Reach-IsSound m.locked (idle off quiet refl) reach in
      (
        record t { vm = set_stopped t.vm; locked = m.locked; monitored = false },
        done_lem m.locked t (watched_lem m.locked t v watched).1,
        refl,
        stopped_lem t.vm,
      )
