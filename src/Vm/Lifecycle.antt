-- ===== src/Vm/Lifecycle.antt =====
-- The life of a VM: `Start`, `Stop`, `Done` and the events of `monitor` of cirrinad/vm/vm.go, the
-- states of cirrinad/vm/db.go and the disks' locks of cirrinad/vm/disk.go.
-- `Locks` is about locks alone, `Cycle` about whole sequences of events.
-- The commands for network devices, the console's goroutines and the process supervisor are outside: what
-- they answer is an argument.
pub mod Locks
pub mod Kept
pub mod Started
pub mod Cycle
pub mod Failure
use cirrina.Prelude.{
  ℕ, String, ◌≡◌, Bool, true, false, not, Option, none, some, List, [], ◌∷◌, ◌==◌, str_eq,
  if◌then◌else◌, Result, ok, err,
}
use cirrina.Store.{Store}
use cirrina.Vmnic.{VmNic, NicError}
use cirrina.Vmnic.Table.{get_nics}
use cirrina.Vm.{Vm, StatusType, stopped, starting, running, stopping, Disk, Settings, Host}
use cirrina.Vm.Args.{is_stopped}
use cirrina.Vm.Args.CommandLine.{generate_command_line}

-- `SetStarting`, `SetStopping` and `SetRunning`, on the VM in memory, whatever the database answers.
unfoldable pub set_starting : Vm → Vm
set_starting v = record v { status = starting }

unfoldable pub set_stopping : Vm → Vm
set_stopping v = record v { status = stopping }

unfoldable pub set_running : ℕ → Vm → Vm
set_running pid v = record v { status = running; bhyve_pid = pid }

-- `SetStopped`, the same way.
unfoldable pub set_stopped : Vm → Vm
set_stopped v = record v {
  status = stopped;
  vnc_port = 0;
  debug_port = 0;
  bhyve_pid = 0;
  com1_dev = "";
  com2_dev = "";
  com3_dev = "";
  com4_dev = "";
}

-- The IDs of the disks of a VM; a nil entry is passed over.
unfoldable pub disk_ids : List (Option Disk) → List String
disk_ids [] = []
disk_ids (none ∷ disks) = disk_ids disks
disk_ids (some d ∷ disks) = d.id ∷ disk_ids disks

-- Which disks are locked.
abbrev pub Locks : Type 0
Locks = String → Bool

abbrev pub hold : String → Locks → Locks
hold i locked j = if str_eq j i then true else locked j

abbrev pub release : String → Locks → Locks
release i locked j = if str_eq j i then false else locked j

-- `lockDisks`: `false` if it waits for a lock that is held.
unfoldable pub lock_disks : List String → Locks → Bool × Locks
lock_disks [] locked = (true, locked)
lock_disks (i ∷ ids) locked =
    let rest = lock_disks ids (hold i locked) in if locked i then (false, locked) else rest

-- `unlockDisks`: `false` if it unlocks a lock that is not held, which ends the daemon.
unfoldable pub unlock_disks : List String → Locks → Bool × Locks
unlock_disks [] locked = (true, locked)
unlock_disks (i ∷ ids) locked =
    let rest = unlock_disks ids (release i locked) in if locked i then rest else (false, locked)

pub data StartResult : Type 0 where
  started not_stopped net_failed save_failed process_failed : StartResult
  waits_for_lock : StartResult

module _ (store : Store VmNic) (settings : Settings) (host : Host) (vms : List Vm) where
  open store use {Db}

  -- The VM, whether it has ever got a process, whether `monitor` is at work, the locks of all disks, and
  -- the table of NICs.
  pub record Machine : Type 0 where
    pub vm : Vm
    pub has_proc : Bool
    pub monitored : Bool
    pub locked : Locks
    pub db : Db

  -- `netStart` fails only where the NICs cannot be read; an error on one NIC is logged.
  abbrev pub net_starts : Result NicError (List VmNic) → Bool
  net_starts (ok nics) = true
  net_starts (err e) = false

  unfoldable pub start_process : Bool → Bool → Machine → StartResult × Machine
  start_process saves process_starts m =
      if not (net_starts (get_nics store m.vm.config.id m.db))
      then (net_failed, m)
      else if not saves
      then (save_failed, m)
      else if process_starts
      then (started, record m { has_proc = true; monitored = true })
      else (process_failed, record m { has_proc = true; monitored = true })

  -- The rest of `Start`, with what `lockDisks` answers.
  unfoldable pub start_locked : Bool → Bool → Machine → Bool × Locks → StartResult × Machine
  unfolding start_process
  start_locked saves process_starts m (false, locked) =
      (waits_for_lock, record m { locked = locked })
  start_locked saves process_starts m (true, locked) =
      let (name, args, v, db) = generate_command_line store settings host vms m.vm m.db in
      start_process saves process_starts (record m { vm = v; locked = locked; db = db })

  unfoldable pub start_vm : Bool → Bool → Machine → StartResult × Machine
  unfolding set_starting lock_disks disk_ids start_locked
  start_vm saves process_starts m =
      if not (is_stopped m.vm.status)
      then (not_stopped, m)
      else start_locked saves process_starts (record m { vm = set_starting m.vm })
          (lock_disks (disk_ids m.vm.disks) m.locked)

  -- `Stop`: whether it ended without an error. `SetStopped` fails where the database does.
  unfoldable pub stop_vm : Bool → Bool → Machine → Bool × Machine
  unfolding set_stopping set_stopped
  stop_vm saves process_stops m =
      if is_stopped m.vm.status
      then (true, m)
      else if not m.has_proc
      then (saves, record m { vm = set_stopped (set_stopping m.vm) })
      else (process_stops, record m { vm = set_stopping m.vm })

  -- `Done`, after which `monitor` returns; `none` if the daemon ends on a lock that is not held.
  abbrev done_unlocked : Machine → Bool × Locks → Option Machine
  done_unlocked m (false, locked) = none
  done_unlocked m (true, locked) =
      some (record m { vm = set_stopped m.vm; locked = locked; monitored = false })

  unfoldable pub done : Machine → Option Machine
  unfolding unlock_disks disk_ids set_stopped
  done m = done_unlocked m (unlock_disks (disk_ids m.vm.disks) m.locked)

  -- The event ProcessStart, with the ID of the process that `findChildProcName` answers.
  unfoldable pub process_start : Bool → Bool → ℕ → Machine → Option Machine
  unfolding set_running stop_vm done
  process_start saves process_stops pid m =
      if pid == 0
      then done (stop_vm saves process_stops m).1
      else some (record m { vm = set_running pid m.vm })
