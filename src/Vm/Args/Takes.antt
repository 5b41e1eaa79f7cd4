-- ===== src/Vm/Args/Takes.antt =====
-- The PCI slots that the arguments of cirrinad/vm/args.go take: no slot twice.
use native.Mathlib.Decide.{dec_lt}
use cirrina.Prelude.{
  ℕ, suc, ◌+◌, ◌≤◌, ◌<◌, ◌⊎◌, inl, inr, String, not, ◌||◌, Option, none, some, List, [], ◌∷◌, ◌++◌,
  arith, ltb, leb, if_both, option_both, if◌then◌else◌, Result, ok, err,
}
use cirrina.Store.{Store}
use cirrina.Strconv.{format_uint}
use cirrina.Vmnic.{VmNic, NicError}
use cirrina.Vmnic.Table.{get_nics, save}
use cirrina.Vm.{Vm, Config, Settings, Host, Iso, Disk}
use cirrina.Vm.Args.{Args}
use cirrina.Vm.Args.Slots.{
  slot_arg, fbuf_text, get_host_bridge_arg, video_arg_at, get_video_arg, get_tablet_arg,
  wanted_disk, get_one_disk_arg, disk_args, get_disk_arg, cd_args, get_cd_arg, sound_text,
  get_sound_arg, get_lpc_arg, cd_path, is_sata,
}
use cirrina.Vm.Args.Net.{
  nic_text, net_args_of, net_args, get_net_args, get_net_type_arg, get_net_dev_type_arg,
}
use cirrina.Vm.Args.CommandLine.{SlotArgs, get_slot_args}

-- The arguments are devices on slots from the first bound on and below the second, each on a later
-- slot than the one before it.
pub data Takes : ℕ → ℕ → Args → Type 0 where
  nothing : {a b : ℕ} → a ≤ b → Takes a b []
  device :
      {a b : ℕ} {args : Args} (slot : ℕ) (text : List String)
      → a ≤ slot
      → Takes (suc slot) b args
      → Takes a b (slot_arg slot text ++ args)

pub Takes-le : {a b : ℕ} {args : Args} → Takes a b args → a ≤ b
Takes-le (nothing h) = h
Takes-le (device slot text h t) = omega (arith, Takes-le t)

Takes-from : {a b c : ℕ} {args : Args} → c ≤ a → Takes a b args → Takes c b args
Takes-from h (nothing h') = nothing (omega arith)
Takes-from h (device slot text h' t) = device slot text (omega arith) t

pub Takes-append :
    {a b c : ℕ} {args args' : Args} → Takes a b args → Takes b c args' → Takes a c (args ++ args')
Takes-append (nothing h) t' = Takes-from h t'
Takes-append (device slot text h t) t' = device slot text h (Takes-append t t')

Takes-one : (slot : ℕ) (text : List String) → Takes slot (suc slot) (slot_arg slot text)
Takes-one slot text = device slot text (omega arith) (nothing (omega arith))

Takes-none : (slot : ℕ) → Takes slot slot []
Takes-none slot = nothing (omega arith)

-- A device on this slot before devices from the next one on.
Takes-next :
    (slot : ℕ) (text : List String) {b : ℕ} {args : Args}
    → Takes (suc slot) b args
    → Takes slot b (slot_arg slot text ++ args)
Takes-next slot text t = device slot text (omega arith) t

-- What a function with a slot keeps: its arguments lie between the slot that it gets and the one
-- that it returns.
abbrev pub TakesTo : ℕ → Args × ℕ → Type 0
TakesTo slot (args, last) = Takes slot last args

abbrev pub TakesVm : ℕ → Args × ℕ × Vm → Type 0
TakesVm slot (args, last, v) = Takes slot last args

pub get_host_bridge_arg-Takes : (c : Config) (slot : ℕ) → TakesTo slot (get_host_bridge_arg c slot)
unfolding get_host_bridge_arg
get_host_bridge_arg-Takes c slot =
    if_both (TakesTo slot) (not c.host_bridge) (Takes-none slot)
      (Takes-one slot (",hostbridge" ∷ []))

pub get_tablet_arg-Takes : (c : Config) (slot : ℕ) → TakesTo slot (get_tablet_arg c slot)
unfolding get_tablet_arg
get_tablet_arg-Takes c slot =
    if_both (TakesTo slot) (not c.screen || not c.tablet) (Takes-none slot)
      (Takes-one slot (",xhci,tablet" ∷ []))

video_arg_at-Takes :
    (settings : Settings) (v : Vm) (slot : ℕ) (o : Option (ℕ × String))
    → TakesVm slot (video_arg_at settings v slot o)
unfolding video_arg_at
video_arg_at-Takes settings v slot none = Takes-none slot
video_arg_at-Takes settings v slot (some (port, s)) = Takes-one slot (fbuf_text settings v.config s)

pub get_video_arg-Takes :
    (settings : Settings) (host : Host) (vms : List Vm) (v : Vm) (slot : ℕ)
    → TakesVm slot (get_video_arg settings host vms v slot)
unfolding get_video_arg
get_video_arg-Takes settings host vms v slot =
    if_both (TakesVm slot) (not v.config.screen) (Takes-none slot)
      (video_arg_at-Takes settings v slot _)

pub get_sound_arg-Takes :
    (host : Host) (c : Config) (slot : ℕ) → TakesTo slot (get_sound_arg host c slot)
unfolding get_sound_arg
get_sound_arg-Takes host c slot =
    if_both (TakesTo slot) _ (Takes-none slot) (Takes-one slot (sound_text host c))

module _ (settings : Settings) where
  cd_args-Takes :
      (first : ℕ) (isos : List (Option Iso)) (dev_count slot : ℕ)
      → TakesTo slot (cd_args settings first isos dev_count slot)
  unfolding cd_args
  cd_args-Takes first [] dev_count slot = Takes-none slot
  cd_args-Takes first (none ∷ isos) dev_count slot = cd_args-Takes first isos dev_count slot
  cd_args-Takes first (some iso ∷ isos) dev_count slot =
      if_both (TakesTo slot) (leb (dev_count + first + 1) 31)
        (Takes-next slot (":0,ahci,cd:" ∷ cd_path settings iso ∷ [])
          (cd_args-Takes first isos (suc dev_count) (suc slot)))
        (cd_args-Takes first isos dev_count slot)

  pub get_cd_arg-Takes : (v : Vm) (slot : ℕ) → TakesTo slot (get_cd_arg settings v slot)
  unfolding get_cd_arg
  get_cd_arg-Takes v slot = cd_args-Takes slot v.isos 0 slot

  module _ (host : Host) where
    disk_args-Takes :
        (first : ℕ) (disks : List (Option Disk)) (count slot : ℕ)
        → TakesTo slot (disk_args settings host first disks count slot)
    unfolding disk_args
    disk_args-Takes first [] count slot = Takes-none slot
    disk_args-Takes first (item ∷ items) count slot =
        option_both (TakesTo slot) (wanted_disk host item) (disk_args-Takes first items count slot)
          (λ d.
            let after = if is_sata d then suc count else count in
            if_both (TakesTo slot) (ltb 31 (after + first + 1))
              (disk_args-Takes first items after slot)
              (option_both (TakesTo slot) (get_one_disk_arg settings host d)
                (disk_args-Takes first items after slot)
                (λ text.
                  Takes-next slot ("," ∷ text) (disk_args-Takes first items after (suc slot)))))

    pub get_disk_arg-Takes : (v : Vm) (slot : ℕ) → TakesTo slot (get_disk_arg settings host v slot)
    unfolding get_disk_arg
    get_disk_arg-Takes v slot = disk_args-Takes slot v.disks 0 slot

-- The devices in the order in which `getSlotArgs` asks for them.
abbrev pub before_lpc : SlotArgs → Args
before_lpc s =
    s.host_bridge_arg
    ++ (s.fbuf_arg ++ (s.tablet_arg ++ (s.net_arg ++ (s.disk_arg ++ (s.cd_arg ++ s.sound_arg)))))

module _ (store : Store VmNic) (settings : Settings) (host : Host) (vms : List Vm) where
  open store use {Db}

  TakesDb : ℕ → Args × ℕ × Db → Type 0
  TakesDb slot (args, last, db) = Takes slot last args

  into_TakesDb :
      {slot last : ℕ} {args : Args} (db : Db) → Takes slot last args → TakesDb slot (args, last, db)
  unfolding TakesDb
  into_TakesDb db t = t

  from_TakesDb : (slot : ℕ) (r : Args × ℕ × Db) → TakesDb slot r → Takes slot r.1 r.0
  unfolding TakesDb
  from_TakesDb slot r t = t

  net_args-Takes :
      (v : Vm) (original : ℕ) (nics : List VmNic) (args : Args) (slot : ℕ) (db : Db)
      → Takes original slot args
      → TakesDb original (net_args store settings host vms v original nics args slot db)
  unfolding net_args
  net_args-Takes v original [] args slot db t = into_TakesDb db t
  net_args-Takes v original (nic ∷ nics) args slot db t =
      option_both (TakesDb original) (get_net_type_arg nic.net_type)
        (into_TakesDb db (Takes-none original))
        (λ net_type.
          option_both (TakesDb original)
            (get_net_dev_type_arg store host vms nic.net_dev_type nic.switch_id v.name db)
            (into_TakesDb db (nothing (Takes-le t)))
            (λ dev.
              let nic' = record nic { net_dev = dev.0 } in
              if_both (TakesDb original) _
                (net_args-Takes v original nics _ (suc slot) (save store nic' db).1 (
                  Takes-append t
                    (Takes-one slot (nic_text store settings host v nic' net_type dev.1))))
                (into_TakesDb (save store nic' db).1 (nothing (Takes-le t)))))

  net_args_of-Takes :
      (v : Vm) (slot : ℕ) (r : Result NicError (List VmNic)) (db : Db)
      → TakesDb slot (net_args_of store settings host vms v slot r db)
  unfolding net_args_of
  net_args_of-Takes v slot (err e) db = into_TakesDb db (Takes-none slot)
  net_args_of-Takes v slot (ok nics) db = net_args-Takes v slot nics [] slot db (Takes-none slot)

  get_net_args-Takes :
      (v : Vm) (slot : ℕ) (db : Db) → TakesDb slot (get_net_args store settings host vms v slot db)
  unfolding get_net_args
  get_net_args-Takes v slot db = net_args_of-Takes v slot (get_nics store v.config.id db) db

  slots_before_lpc :
      (v : Vm) (slot : ℕ) (db : Db)
      → let (s, last, v', db') = get_slot_args store settings host vms v slot db in
        Takes slot last (before_lpc s)
  unfolding get_slot_args get_lpc_arg
  slots_before_lpc v slot db = Takes-append (get_host_bridge_arg-Takes v.config slot) (
      Takes-append (get_video_arg-Takes settings host vms v _) (
        Takes-append (get_tablet_arg-Takes v.config _) (
          Takes-append (from_TakesDb _ _ (get_net_args-Takes v _ db)) (
            Takes-append (get_disk_arg-Takes settings host v _) (
              Takes-append (get_cd_arg-Takes settings v _)
                (get_sound_arg-Takes host v.config _))))))

  lpc_slot :
      (v : Vm) (slot : ℕ) (db : Db)
      → Takes 31 32 ((get_slot_args store settings host vms v slot db).0).lpc_arg
  unfolding get_slot_args get_lpc_arg format_uint
  lpc_slot v slot db = Takes-one 31 (",lpc" ∷ [])

  -- The devices that `getSlotArgs` returns besides the LPC, in the order in which it asks for them,
  -- take slots from the given one on, each a later slot than the one before; all of them lie below
  -- the last slot that it logs. Either they and the LPC behind them take increasing slots below 32, so
  -- that no slot is taken twice, or the last slot that is logged is above 31, the slot of the LPC.
  pub get_slot_args-Takes :
      (v : Vm) (slot : ℕ) (db : Db)
      → let (s, last, v', db') = get_slot_args store settings host vms v slot db in
        Takes slot last (before_lpc s) × (Takes slot 32 (before_lpc s ++ s.lpc_arg) ⊎ (31 < last))
  get_slot_args-Takes v slot db =
      let (s, last, _, _) = get_slot_args store settings host vms v slot db in
      let devices = slots_before_lpc v slot db in
      (
        devices,
        elim (dec_lt 31 last) [
          | yes over ↦ inr over
          | no fits ↦
              inl (Takes-append devices (Takes-from (omega (arith, fits)) (lpc_slot v slot db)))
        ],
      )
