-- ===== src/Vm/Args/SlotBounds.antt =====
-- The LPC's slot, 31, is left free by `getCDArg`, and by `getDiskArg` where every disk is a SATA disk.
use cirrina.Prelude.{
  ℕ, suc, ◌+◌, ◌≤◌, ◌≡◌, true, Option, none, some, List, [], ◌∷◌, ltb, leb, leb→le, if_split,
  option_split, ltb-false→le, option_both, if◌then◌else◌, arith, All,
}
use cirrina.Vm.{Vm, Settings, Host, Iso, Disk}
use cirrina.Vm.Args.{Args}
use cirrina.Vm.Args.Slots.{
  is_sata, wanted_disk, get_one_disk_arg, disk_args, get_disk_arg, cd_args, get_cd_arg,
}
use cirrina.Vm.Args.Takes.{Takes, get_cd_arg-Takes, get_disk_arg-Takes}

abbrev UpTo31 : Args × ℕ → Type 0
UpTo31 (args, last) = last ≤ 31

sata_count :
    (d : Disk) (count : ℕ) → is_sata d ≡ true → (if is_sata d then suc count else count) ≡ suc count
sata_count d count sata = rw sata

module _ (settings : Settings) where
  cd_args-bound :
      (first : ℕ) (isos : List (Option Iso)) (dev_count slot : ℕ)
      → slot ≡ first + dev_count
      → slot ≤ 31
      → (cd_args settings first isos dev_count slot).1 ≤ 31
  unfolding cd_args
  cd_args-bound first [] dev_count slot e h = h
  cd_args-bound first (none ∷ isos) dev_count slot e h = cd_args-bound first isos dev_count slot e h
  cd_args-bound first (some iso ∷ isos) dev_count slot e h =
      if_split UpTo31 (leb (dev_count + first + 1) 31)
        (λ fits.
          let room = leb→le (dev_count + first + 1) 31 fits in
          cd_args-bound first isos (suc dev_count) (suc slot) (omega arith) (omega arith))
        (λ full. cd_args-bound first isos dev_count slot e h)

  module _ (host : Host) where
    -- The entry names no disk that can be found, or a SATA disk.
    abbrev pub IsSata : Option Disk → Type 0
    IsSata item = (d : Disk) → wanted_disk host item ≡ some d → is_sata d ≡ true

    disk_args-bound :
        (first : ℕ) (disks : List (Option Disk)) (count slot : ℕ)
        → All IsSata disks
        → slot ≤ first + count
        → slot ≤ 31
        → (disk_args settings host first disks count slot).1 ≤ 31
    unfolding disk_args
    disk_args-bound first [] count slot sata e h = h
    disk_args-bound first (item ∷ items) count slot (one, all) e h =
        option_split UpTo31 (wanted_disk host item)
          (λ nothing. disk_args-bound first items count slot all e h)
          (λ d found.
            let after = if is_sata d then suc count else count in
            let counted = sata_count d count (one d found) in
            let skipped = disk_args-bound first items after slot all (omega (arith, counted)) h in
            if_split UpTo31 (ltb 31 (after + first + 1)) (λ full. skipped)
              (λ fits.
                let room = ltb-false→le 31 (after + first + 1) fits in
                option_both UpTo31 (get_one_disk_arg settings host d) skipped (λ text.
                  disk_args-bound first items after (suc slot) all (omega (arith, counted))
                    (omega (arith, counted)))))

    -- If every entry of the VM's disks that can be found is a SATA disk, then from a slot up to 31 on
    -- the disks, and after them the CDs, take slots one after the other, and every one of them is
    -- below 31.
    pub get_disk_arg-below_lpc :
        (v : Vm) (slot : ℕ)
        → All IsSata v.disks
        → slot ≤ 31
        → let (disks, middle) = get_disk_arg settings host v slot in
          let (cds, last) = get_cd_arg settings v middle in
          Takes slot middle disks × Takes middle last cds × (middle ≤ 31) × (last ≤ 31)
    unfolding get_disk_arg get_cd_arg
    get_disk_arg-below_lpc v slot sata h =
        let middle = (get_disk_arg settings host v slot).1 in
        let room = disk_args-bound slot v.disks 0 slot sata (omega arith) h in
        (
          get_disk_arg-Takes settings host v slot,
          get_cd_arg-Takes settings v middle,
          room,
          cd_args-bound middle v.isos 0 middle (omega arith) room,
        )
