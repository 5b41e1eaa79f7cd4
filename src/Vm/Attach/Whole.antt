-- ===== src/Vm/Attach/Whole.antt =====
-- What `AttachDisks` of cirrinad/vm/disk.go leaves on the VM, by how the IDs are spelled.
use mathlib.Core.Path.{subst}
use cirrina.Prelude.{
  String, ◌≡◌, refl, ◌∙◌, sym, ◌⊎◌, inl, inr, Bool, true, false, Option, none, some, some-injective,
  ◌≢◌, Option-cases, List, [], ◌∷◌, arith, str_eq, eq_iff, if◌then◌else◌, Bool-cases, ok, All,
  All-Member, All-map, Member, Member-cons, here, there,
}
use cirrina.Requests.Dispatch.{Distinct}
use cirrina.Disk.{DiskList, get_by_id, with_id}
use cirrina.Vm.{Vm, Disk}
use cirrina.Vm.Args.{is_stopped}
use cirrina.Vm.Args.Net.{contains_str}
use cirrina.Vm.Lifecycle.{disk_ids}
use cirrina.Vm.Attach.{
  disk_lookup, save_failed, gathered, disk_attached, check_disk, validate_disks, gather_disks,
  attach_disks,
}
use cirrina.Vm.Attach.Exclusive.{get_by_id-id, validate_disks-Passes}

contains-Member : (xs : List String) (s : String) → contains_str xs s ≡ false → ¬ Member s xs
unfolding contains_str
contains-Member [] s h m = elim m [ ]
contains-Member (x ∷ xs) s h m = elim (Member-cons m) [
  | inl e ↦ ground (arith, eq_iff s x)
  | inr later ↦ contains-Member xs s (ground arith) later
]

module _ (parse : String → Option String) (list : DiskList) (vms : List Vm) where
  -- IDs that pass the tests stand once each, and not among those that occurred before.
  validate_disks-Distinct :
      (vm_id : String) (occurred ids : List String)
      → validate_disks parse list vms vm_id occurred ids ≡ none
      → Distinct ids × All (λ i. ¬ Member i occurred) ids
  validate_disks-Distinct vm_id occurred [] h = (tt, tt)
  validate_disks-Distinct vm_id occurred (i ∷ ids) h =
      let p = validate_disks-Passes parse list vms vm_id i occurred ids h in
      let (apart, fresh) = validate_disks-Distinct vm_id (i ∷ occurred) ids p.others in
      (
        (λ m. All-Member (λ j. ¬ Member j (i ∷ occurred)) i ids fresh m (here refl), apart),
        (
          contains-Member occurred i p.unseen,
          All-map _ _ ids (λ j outside m. outside (there m)) fresh,
        ),
      )

  gather_disks-whole :
      (vm_id : String) (occurred ids : List String)
      → All (λ i. parse i ≡ some i) ids
      → validate_disks parse list vms vm_id occurred ids ≡ none
      → ((gather_disks list ids).0 ≡ true) × (disk_ids (gather_disks list ids).1 ≡ ids)
  unfolding gather_disks disk_ids
  gather_disks-whole vm_id occurred [] spelled h = (refl, refl)
  gather_disks-whole vm_id occurred (i ∷ ids) spelled h =
      let p = validate_disks-Passes parse list vms vm_id i occurred ids h in
      let (all_found, same) = gather_disks-whole vm_id (i ∷ occurred) ids spelled.1 p.others in
      let u_is : p.u ≡ i = some-injective (sym p.parsed ∙ spelled.0) in
      let found = subst (λ (k : String). get_by_id k list ≡ ok p.d) u_is p.found in
      rw (found, all_found, same, get_by_id-id i list p.d found) (refl, refl)

  -- Where every ID is spelled as package uuid prints it, `AttachDisks` either answers an error and
  -- leaves the VM as it was, or puts exactly the disks of these IDs on it, in their order and each
  -- once, and answers an error only if saving the VM failed.
  pub attach_disks-whole :
      (saves : Bool) (ids : List String) (v : Vm)
      → All (λ i. parse i ≡ some i) ids
      → let (answer, v') = attach_disks parse list vms saves ids v in
        ((v' ≡ v) × (answer ≢ none))
        ⊎ ((disk_ids v'.disks ≡ ids)
            × Distinct ids
            × (answer ≡ (if saves then none else some save_failed)))
  unfolding attach_disks
  attach_disks-whole saves ids v spelled = elim (Bool-cases (is_stopped v.status)) [
    | inl stopped_now ↦ elim (Option-cases (validate_disks parse list vms v.id [] ids)) [
      | inl valid ↦
          let (all_found, same) = gather_disks-whole v.id [] ids spelled valid in
          let (apart, _) = validate_disks-Distinct v.id [] ids valid in
          rw (stopped_now, valid, gathered, all_found) (inr (same, apart, refl))
      | inr (e, refused) ↦ rw (stopped_now, refused) (inl (refl, λ nothing. cc))
    ]
    | inr busy ↦ rw (busy) (inl (refl, λ nothing. cc))
  ]

  -- A disk that is named by another spelling of its ID, under which the list has no disk, passes the
  -- tests; the call then fails and leaves the stopped VM without any disk.
  pub attach_disks-other_spelling :
      (saves : Bool) (i u : String) (d : Disk) (v : Vm)
      → is_stopped v.status ≡ true
      → parse i ≡ some u
      → get_by_id u list ≡ ok d
      → d.name ≢ ""
      → i ≢ ""
      → with_id i list ≡ none
      → disk_attached i v.id vms ≡ false
      → attach_disks parse list vms saves (i ∷ []) v ≡ (some disk_lookup, record v { disks = [] })
  unfolding attach_disks validate_disks check_disk gather_disks get_by_id contains_str
  attach_disks-other_spelling saves i u d v stopped_now parsed found named given absent free =
      let reads : str_eq d.name "" ≡ false = ground (arith, eq_iff d.name "") in
      let spelled : str_eq i "" ≡ false = ground (arith, eq_iff i "") in
      rw (stopped_now, parsed, found, reads, free, spelled, absent) refl
