-- ===== src/Vm/Attach/Exclusive.antt =====
-- A disk is attached to one VM at most: `AttachDisks` of cirrinad/vm/disk.go.
use mathlib.Core.Path.{subst}
use cirrina.Prelude.{
  String, ◌≡◌, refl, ◌∙◌, sym, ap, ◌⊎◌, not, Bool, true, false, Option, none, some, List, [], ◌∷◌,
  arith, str_eq, eq_iff, Bool-cases, inl, inr, Result, ok, err, Result-cases, Member, Member-cons,
  here, there, if_both, option_split, Option-cases,
}
use cirrina.Store.{Member-change_where}
use cirrina.Requests.Lifecycle.{first_where_sound}
use cirrina.Disk.{DiskError, DiskList, get_by_id, with_id}
use cirrina.Vm.{Vm, Disk}
use cirrina.Vm.Args.{is_stopped}
use cirrina.Vm.Args.Net.{contains_str}
use cirrina.Vm.Attach.{
  AttachError, gathered, holds, disk_attached, check_disk, validate_disks, gather_disks,
  attach_disks, with_vm,
}

-- Two VMs that hold a disk of the same ID are the same VM.
unfoldable pub ExclusiveDisks : List Vm → Type 0
ExclusiveDisks vms =
    (a b : Vm) (i : String)
    → Member a vms
    → Member b vms
    → holds i a.disks ≡ true
    → holds i b.disks ≡ true
    → a.id ≡ b.id

-- What `GetByID` finds has the ID.
pub get_by_id-id : (i : String) (list : DiskList) (d : Disk) → get_by_id i list ≡ ok d → d.id ≡ i
unfolding get_by_id
get_by_id-id i list d e = elim (Option-cases (with_id i list)) [
  | inl nothing ↦ ground (arith)
  | inr (x, found) ↦
      let same = (first_where_sound (λ c. str_eq c.id i) x list found).1 in
      ground (arith, eq_iff x.id i)
]

not_elsewhere :
    (i vm_id : String) (vms : List Vm) (w : Vm)
    → disk_attached i vm_id vms ≡ false
    → Member w vms
    → holds i w.disks ≡ true
    → w.id ≡ vm_id
unfolding disk_attached
not_elsewhere i vm_id [] w h m held = elim m [ ]
not_elsewhere i vm_id (v ∷ vms) w h (here e) held = ground (arith, eq_iff v.id vm_id)
not_elsewhere i vm_id (v ∷ vms) w h (there m) held =
    not_elsewhere i vm_id vms w (ground arith) m held

holds-gather_disks :
    (list : DiskList) (i : String) (ids : List String)
    → holds i (gather_disks list ids).1 ≡ true
    → Member i ids
unfolding gather_disks holds
holds-gather_disks list i [] h = absurd (cc)
holds-gather_disks list i (j ∷ ids) h = elim (Result-cases (get_by_id j list)) [
  | inl (e, missing) ↦ ground arith
  | inr (d, found) ↦
      let named = get_by_id-id j list d found in
      elim (Bool-cases (str_eq i d.id)) [
        | inl same ↦ here ((eq_iff i d.id).0 same ∙ named)
        | inr other ↦ there (holds-gather_disks list i ids (ground arith))
      ]
]

module _ (parse : String → Option String) (list : DiskList) (vms : List Vm) where
  -- What the tests on one disk ensure.
  pub record Passes (vm_id i : String) (occurred ids : List String) : Type 0 where
    pub u : String
    pub d : Disk
    pub parsed : parse i ≡ some u
    pub found : get_by_id u list ≡ ok d
    pub unseen : contains_str occurred i ≡ false
    pub free : disk_attached i vm_id vms ≡ false
    pub others : validate_disks parse list vms vm_id (i ∷ occurred) ids ≡ none

  check_disk-none :
      (vm_id i : String) (occurred : List String) (rest : Option AttachError)
      (r : Result DiskError Disk)
      → check_disk parse list vms vm_id i occurred rest r ≡ none
      → ((d : Disk) × (r ≡ ok d))
        × (contains_str occurred i ≡ false)
        × (disk_attached i vm_id vms ≡ false)
        × (rest ≡ none)
  unfolding check_disk
  check_disk-none vm_id i occurred rest (err e) h = absurd (cc)
  check_disk-none vm_id i occurred rest (ok d) h =
      ((d, refl), ground arith, ground arith, ground arith)

  pub validate_disks-Passes :
      (vm_id i : String) (occurred ids : List String)
      → validate_disks parse list vms vm_id occurred (i ∷ ids) ≡ none
      → Passes vm_id i occurred ids
  unfolding validate_disks
  validate_disks-Passes vm_id i occurred ids h = elim (Option-cases (parse i)) [
    | inl unreadable ↦ absurd (ground arith)
    | inr (u, parsed) ↦
        let rest = validate_disks parse list vms vm_id (i ∷ occurred) ids in
        let ((d, found), unseen, free, others) =
          check_disk-none vm_id i occurred rest (get_by_id u list) (ground arith) in
        record {
          u = u;
          d = d;
          parsed = parsed;
          found = found;
          unseen = unseen;
          free = free;
          others = others;
        }
  ]

  -- Every disk that passed the tests is attached to no other VM.
  validate_disks_free :
      (vm_id i : String) (occurred ids : List String)
      → validate_disks parse list vms vm_id occurred ids ≡ none
      → Member i ids
      → disk_attached i vm_id vms ≡ false
  validate_disks_free vm_id i occurred [] h m = elim m [ ]
  validate_disks_free vm_id i occurred (j ∷ ids) h m =
      let p = validate_disks-Passes vm_id j occurred ids h in
      elim (Member-cons m) [
        | inl same ↦ subst (λ (k : String). disk_attached k vm_id vms ≡ false) (sym same) p.free
        | inr later ↦ validate_disks_free vm_id i (j ∷ occurred) ids p.others later
      ]

  -- Each disk of the VM afterwards was one of its disks before, or is attached to no other VM.
  abbrev IsSafe : Vm → Option AttachError × Vm → Type 0
  IsSafe v (e, v') =
      (v'.id ≡ v.id)
      × ((i : String)
          → holds i v'.disks ≡ true
          → (holds i v.disks ≡ true) ⊎ (disk_attached i v.id vms ≡ false))

  gathered-IsSafe :
      (saves : Bool) (v : Vm) (out : Bool × List (Option Disk))
      → ((i : String) → holds i out.1 ≡ true → disk_attached i v.id vms ≡ false)
      → IsSafe v (gathered parse list vms saves v out)
  gathered-IsSafe saves v (false, disks) free = (refl, λ i h. inr (free i h))
  gathered-IsSafe saves v (true, disks) free = (refl, λ i h. inr (free i h))

  attach_disks-IsSafe :
      (saves : Bool) (ids : List String) (v : Vm)
      → IsSafe v (attach_disks parse list vms saves ids v)
  unfolding attach_disks
  attach_disks-IsSafe saves ids v =
      if_both (IsSafe v) (not (is_stopped v.status)) (refl, λ i h. inl h)
        (option_split (IsSafe v) (validate_disks parse list vms v.id [] ids)
          (λ valid.
            gathered-IsSafe saves v (gather_disks list ids)
              (λ i h. validate_disks_free v.id i [] ids valid (holds-gather_disks list i ids h)))
          (λ e _. (refl, λ i h. inl h)))

  -- A VM of the list after a change of `v` to `v'`.
  changed_or_old : (v' a : Vm) → Member a (with_vm v' vms) → (a ≡ v') ⊎ Member a vms
  changed_or_old v' a m =
      let (s, old, same) = Member-change_where (λ w. str_eq w.id v'.id) (λ _. v') a vms m in
      elim (Bool-cases (str_eq s.id v'.id)) [
        | inl this ↦ inl (same ∙ rw (this) refl)
        | inr other ↦ inr (subst (λ (w : Vm). Member w vms) (sym (same ∙ rw (other) refl)) old)
      ]

  with_changed :
      (v b : Vm) (out : Option AttachError × Vm) (i : String)
      → IsSafe v out
      → Member v vms
      → ExclusiveDisks vms
      → Member b vms
      → holds i (out.1).disks ≡ true
      → holds i b.disks ≡ true
      → (out.1).id ≡ b.id
  unfolding ExclusiveDisks
  with_changed v b (e, v') i (same, safe) mv exclusive mb hv hb = elim (safe i hv) [
    | inl held ↦ same ∙ exclusive v b i mv mb held hb
    | inr free ↦ same ∙ sym (not_elsewhere i v.id vms b free mb hb)
  ]

  -- After a call of `AttachDisks`, whatever it answers, no disk is attached to two VMs if none was
  -- before, where the list holds the VM that the call is made on and nobody else changes the VMs
  -- meanwhile.
  pub attach_disks-ExclusiveDisks :
      (saves : Bool) (ids : List String) (v : Vm)
      → Member v vms
      → ExclusiveDisks vms
      → ExclusiveDisks (with_vm (attach_disks parse list vms saves ids v).1 vms)
  unfolding ExclusiveDisks
  attach_disks-ExclusiveDisks saves ids v mv exclusive a b i ma mb ha hb =
      let out = attach_disks parse list vms saves ids v in
      let safe = attach_disks-IsSafe saves ids v in
      let onto : (x : Vm) → x ≡ out.1 → holds i x.disks ≡ true → holds i (out.1).disks ≡ true =
        λ x e h. subst (λ (w : Vm). holds i w.disks ≡ true) e h in
      elim (changed_or_old out.1 a ma) [
        | inl a_new ↦ elim (changed_or_old out.1 b mb) [
          | inl b_new ↦ ap (λ w. w.id) (a_new ∙ sym b_new)
          | inr b_old ↦
              ap (λ w. w.id) a_new
              ∙ with_changed v b out i safe mv exclusive b_old (onto a a_new ha) hb
        ]
        | inr a_old ↦ elim (changed_or_old out.1 b mb) [
          | inl b_new ↦ sym (
              ap (λ w. w.id) b_new
              ∙ with_changed v a out i safe mv exclusive a_old (onto b b_new hb) ha)
          | inr b_old ↦ exclusive a b i a_old b_old ha hb
        ]
      ]
