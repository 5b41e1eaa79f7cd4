-- ===== src/Vm/Attachments/Known.antt =====
-- Which attachments the clean-up of cirrinad/vm/vm.go leaves.
use mathlib.Core.Path.{subst}
use mathlib.Core.Bool.{false≢true}
use cirrina.Prelude.{
  ℕ, String, ◌≡◌, refl, ◌∙◌, sym, ap, Bool, true, false, List, [], ◌∷◌, str_eq, eq_iff, Bool-cases,
  inl, inr, Member, Member-cons, here, there, if_split, if_both,
}
use cirrina.Store.{Store, StoreLaws, Write, failed, affected, remove_where}
use cirrina.Vm.Table.{VmList}
use cirrina.Vm.Attachments.{
  Attachment, is_known, vm_ids_of, get_vm_ids, check_vm_ids, check_attachments,
}

pub left_where :
    (p : Attachment → Bool) (x : Attachment) (rs : List Attachment)
    → Member x (remove_where p rs)
    → Member x rs × (p x ≡ false)
left_where p x [] = λ m. elim m [ ]
left_where p x (r ∷ rs) = elim (Bool-cases (p r)) [
  | inl gone ↦ rw (gone) (λ m. let (old, other) = left_where p x rs m in (there old, other))
  | inr kept ↦ rw (kept) (λ m. elim (Member-cons m) [
    | inl same ↦ (here same, ap p same ∙ kept)
    | inr later ↦ let (old, other) = left_where p x rs later in (there old, other)
  ])
]

kept_where :
    (p : Attachment → Bool) (x : Attachment) (rs : List Attachment)
    → p x ≡ false
    → Member x rs
    → Member x (remove_where p rs)
kept_where p x [] other m = elim m [ ]
kept_where p x (r ∷ rs) other m = elim (Member-cons m) [
  | inl same ↦ rw (ap p (sym same) ∙ other) (here same)
  | inr later ↦
      if_both (λ (l : List Attachment). Member x l) (p r) (kept_where p x rs other later)
        (there (kept_where p x rs other later))
]

listed :
    (like : String → String → Bool) (id : String) (x : Attachment) (rs : List Attachment)
    → Member x rs
    → like x.item_id id ≡ true
    → Member x.vm_id (vm_ids_of like id rs)
unfolding vm_ids_of
listed like id x [] m e = elim m [ ]
listed like id x (r ∷ rs) m e = elim (Member-cons m) [
  | inl same ↦
      let this : like r.item_id id ≡ true = ap (λ a. like a.item_id id) (sym same) ∙ e in
      rw (this) (here (ap (λ a. a.vm_id) same))
  | inr later ↦
      if_both (λ (l : List String). Member x.vm_id l) (like r.item_id id)
        (there (listed like id x rs later e)) (listed like id x rs later e)
]

module _ (like : String → String → Bool) (vms : VmList) (joins : Store Attachment)
    (laws : StoreLaws joins) where
  open joins use {Db, rows, query_fails, delete as remove}

  -- Nothing was added, and every attachment to a VM that exists is still there.
  abbrev pub OnlyUnknownLeft : Db → Db → Type 0
  OnlyUnknownLeft before after =
      ((x : Attachment) → Member x (rows after) → Member x (rows before))
      × ((x : Attachment)
          → Member x (rows before)
          → is_known vms x.vm_id ≡ true
          → Member x (rows after))

  chain : (a b c : Db) → OnlyUnknownLeft a b → OnlyUnknownLeft b c → OnlyUnknownLeft a c
  chain a b c (back, on) (back', on') =
      (λ x m. back x (back' x m), λ x m known. on' x (on x m known) known)

  itself : (db : Db) → OnlyUnknownLeft db db
  itself db = (λ x m. m, λ x m known. m)

  removed_one :
      (i : String) (db : Db) (written : Write)
      → (remove (λ r. str_eq r.vm_id i) db).0 ≡ written
      → is_known vms i ≡ false
      → OnlyUnknownLeft db (remove (λ r. str_eq r.vm_id i) db).1
  removed_one i db failed e unknown =
      let same = laws.delete_failed (λ r. str_eq r.vm_id i) db e in
      (
        λ x m. subst (λ (l : List Attachment). Member x l) same m,
        λ x m known. subst (λ (l : List Attachment). Member x l) (sym same) m,
      )
  removed_one i db (affected n) e unknown =
      let p : Attachment → Bool = λ r. str_eq r.vm_id i in
      let now = laws.delete_done p db n e in
      (
        λ x m. (left_where p x (rows db) (subst (λ (l : List Attachment). Member x l) now m)).0,
        λ x m known.
            subst (λ (l : List Attachment). Member x l) (sym now)
              (elim (Bool-cases (p x)) [
                | inl this ↦ absurd (
                    false≢true
                      (sym unknown ∙ ap (is_known vms) (sym ((eq_iff x.vm_id i).0 this)) ∙ known))
                | inr other ↦ kept_where p x (rows db) other m
              ]),
      )

  check_vm_ids-Left :
      (ids : List String) (db : Db) → OnlyUnknownLeft db (check_vm_ids like vms joins ids db)
  unfolding check_vm_ids
  check_vm_ids-Left [] db = itself db
  check_vm_ids-Left (i ∷ ids) db =
      let P : Db → Type 0 = λ d. OnlyUnknownLeft db (check_vm_ids like vms joins ids d) in
      if_split P (is_known vms i) (λ _. check_vm_ids-Left ids db)
        (λ unknown.
          let d = (remove (λ r. str_eq r.vm_id i) db).1 in
          chain db d (check_vm_ids like vms joins ids d)
            (removed_one i db (remove (λ r. str_eq r.vm_id i) db).0 refl unknown)
            (check_vm_ids-Left ids d))

  -- No delete fails, and no query.
  abbrev pub Works : Type 0
  Works =
      ((db : Db) → query_fails db ≡ false)
      × ((p : Attachment → Bool) (db : Db) → (n : ℕ) × ((remove p db).0 ≡ affected n))

  gone_after :
      (i : String) (x : Attachment) (db : Db)
      → Works
      → Member x (rows (remove (λ r. str_eq r.vm_id i) db).1)
      → str_eq x.vm_id i ≡ false
  gone_after i x db works m =
      let p : Attachment → Bool = λ r. str_eq r.vm_id i in
      let (n, done) = works.1 p db in
      (left_where p x (rows db)
        (subst (λ (l : List Attachment). Member x l) (laws.delete_done p db n done) m)).1

  check_vm_ids-removes :
      (ids : List String) (db : Db) (x : Attachment)
      → Works
      → Member x.vm_id ids
      → Member x (rows (check_vm_ids like vms joins ids db))
      → is_known vms x.vm_id ≡ true
  unfolding check_vm_ids
  check_vm_ids-removes [] db x works listed_id = elim listed_id [ ]
  check_vm_ids-removes (i ∷ ids) db x works listed_id =
      let P : Db → Type 0 =
        λ d. Member x (rows (check_vm_ids like vms joins ids d)) → is_known vms x.vm_id ≡ true in
      let d = (remove (λ r. str_eq r.vm_id i) db).1 in
      elim (Member-cons listed_id) [
        | inl this ↦
            if_split P (is_known vms i) (λ known _. ap (is_known vms) this ∙ known)
              (λ _ m.
                let other = gone_after i x db works ((check_vm_ids-Left ids d).0 x m) in
                absurd (false≢true (sym other ∙ (eq_iff x.vm_id i).1 this)))
        | inr later ↦
            if_both P (is_known vms i) (check_vm_ids-removes ids db x works later)
              (check_vm_ids-removes ids d x works later)
      ]

  check_attachments-Left :
      (ids : List String) (db : Db) → OnlyUnknownLeft db (check_attachments like vms joins ids db)
  unfolding check_attachments
  check_attachments-Left [] db = itself db
  check_attachments-Left (id ∷ ids) db =
      let mine = get_vm_ids like vms joins id db in
      let d = check_vm_ids like vms joins mine db in
      chain db d (check_attachments like vms joins ids d) (check_vm_ids-Left mine db)
        (check_attachments-Left ids d)

  all_known :
      (ids : List String) (db : Db) (id : String) (x : Attachment)
      → Works
      → Member id ids
      → like x.item_id id ≡ true
      → Member x (rows (check_attachments like vms joins ids db))
      → is_known vms x.vm_id ≡ true
  unfolding check_attachments get_vm_ids
  all_known [] db id x works listed_id matched m = elim listed_id [ ]
  all_known (i ∷ ids) db id x works listed_id matched m =
      let mine = get_vm_ids like vms joins i db in
      let d = check_vm_ids like vms joins mine db in
      elim (Member-cons listed_id) [
        | inl this ↦
            let held = (check_attachments-Left ids d).0 x m in
            let before = (check_vm_ids-Left mine db).0 x held in
            let matched_i : like x.item_id i ≡ true = ap (like x.item_id) (sym this) ∙ matched in
            let in_mine : Member x.vm_id mine =
              rw (works.0 db) (listed like i x (rows db) before matched_i) in
            check_vm_ids-removes mine db x works in_mine held
        | inr later ↦ all_known ids d id x works later matched m
      ]

  -- Every attachment of one of the items is to a VM that exists.
  abbrev pub AllKnown : List String → Db → Type 0
  AllKnown ids db =
      (id : String) (x : Attachment)
      → Member id ids
      → Member x (rows db)
      → like x.item_id id ≡ true
      → is_known vms x.vm_id ≡ true

  -- Where no query and no delete fails, the clean-up adds no attachment, keeps every one to a VM
  -- that exists, and of the attachments of the disks or ISOs that it is given leaves no other.
  pub check_attachments-AllKnown :
      (ids : List String) (db : Db)
      → Works
      → let after = check_attachments like vms joins ids db in
        OnlyUnknownLeft db after × AllKnown ids after
  check_attachments-AllKnown ids db works = (
    check_attachments-Left ids db,
    λ id x listed_id m matched. all_known ids db id x works listed_id matched m,
  )
