-- ===== src/Vm/Table/Names.antt =====
-- No two VMs have the same name: `Create` of cirrinad/vm/vm.go.
use mathlib.Core.Path.{subst}
use cirrina.Prelude.{
  String, ◌≡◌, refl, ◌∙◌, sym, ap, Bool, true, false, not, List, [], ◌∷◌, ◌==◌, str_eq, eq_iff,
  Bool-cases, inl, inr, Result, ok, err, Member, Member-cons, here, there, if_split, if_both, arith,
}
use cirrina.Store.{Store, Write, failed, affected, remove_where}
use cirrina.Requests.{first_where}
use cirrina.Requests.Dispatch.{Distinct}
use cirrina.Util.Name.{valid_vm_name}
use cirrina.Vm.{Vm}
use cirrina.Vm.Table.{
  VmError, VmList, get_by_name, vm_exists, init_vm, with_new_id, Vms, inserted, insert_vm, create,
}

abbrev pub names : VmList → List String
names [] = []
names (v ∷ list) = v.name ∷ names list

absent_name :
    (name : String) (list : VmList) → vm_exists name list ≡ false → ¬ Member name (names list)
unfolding vm_exists get_by_name first_where
absent_name name [] h m = elim m [ ]
absent_name name (v ∷ list) h m = elim (Member-cons m) [
  | inl same ↦ ground (arith, eq_iff v.name name)
  | inr later ↦ absent_name name list (ground arith) later
]

Member-remove_where :
    (p : Vm → Bool) (name : String) (list : VmList)
    → Member name (names (remove_where p list))
    → Member name (names list)
Member-remove_where p name [] = λ m. m
Member-remove_where p name (v ∷ list) = elim (Bool-cases (p v)) [
  | inl gone ↦ rw (gone) (λ m. there (Member-remove_where p name list m))
  | inr kept ↦ rw (kept) (λ m. elim (Member-cons m) [
    | inl same ↦ here same
    | inr later ↦ there (Member-remove_where p name list later)
  ])
]

remove_where-Distinct :
    (p : Vm → Bool) (list : VmList) → Distinct (names list) → Distinct (names (remove_where p list))
remove_where-Distinct p [] h = h
remove_where-Distinct p (v ∷ list) (fresh, apart) =
    if_both (λ (l : VmList). Distinct (names l)) (p v) (remove_where-Distinct p list apart)
      ((λ m. fresh (Member-remove_where p v.name list m)), remove_where-Distinct p list apart)

same_name :
    (id_ok : String → Bool) (new_id : String) (v : Vm) → (with_new_id id_ok new_id v).name ≡ v.name
unfolding with_new_id
same_name id_ok new_id v = if_both (λ (w : Vm). w.name ≡ v.name) (id_ok v.id) refl refl

true_if_not : (b : Bool) → not b ≡ false → b ≡ true
true_if_not true h = refl
true_if_not false h = absurd (cc)

module _ (store : Store Vm) where
  open store use {Db}

  -- A VM that was created has a valid name that no VM had, and stands at the head of the list.
  abbrev pub IsCreated : Vm → VmList → Result VmError Vm × Vms store → Type 0
  IsCreated v old (err e, s) = Unit
  IsCreated v old (ok row, s) =
      (row.name ≡ v.name)
      × (valid_vm_name row.name ≡ true)
      × (¬ Member row.name (names old))
      × Member row s.list

  abbrev Outcome : Vm → VmList → Result VmError Vm × Vms store → Type 0
  Outcome v old out = Distinct (names (out.1).list) × IsCreated v old out

  inserted-Outcome :
      (v row : Vm) (written : Write × Db) (s : Vms store)
      → row.name ≡ v.name
      → valid_vm_name row.name ≡ true
      → (¬ Member row.name (names s.list))
      → Distinct (names s.list)
      → Outcome v s.list (inserted store written row s)
  unfolding init_vm
  inserted-Outcome v row (failed, db) s same valid fresh apart = (apart, tt)
  inserted-Outcome v row (affected n, db) s same valid fresh apart =
      let p : Vm → Bool = λ w. str_eq w.id row.id in
      if_both (Outcome v s.list) (n == 1)
        (
          (
            (λ m. fresh (Member-remove_where p row.name s.list m)),
            remove_where-Distinct p s.list apart,
          ),
          (same, valid, fresh, here refl),
        )
        (apart, tt)

  -- `Create` keeps the names of the VMs in memory distinct, whatever it answers, and a VM that it
  -- created has a valid name, which no VM had before, and is in the list.
  pub create-Outcome :
      (id_ok : String → Bool) (new_id : String) (v : Vm) (s : Vms store)
      → Distinct (names s.list)
      → Distinct (names ((create store id_ok new_id v s).1).list)
        × IsCreated v s.list (create store id_ok new_id v s)
  unfolding create insert_vm
  create-Outcome id_ok new_id v s apart =
      let row = with_new_id id_ok new_id v in
      let same = same_name id_ok new_id v in
      if_split (Outcome v s.list) (vm_exists v.name s.list) (λ _. (apart, tt))
        (λ absent.
          if_split (Outcome v s.list) (not (valid_vm_name v.name)) (λ _. (apart, tt))
            (λ valid.
              if_both (Outcome v s.list) (str_eq v.name "") (apart, tt)
                (inserted-Outcome v row (store.create row s.db) s same
                  (ap valid_vm_name same ∙ true_if_not (valid_vm_name v.name) valid)
                  (subst (λ (n : String). ¬ Member n (names s.list)) (sym same)
                    (absent_name v.name s.list absent))
                  apart)))
