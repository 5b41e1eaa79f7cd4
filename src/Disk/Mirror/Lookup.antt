-- ===== src/Disk/Mirror/Lookup.antt =====
-- Looking up a disk by its ID after the changes that cirrinad/disk/disk.go makes to a list.
use mathlib.Core.Path.{subst}
use cirrina.Prelude.{
  suc, ◌≤◌, String, ◌≡◌, refl, true, false, Option, none, some, List, [], ◌∷◌, ◌++◌, arith, str_eq,
  eq_iff, if◌then◌else◌, Bool-cases, inl, inr, if_split,
}
use cirrina.Store.{change_where}
use cirrina.Requests.{first_where}
use cirrina.Vm.{Disk}
use cirrina.Disk.{with_id, drop_id, init_one_disk}
use cirrina.Disk.Mirror.{count_where, has_id}

pub with_id-append :
    (i : String) (ds : List Disk) (r : Disk)
    → with_id r.id ds ≡ none
    → with_id i (ds ++ r ∷ []) ≡ (if str_eq r.id i then some r else with_id i ds)
unfolding first_where
with_id-append i [] r h = refl
with_id-append i (d ∷ ds) r h =
    ground (arith, eq_iff d.id i, eq_iff r.id i, eq_iff d.id r.id, with_id-append i ds r)

pub with_id-drop :
    (i k : String) (ds : List Disk)
    → with_id i (drop_id k ds) ≡ (if str_eq k i then none else with_id i ds)
unfolding first_where
with_id-drop i k [] = ground arith
with_id-drop i k (d ∷ ds) =
    ground (arith, eq_iff d.id i, eq_iff k i, eq_iff d.id k, with_id-drop i k ds)

pub with_id-init :
    (i : String) (d : Disk) (ds : List Disk)
    → with_id i (init_one_disk d ds) ≡ (if str_eq d.id i then some d else with_id i ds)
unfolding first_where init_one_disk
with_id-init i d ds = ground (arith, eq_iff d.id i, with_id-drop i d.id ds)

-- The rows after `Save` of a disk that is there.
abbrev pub saved_rows : Disk → List Disk → List Disk
saved_rows d ds = change_where (has_id d.id) (λ _. d) ds

saved_other :
    (i : String) (d : Disk) (ds : List Disk)
    → str_eq d.id i ≡ false
    → with_id i (saved_rows d ds) ≡ with_id i ds
unfolding first_where
saved_other i d [] h = refl
saved_other i d (x ∷ ds) h = elim (Bool-cases (str_eq x.id d.id)) [
  | inl same ↦
      let other : str_eq x.id i ≡ false = ground (arith, eq_iff x.id d.id) in
      rw (same, h, other) (saved_other i d ds h)
  | inr differs ↦ let rest = saved_other i d ds h in rw (differs, rest) refl
]

saved_same :
    (d old : Disk) (ds : List Disk)
    → with_id d.id ds ≡ some old
    → with_id d.id (saved_rows d ds) ≡ some d
unfolding first_where
saved_same d old [] h = absurd (cc)
saved_same d old (x ∷ ds) h = elim (Bool-cases (str_eq x.id d.id)) [
  | inl same ↦
      let reflexive : str_eq d.id d.id ≡ true = (eq_iff d.id d.id).1 refl in
      rw (same, reflexive) refl
  | inr differs ↦ let rest = saved_same d old ds (ground arith) in rw (differs, differs) rest
]

pub with_id-saved :
    (i : String) (d old : Disk) (ds : List Disk)
    → with_id d.id ds ≡ some old
    → with_id i (saved_rows d ds) ≡ (if str_eq d.id i then some d else with_id i ds)
with_id-saved i d old ds h =
    if_split (λ (o : Option Disk). with_id i (saved_rows d ds) ≡ o) (str_eq d.id i)
      (λ same.
        subst (λ (k : String). with_id k (saved_rows d ds) ≡ some d) ((eq_iff d.id i).0 same)
          (saved_same d old ds h))
      (λ other. saved_other i d ds other)

pub count-append :
    (i : String) (ds : List Disk) (r : Disk)
    → count_where (has_id i) (ds ++ r ∷ [])
      ≡ (if str_eq r.id i then suc (count_where (has_id i) ds) else count_where (has_id i) ds)
count-append i [] r = ground arith
count-append i (d ∷ ds) r = ground (arith, count-append i ds r)

pub count-drop_le :
    (i k : String) (ds : List Disk)
    → count_where (has_id i) (drop_id k ds) ≤ count_where (has_id i) ds
count-drop_le i k [] = omega arith
count-drop_le i k (d ∷ ds) = ground (arith, count-drop_le i k ds)

pub count-saved :
    (i : String) (d : Disk) (ds : List Disk)
    → count_where (has_id i) (saved_rows d ds) ≡ count_where (has_id i) ds
count-saved i d [] = refl
count-saved i d (x ∷ ds) =
    ground (arith, eq_iff x.id i, eq_iff d.id i, eq_iff x.id d.id, count-saved i d ds)

-- A disk that no row has is counted no time, and the other way round.
pub absent-count :
    (i : String) (ds : List Disk) → with_id i ds ≡ none → count_where (has_id i) ds ≡ 0
unfolding first_where
absent-count i [] h = refl
absent-count i (d ∷ ds) h = ground (arith, absent-count i ds)

pub count-absent :
    (i : String) (ds : List Disk) → count_where (has_id i) ds ≡ 0 → with_id i ds ≡ none
unfolding first_where
count-absent i [] h = refl
count-absent i (d ∷ ds) h = ground (arith, count-absent i ds)

-- Nothing is dropped where nothing is found.
pub drop-absent : (i : String) (ds : List Disk) → with_id i ds ≡ none → drop_id i ds ≡ ds
unfolding first_where
drop-absent i [] h = refl
drop-absent i (d ∷ ds) h = ground (arith, drop-absent i ds)
