-- ===== src/Vm/Lifecycle/Locks.antt =====
-- What `lockDisks` of cirrinad/vm/disk.go takes, `unlockDisks` gives back.
use mathlib.Core.Path.{fun_ext, subst}
use mathlib.Core.Bool.{false≢true}
use cirrina.Prelude.{
  String, ◌≡◌, refl, sym, ap, ◌∙◌, Bool, true, false, List, [], ◌∷◌, str_eq, eq_iff, if◌then◌else◌,
  arith, Bool-cases, inl, inr,
}
use cirrina.Vm.Lifecycle.{Locks, hold, release, lock_disks, unlock_disks}

hold-hold : (i j : String) (locked : Locks) → hold i (hold j locked) ≡ hold j (hold i locked)
hold-hold i j locked = fun_ext (λ x. ground arith)

release-hold_at :
    (i x : String) (locked : Locks) → locked i ≡ false → release i (hold i locked) x ≡ locked x
release-hold_at i x locked free = elim (Bool-cases (str_eq x i)) [
  | inl same ↦ rw same (sym (ap locked ((eq_iff x i).0 same) ∙ free))
  | inr other ↦ rw other refl
]

release-hold : (i : String) (locked : Locks) → locked i ≡ false → release i (hold i locked) ≡ locked
release-hold i locked free = fun_ext (λ x. release-hold_at i x locked free)

-- A lock that is not held before another is taken is not that other one.
hold_free :
    (i j : String) (locked : Locks)
    → hold i locked j ≡ false
    → (str_eq j i ≡ false) × (locked j ≡ false)
hold_free i j locked free = ground arith

got_all :
    (held : Bool) (rest : Bool × Locks) (locked after : Locks)
    → (if held then (false, locked) else rest) ≡ (true, after)
    → (held ≡ false) × (rest ≡ (true, after))
got_all true rest locked after e = absurd (false≢true (ap (λ r. r.0) e))
got_all false rest locked after e = (refl, e)

lock_step :
    (i : String) (ids : List String) (locked after : Locks)
    → lock_disks (i ∷ ids) locked ≡ (true, after)
    → (locked i ≡ false) × (lock_disks ids (hold i locked) ≡ (true, after))
unfolding lock_disks
lock_step i ids locked after e = got_all (locked i) (lock_disks ids (hold i locked)) locked after e

lock_first :
    (i : String) (ids : List String) (locked after : Locks)
    → locked i ≡ false
    → lock_disks ids (hold i locked) ≡ (true, after)
    → lock_disks (i ∷ ids) locked ≡ (true, after)
unfolding lock_disks
lock_first i ids locked after free e = rw free e

is_held : (i : String) (locked : Locks) → hold i locked i ≡ true
is_held i locked = rw ((eq_iff i i).1 refl) refl

still_free :
    (i j : String) (locked : Locks)
    → str_eq j i ≡ false
    → locked i ≡ false
    → hold j locked i ≡ false
still_free i j locked other free = ground (arith, eq_iff i j, eq_iff j i)

-- A lock that is free before can be taken last.
lock_without :
    (i : String) (ids : List String) (locked after : Locks)
    → locked i ≡ false
    → lock_disks ids (hold i locked) ≡ (true, after)
    → (after i ≡ true) × (lock_disks ids locked ≡ (true, release i after))
unfolding lock_disks
lock_without i [] locked after free e =
    let same : hold i locked ≡ after = ap (λ r. r.1) e in
    (
      sym (ap (λ f. f i) same) ∙ is_held i locked,
      ap (λ f. (true, f)) (sym (release-hold i locked free) ∙ ap (release i) same),
    )
lock_without i (j ∷ ids) locked after free e =
    let (free', e') = lock_step j ids (hold i locked) after e in
    let (other, free_j) = hold_free i j locked free' in
    let swapped = subst (λ f. lock_disks ids f ≡ (true, after)) (hold-hold j i locked) e' in
    let (held, all) =
      lock_without i ids (hold j locked) after (still_free i j locked other free) swapped in
    (held, lock_first j ids locked (release i after) free_j all)

-- If `lockDisks` gets all locks, `unlockDisks` finds them held and leaves the locks as they were.
pub unlock_disks-lock_disks :
    (ids : List String) (locked after : Locks)
    → lock_disks ids locked ≡ (true, after)
    → unlock_disks ids after ≡ (true, locked)
unfolding unlock_disks lock_disks
unlock_disks-lock_disks [] locked after e = ap (λ f. (true, f)) (sym (ap (λ r. r.1) e))
unlock_disks-lock_disks (i ∷ ids) locked after e =
    let (free, e') = lock_step i ids locked after e in
    let (held, rest) = lock_without i ids locked after free e' in
    rw held (unlock_disks-lock_disks ids locked (release i after) rest)

-- The first of the locks that were taken is held, so that they cannot be taken again.
pub lock_disks-again :
    (i : String) (ids : List String) (locked after : Locks)
    → lock_disks (i ∷ ids) locked ≡ (true, after)
    → lock_disks (i ∷ ids) after ≡ (false, after)
unfolding lock_disks
lock_disks-again i ids locked after e =
    let (free, e') = lock_step i ids locked after e in
    rw (lock_without i ids locked after free e').0 refl
