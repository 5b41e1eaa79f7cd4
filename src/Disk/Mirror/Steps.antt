-- ===== src/Disk/Mirror/Steps.antt =====
-- Each operation of cirrinad/disk/disk.go keeps the table and the list in memory on one catalogue.
use mathlib.Core.Path.{subst}
use cirrina.Prelude.{
  ℕ, ◌≤◌, String, ◌≡◌, refl, ◌∙◌, sym, ◌⊎◌, inl, inr, Bool, true, false, Option, none, some, List,
  [], ◌∷◌, ◌++◌, arith, str_eq, eq_iff, ◌==◌, Bool-cases, Option-cases, Result, ok, err, if_split,
  if_both, option_both,
}
use cirrina.Store.{Store, StoreLaws, Reliable, Write, failed, affected, rows-update}
use cirrina.Strconv.{codes}
use cirrina.Util.Size.{SizeError, parse_disk_size}
use cirrina.Vm.{Disk, Settings, Host}
use cirrina.Vm.Args.Slots.{get_path}
use cirrina.Disk.{
  DiskError, with_id, get_by_id, init_one_disk, drop_id, Backings, InfoService, service_of,
  validate,
}
use cirrina.Disk.Table.{
  Disks, with_new_id, disk_exists_cache_db, insert_disk, create_backed, create_checked, create,
  delete_disk, in_use, save,
}
use cirrina.Disk.Mirror.{
  Catalog, entered, struck, Event, record_event, replay, Op, create_op, delete_op, save_op,
  created_event, deleted_event, saved_event, has_id, IndexLaws, Represents, perform, run,
}
use cirrina.Disk.Mirror.Lookup.{
  with_id-append, with_id-drop, with_id-init, with_id-saved, count-append, count-drop_le,
  count-saved, absent-count, count-absent, drop-absent,
}

Write-cases : (w : Write) → (w ≡ failed) ⊎ ((n : ℕ) × (w ≡ affected n))
Write-cases failed = inl refl
Write-cases (affected n) = inr (n, refl)

module _ (store : Store Disk) (laws : StoreLaws store) (works : Reliable store)
    (index : IndexLaws store) (backings : Backings) where
  open store use {Db, rows, create as insert, update, delete as remove}

  abbrev Daemon : Type 0
  Daemon = Disks store backings

  -- The catalogue is still the same where the rows and the list are.
  same_rows :
      (m : Catalog) (s : Daemon) (db : Db)
      → rows db ≡ rows s.db
      → Represents store backings m s
      → Represents store backings m (record s { db = db })
  same_rows m s db e v = record {
    in_list = v.in_list;
    in_rows = λ i. rw (e) (v.in_rows i);
    single = λ i. rw (e) (v.single i);
  }

  entered-Represents :
      (m : Catalog) (s : Daemon) (row : Disk) (db : Db)
      → rows db ≡ rows s.db ++ row ∷ []
      → with_id row.id (rows s.db) ≡ none
      → Represents store backings m s
      → Represents store backings
          (entered row m)
          (record s { db = db; list = init_one_disk row s.list })
  entered-Represents m s row db e fresh v = record {
    in_list = λ i. with_id-init i row s.list ∙ rw (v.in_list i) refl;
    in_rows = λ i. rw (e, with_id-append i (rows s.db) row fresh, v.in_rows i) refl;
    single = λ i.
        rw (e, count-append i (rows s.db) row)
          (if_split (λ (n : ℕ). n ≤ 1) (str_eq row.id i)
            (λ same. omega (
              arith,
              absent-count i (rows s.db) (
                  subst (λ (k : String). with_id k (rows s.db) ≡ none) ((eq_iff row.id i).0 same)
                    fresh),
            ))
            (λ _. v.single i));
  }

  abbrev Fits : Catalog → Result DiskError Disk × Daemon → Type 0
  Fits m (r, s) = Represents store backings (record_event (created_event r) m) s

  insert_disk-Fits :
      (id_ok : String → Bool) (new_id : String) (d : Disk) (m : Catalog) (s : Daemon)
      → Represents store backings m s
      → Fits m (insert_disk store backings id_ok new_id d s)
  unfolding insert_disk
  insert_disk-Fits id_ok new_id d m s v =
      let row = with_new_id id_ok new_id d in
      if_both (Fits m) (str_eq d.name "") v (elim (index.create_cases row s.db) [
        | inl broken ↦ rw (broken) (same_rows m s _ (laws.create_failed row s.db broken) v)
        | inr one ↦ rw (one) (
            entered-Represents m s row _ (laws.create_one row s.db one)
              (index.create_unique row s.db one) v)
      ])

  create_backed-Fits :
      (id_ok : String → Bool) (new_id : String) (service : InfoService backings.World)
      (path : String) (d : Disk) (size : Result SizeError ℕ) (m : Catalog) (s : Daemon)
      → Represents store backings m s
      → Fits m (create_backed store backings id_ok new_id service path d size s)
  unfolding create_backed
  create_backed-Fits id_ok new_id service path d (err e) m s v = v
  create_backed-Fits id_ok new_id service path d (ok n) m s v =
      let (made, world) = service.create path n s.world in
      let v' : Represents store backings m (record s { world = world }) = record {
        in_list = v.in_list;
        in_rows = v.in_rows;
        single = v.single;
      } in
      if_both (Fits m) made (insert_disk-Fits id_ok new_id d m (record s { world = world }) v') v'

  create_checked-Fits :
      (id_ok : String → Bool) (new_id : String) (settings : Settings)
      (service : InfoService backings.World) (path : String) (d : Disk) (size : String)
      (there : Option Bool) (m : Catalog) (s : Daemon)
      → Represents store backings m s
      → Fits m (create_checked store backings id_ok new_id settings service path d size there s)
  unfolding create_checked
  create_checked-Fits id_ok new_id settings service path d size none m s v = v
  create_checked-Fits id_ok new_id settings service path d size (some true) m s v = v
  create_checked-Fits id_ok new_id settings service path d size (some false) m s v =
      option_both (Fits m) (validate settings d)
        (create_backed-Fits id_ok new_id service path d (parse_disk_size (codes size)) m s v)
        (λ e. v)

  create-Fits :
      (id_ok : String → Bool) (new_id : String) (settings : Settings) (host : Host) (d : Disk)
      (size : String) (m : Catalog) (s : Daemon)
      → Represents store backings m s
      → Fits m (create store backings id_ok new_id settings host d size s)
  unfolding create
  create-Fits id_ok new_id settings host d size m s v =
      option_both (Fits m) (service_of backings d.dev_type) v (λ service.
        if_both (Fits m) (disk_exists_cache_db store backings d s) v (
          create_checked-Fits id_ok new_id settings service (get_path settings host d) d size
            (service.exists (get_path settings host d) s.world) m s v))

  struck-Represents :
      (m : Catalog) (s : Daemon) (i : String) (db : Db)
      → rows db ≡ drop_id i (rows s.db)
      → Represents store backings m s
      → Represents store backings (struck i m) (record s { db = db; list = drop_id i s.list })
  struck-Represents m s k db e v = record {
    in_list = λ i. with_id-drop i k s.list ∙ rw (v.in_list i) refl;
    in_rows = λ i. rw (e, with_id-drop i k (rows s.db), v.in_rows i) refl;
    single = λ i. rw (e) (omega (arith, count-drop_le i k (rows s.db), v.single i));
  }

  abbrev Leaves : String → Catalog → Result DiskError (Unit {0}) × Daemon → Type 0
  Leaves i m (r, s) = Represents store backings (record_event (deleted_event i r) m) s

  delete_disk-Leaves :
      (like : String → String → Bool) (vm_disks : Option (List String)) (d : Disk) (m : Catalog)
      (s : Daemon)
      → Represents store backings m s
      → Leaves d.id m (delete_disk store backings like vm_disks d s)
  unfolding delete_disk
  delete_disk-Leaves like vm_disks d m s v =
      if_both (Leaves d.id m) (in_use like vm_disks d) v
        (elim (Write-cases (remove (has_id d.id) s.db).0) [
          | inl broken ↦
              rw (broken) (same_rows m s _ (laws.delete_failed (has_id d.id) s.db broken) v)
          | inr (n, done) ↦
              let left = laws.delete_done (has_id d.id) s.db n done in
              let counted = index.delete_counts d.id s.db n done in
              rw (done) (
                if_split (Leaves d.id m) (n == 1) (λ one. struck-Represents m s d.id _ left v)
                  (λ other.
                    let absent = count-absent d.id (rows s.db) (ground (arith, v.single d.id)) in
                    same_rows m s _ (left ∙ drop-absent d.id (rows s.db) absent) v))
        ])

  abbrev Goes : Catalog → Event × Daemon → Type 0
  Goes m (e, s) = Represents store backings (record_event e m) s

  save-Goes :
      (d old : Disk) (m : Catalog) (s : Daemon)
      → with_id d.id s.list ≡ some old
      → Represents store backings m s
      → let (r, s') = save store backings d (record s { list = init_one_disk d s.list }) in
        Goes m (saved_event d r, s')
  unfolding save
  save-Goes d old m s found v =
      let (n, done) = works.update_works (has_id d.id) (λ row. d) s.db in
      let left = rows-update store laws works (has_id d.id) (λ row. d) s.db in
      let old_row = v.in_rows d.id ∙ sym (v.in_list d.id) ∙ found in
      rw (done) (record {
        in_list = λ i. with_id-init i d s.list ∙ rw (v.in_list i) refl;
        in_rows = λ i. rw (left, with_id-saved i d old (rows s.db) old_row, v.in_rows i) refl;
        single = λ i. rw (left, count-saved i d (rows s.db)) (v.single i);
      })

  module _ (id_ok : String → Bool) (like : String → String → Bool) (settings : Settings)
      (host : Host) where
    perform-Goes :
        (op : Op) (m : Catalog) (s : Daemon)
        → Represents store backings m s
        → Goes m (perform store backings id_ok like settings host op s)
    unfolding perform get_by_id
    perform-Goes (create_op new_id d size) m s v =
        create-Fits id_ok new_id settings host d size m s v
    perform-Goes (delete_op vm_disks d) m s v = delete_disk-Leaves like vm_disks d m s v
    perform-Goes (save_op d) m s v = elim (Bool-cases (str_eq d.id "")) [
      | inl blank ↦ rw (blank) v
      | inr named ↦ elim (Option-cases (with_id d.id s.list)) [
        | inl nothing ↦ rw (named, nothing) v
        | inr (old, found) ↦ rw (named, found) (save-Goes d old m s found v)
      ]
    ]

    -- Whatever disks are created, deleted and changed, the table and the list in memory both hold
    -- exactly the disks of the catalogue that follows the operations' answers, each once in the
    -- table, if they did so before, no query or update fails, and the IDs have a unique index.
    pub run-Represents :
        (ops : List Op) (m : Catalog) (s : Daemon)
        → Represents store backings m s
        → let (events, s') = run store backings id_ok like settings host ops s in
          Represents store backings (replay events m) s'
    unfolding run
    run-Represents [] m s v = v
    run-Represents (op ∷ ops) m s v = run-Represents ops _ _ (perform-Goes op m s v)
