-- ===== src/Disk/Mirror.antt =====
-- Runs of the operations of cirrinad/disk/disk.go against an abstract catalogue of disks, a function
-- from IDs: the table and the list in memory both stand for it.
pub mod Lookup
pub mod Steps
use cirrina.Prelude.{
  ℕ, suc, String, ◌≡◌, refl, ◌≤◌, ◌⊎◌, Bool, true, false, Option, none, some, List, [], ◌∷◌, str_eq,
  if◌then◌else◌, Result, ok, err,
}
use cirrina.Store.{Store, failed, affected}
use cirrina.Requests.{first_where}
use cirrina.Vm.{Disk, Settings, Host}
use cirrina.Disk.{DiskError, with_id, get_by_id, init_one_disk, Backings}
use cirrina.Disk.Table.{Disks, create, delete_disk, save}

abbrev pub Catalog : Type 0
Catalog = String → Option Disk

abbrev pub entered : Disk → Catalog → Catalog
entered d m i = if str_eq d.id i then some d else m i

abbrev pub struck : String → Catalog → Catalog
struck k m i = if str_eq k i then none else m i

-- What an operation answered.
pub data Event : Type 0 where
  added changed : Disk → Event
  removed : String → Event
  refused : Event

abbrev pub record_event : Event → Catalog → Catalog
record_event (added d) m = entered d m
record_event (changed d) m = entered d m
record_event (removed k) m = struck k m
record_event refused m = m

abbrev pub replay : List Event → Catalog → Catalog
replay [] m = m
replay (e ∷ es) m = replay es (record_event e m)

-- A creation with the ID that package uuid makes for it, a deletion with the answer of the query on
-- vm_disks, and a change of a disk that the list has.
pub data Op : Type 0 where
  create_op : String → Disk → String → Op
  delete_op : Option (List String) → Disk → Op
  save_op : Disk → Op

abbrev pub created_event : Result DiskError Disk → Event
created_event (ok d) = added d
created_event (err e) = refused

abbrev pub deleted_event : String → Result DiskError (Unit {0}) → Event
deleted_event i (ok _) = removed i
deleted_event i (err e) = refused

abbrev pub saved_event : Disk → Result DiskError (Unit {0}) → Event
saved_event d (ok _) = changed d
saved_event d (err e) = refused

-- How many rows pass a test.
abbrev pub count_where : {A : Type 0} → (A → Bool) → List A → ℕ
count_where p [] = 0
count_where p (r ∷ rs) = if p r then suc (count_where p rs) else count_where p rs

abbrev pub has_id : String → Disk → Bool
has_id i d = str_eq d.id i

-- The table of disks has a unique index on the ID, a statement that creates a row affects one row
-- if it does not fail, and a deletion says how many rows it deleted.
pub record IndexLaws (store : Store Disk) : Type 0 where
  pub create_cases :
      (d : Disk) (db : store.Db)
      → ((store.create d db).0 ≡ failed) ⊎ ((store.create d db).0 ≡ affected 1)
  pub create_unique :
      (d : Disk) (db : store.Db)
      → (store.create d db).0 ≡ affected 1
      → with_id d.id (store.rows db) ≡ none
  pub delete_counts :
      (i : String) (db : store.Db) (n : ℕ)
      → (store.delete (has_id i) db).0 ≡ affected n
      → n ≡ count_where (has_id i) (store.rows db)

module _ (store : Store Disk) (backings : Backings) where
  open store use {rows}

  -- The list and the table both have exactly the disks of the catalogue, each once in the table.
  pub record Represents (m : Catalog) (s : Disks store backings) : Type 0 where
    pub in_list : (i : String) → with_id i s.list ≡ m i
    pub in_rows : (i : String) → with_id i (rows s.db) ≡ m i
    pub single : (i : String) → count_where (has_id i) (rows s.db) ≤ 1

  module _ (id_ok : String → Bool) (like : String → String → Bool) (settings : Settings)
      (host : Host) where
    abbrev change_disk :
        Disk → Disks store backings → Result DiskError Disk → Event × Disks store backings
    change_disk d s (err e) = (refused, s)
    change_disk d s (ok old) =
        let (answer, s') = save store backings d (record s { list = init_one_disk d s.list }) in
        (saved_event d answer, s')

    pub perform : Op → Disks store backings → Event × Disks store backings
    perform (create_op new_id d size) s =
        let (answer, s') = create store backings id_ok new_id settings host d size s in
        (created_event answer, s')
    perform (delete_op vm_disks d) s =
        let (answer, s') = delete_disk store backings like vm_disks d s in
        (deleted_event d.id answer, s')
    perform (save_op d) s = change_disk d s (get_by_id d.id s.list)

    pub run : List Op → Disks store backings → List Event × Disks store backings
    unfolding perform
    run [] s = ([], s)
    run (op ∷ ops) s =
        let (event, s') = perform op s in let (events, s'') = run ops s' in (event ∷ events, s'')
