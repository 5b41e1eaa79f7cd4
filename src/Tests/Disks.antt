-- ===== src/Tests/Disks.antt =====
-- Runs of the disks of cirrinad/disk/disk.go.
use cirrina.Prelude.{
  ℕ, String, ◌≡◌, refl, sym, ap, ◌⊎◌, inl, inr, Bool, true, false, Option, none, some, List, [],
  ◌∷◌, ◌++◌, arith, str_eq,
}
use cirrina.Store.{Store, StoreLaws, Reliable, Write, failed, affected, change_where, remove_where}
use cirrina.Requests.{first_where}
use cirrina.Vm.{Disk}
use cirrina.Disk.{with_id, InfoService, Backings}
use cirrina.Disk.Table.{Disks}
use cirrina.Disk.Mirror.{
  Op, create_op, delete_op, save_op, replay, count_where, IndexLaws, Represents, run,
}
use cirrina.Disk.Mirror.Steps.{run-Represents}
use cirrina.Tests.Slots.{boot_disk, settings, host}

-- A table with a unique index on the ID.
abbrev created : Disk → List Disk → Option Disk → Write × List Disk
created d db none = (affected 1, db ++ d ∷ [])
created d db (some old) = (failed, db)

abbrev pub disk_store : Store Disk
disk_store = record {
  Db = List Disk;
  rows = λ db. db;
  query_fails = λ db. false;
  create = λ d db. created d db (with_id d.id db);
  update = λ p f db. (affected (count_where p db), change_where p f db);
  delete = λ p db. (affected (count_where p db), remove_where p db);
}

created_failed :
    (d : Disk) (db : List Disk) (o : Option Disk)
    → (created d db o).0 ≡ failed
    → (created d db o).1 ≡ db
created_failed d db none e = absurd (cc)
created_failed d db (some old) e = refl

created_one :
    (d : Disk) (db : List Disk) (o : Option Disk)
    → (created d db o).0 ≡ affected 1
    → ((created d db o).1 ≡ db ++ d ∷ []) × (o ≡ none)
created_one d db none e = (refl, refl)
created_one d db (some old) e = absurd (cc)

created_cases :
    (d : Disk) (db : List Disk) (o : Option Disk)
    → ((created d db o).0 ≡ failed) ⊎ ((created d db o).0 ≡ affected 1)
created_cases d db none = inr refl
created_cases d db (some old) = inl refl

disk_store-laws : StoreLaws disk_store
disk_store-laws = record {
  create_failed = λ d db e. created_failed d db (with_id d.id db) e;
  create_one = λ d db e. (created_one d db (with_id d.id db) e).0;
  update_failed = λ p f db e. cc;
  update_done = λ p f db n e. refl;
  delete_failed = λ p db e. cc;
  delete_done = λ p db n e. refl;
}

disk_store-Reliable : Reliable disk_store
disk_store-Reliable = record {
  query_works = λ db. refl;
  update_works = λ p f db. (count_where p db, refl);
}

written_count : Write → ℕ
written_count failed = 0
written_count (affected n) = n

disk_store-IndexLaws : IndexLaws disk_store
unfolding written_count
disk_store-IndexLaws = record {
  create_cases = λ d db. created_cases d db (with_id d.id db);
  create_unique = λ d db e. (created_one d db (with_id d.id db) e).1;
  delete_counts = λ i db n e. ap written_count (sym e);
}

-- The backings are the paths that were created.
abbrev path_service : InfoService (List String)
path_service = record { exists = λ path w. some false; create = λ path size w. (true, path ∷ w) }

abbrev backings : Backings
backings = record { World = List String; file = path_service; zvol = path_service }

abbrev at_start : Disks disk_store backings
at_start = record { db = boot_disk ∷ []; list = boot_disk ∷ []; world = [] }

abbrev data_disk : Disk
data_disk = record boot_disk { id = ""; name = "data" }

abbrev id_ok : String → Bool
id_ok id = false

abbrev like : String → String → Bool
like a b = str_eq a b

-- The second disk is created, the first one changed, and the second one deleted.
abbrev ops : List Op
ops =
    create_op "disk-2" data_disk "1G"
    ∷ save_op (record boot_disk { disk_type = "NVME" })
    ∷ delete_op (some ("disk-1" ∷ [])) (record data_disk { id = "disk-2" })
    ∷ []

at_start-Represents : Represents disk_store backings (λ i. with_id i (boot_disk ∷ [])) at_start
unfolding first_where
at_start-Represents = record {
  in_list = λ i. refl;
  in_rows = λ i. refl;
  single = λ i. ground arith;
}

run-Represents_example :
    let (events, s) = run disk_store backings id_ok like settings host ops at_start in
    Represents disk_store backings (replay events (λ i. with_id i (boot_disk ∷ []))) s
run-Represents_example =
    run-Represents disk_store disk_store-laws disk_store-Reliable disk_store-IndexLaws backings
      id_ok like settings host ops (λ i. with_id i (boot_disk ∷ [])) at_start at_start-Represents
