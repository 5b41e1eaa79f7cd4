-- ===== src/Iso/Created.antt =====
-- Which ISOs `Create` of cirrinad/iso/iso.go makes.
use mathlib.Core.Path.{subst}
use mathlib.Core.Bool.{false≢true}
use cirrina.Prelude.{
  String, ◌≡◌, refl, ◌∙◌, sym, ap, ◌≢◌, Bool, true, false, not, List, [], ◌∷◌, ◌++◌, ◌==◌, ==_iff,
  str_eq, eq_iff, Bool-cases, inl, inr, Result, ok, err, Member, Member-cons, if_split, if_both,
  arith,
}
use cirrina.Store.{Store, StoreLaws, Write, failed, affected}
use cirrina.Requests.{first_where}
use cirrina.Util.Name.{valid_iso_name}
use cirrina.Vm.{Iso, Settings, Host}
use cirrina.Iso.{
  IsoError, found_iso, exists_of, path_taken, get_path, with_new_id, inserted, get_by_name,
  insert_iso, create_unless_there, create_if_new, create,
}

-- No row has the name.
abbrev NameFree : String → List Iso → Type 0
NameFree name rows = (r : Iso) → Member r rows → r.name ≢ name

name_free :
    (name : String) (rows : List Iso)
    → exists_of (found_iso (first_where (λ i. str_eq i.name name) rows)) ≡ ok false
    → NameFree name rows
unfolding first_where
name_free name [] e r m = elim m [ ]
name_free name (x ∷ rows) e r m = elim (Bool-cases (str_eq x.name name)) [
  | inl same ↦ absurd (ground arith)
  | inr other ↦ elim (Member-cons m) [
    | inl this ↦ λ named.
        false≢true (sym other ∙ (eq_iff x.name name).1 (ap (λ i. i.name) (sym this) ∙ named))
    | inr later ↦ name_free name rows (ground arith) r later
  ]
]

module _ (store : Store Iso) (laws : StoreLaws store) where
  open store use {Db, rows, create as insert, query_fails}

  -- The ISO has a valid name that no row had, its file did not exist, and it is one more row.
  abbrev pub IsNewIso : Settings → Host → Iso → Db → Result IsoError Iso × Db → Type 0
  IsNewIso settings host i db (err e, db') = Unit
  IsNewIso settings host i db (ok row, db') =
      (row.name ≡ i.name)
      × (valid_iso_name row.name ≡ true)
      × NameFree row.name (rows db)
      × (path_taken (host.path_exists (get_path settings host i)) ≡ ok false)
      × (rows db' ≡ rows db ++ row ∷ [])

  insert-IsNewIso :
      (settings : Settings) (host : Host) (i row : Iso) (db : Db) (w : Write)
      → (insert row db).0 ≡ w
      → row.name ≡ i.name
      → valid_iso_name i.name ≡ true
      → NameFree i.name (rows db)
      → path_taken (host.path_exists (get_path settings host i)) ≡ ok false
      → IsNewIso settings host i db (inserted w row, (insert row db).1)
  insert-IsNewIso settings host i row db failed written same valid free path = tt
  insert-IsNewIso settings host i row db (affected n) written same valid free path =
      if_split (λ (r : Result IsoError Iso). IsNewIso settings host i db (r, (insert row db).1))
        (n == 1)
        (λ one. (
          same,
          ap valid_iso_name same ∙ valid,
          subst (λ (name : String). NameFree name (rows db)) (sym same) free,
          path,
          laws.create_one row db (written ∙ ap affected ((==_iff n 1).0 one)),
        ))
        (λ _. tt)

  same_name :
      (id_ok : String → Bool) (new_id : String) (i : Iso)
      → (with_new_id id_ok new_id i).name ≡ i.name
  unfolding with_new_id
  same_name id_ok new_id i = if_both (λ (j : Iso). j.name ≡ i.name) (id_ok i.id) refl refl

  unless_there-IsNewIso :
      (id_ok : String → Bool) (new_id : String) (settings : Settings) (host : Host) (i : Iso)
      (there : Result IsoError Bool) (db : Db)
      → path_taken (host.path_exists (get_path settings host i)) ≡ there
      → NameFree i.name (rows db)
      → IsNewIso settings host i db (create_unless_there store id_ok new_id i there db)
  unfolding create_unless_there insert_iso
  unless_there-IsNewIso id_ok new_id settings host i (err e) db path free = tt
  unless_there-IsNewIso id_ok new_id settings host i (ok true) db path free = tt
  unless_there-IsNewIso id_ok new_id settings host i (ok false) db path free =
      let row = with_new_id id_ok new_id i in
      if_split (IsNewIso settings host i db) (not (valid_iso_name i.name)) (λ _. tt)
        (λ valid. if_both (IsNewIso settings host i db) (str_eq i.name "") tt (
          insert-IsNewIso settings host i row db (insert row db).0 refl (same_name id_ok new_id i)
            (ground arith) free path))

  if_new-IsNewIso :
      (id_ok : String → Bool) (new_id : String) (settings : Settings) (host : Host) (i : Iso)
      (taken : Result IsoError Bool) (db : Db)
      → (taken ≡ ok false → NameFree i.name (rows db))
      → IsNewIso settings host i db (create_if_new store id_ok new_id settings host i taken db)
  unfolding create_if_new
  if_new-IsNewIso id_ok new_id settings host i (err e) db free = tt
  if_new-IsNewIso id_ok new_id settings host i (ok true) db free = tt
  if_new-IsNewIso id_ok new_id settings host i (ok false) db free =
      unless_there-IsNewIso id_ok new_id settings host i
        (path_taken (host.path_exists (get_path settings host i))) db refl (free refl)

  by_name :
      (name : String) (db : Db)
      → exists_of (get_by_name store name db) ≡ ok false
      → NameFree name (rows db)
  unfolding get_by_name
  by_name name db =
      if_both (λ (r : Result IsoError Iso). exists_of r ≡ ok false → NameFree name (rows db))
        (query_fails db) (λ broken. absurd (cc)) (name_free name (rows db))

  -- An ISO that `Create` made has a valid name that no ISO had, its file did not exist before, and it is
  -- one more row of the table.
  pub create-IsNewIso :
      (id_ok : String → Bool) (new_id : String) (settings : Settings) (host : Host) (i : Iso)
      (db : Db)
      → IsNewIso settings host i db (create store id_ok new_id settings host i db)
  unfolding create
  create-IsNewIso id_ok new_id settings host i db =
      if_new-IsNewIso id_ok new_id settings host i (exists_of (get_by_name store i.name db)) db
        (by_name i.name db)
