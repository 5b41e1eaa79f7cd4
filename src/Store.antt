-- ===== src/Store.antt =====
-- The database, behind what the program relies on: gorm and SQLite are no part of the repository,
-- so a table is an interface, and its documented behaviour is the record `StoreLaws`.
use cirrina.Prelude.{
  ℕ, ◌≡◌, refl, Bool, false, List, [], ◌∷◌, ◌++◌, map, if◌then◌else◌, Member, here, there,
  Member-cons, inl, inr,
}

-- How a statement ended: with an error, or with the number of rows that it affected.
pub data Write : Type 0 where
  failed : Write
  affected : ℕ → Write

-- A table of rows. `rows` lists those that are not deleted, in the order in which a query finds
-- them; `query_fails` says that a query on this state ends with an error.
pub record Store (Row : Type 0) : Type 1 where
  pub Db : Type 0
  pub rows : Db → List Row
  pub query_fails : Db → Bool
  pub create : Row → Db → Write × Db
  pub update : (Row → Bool) → (Row → Row) → Db → Write × Db
  pub delete : (Row → Bool) → Db → Write × Db

-- The rows where a test passes, changed.
abbrev pub change_where {ℓ} : {A : Type ℓ} → (A → Bool) → (A → A) → List A → List A
change_where p f rs = map (λ r. if p r then f r else r) rs

-- The rows where a test fails.
abbrev pub remove_where {ℓ} : {A : Type ℓ} → (A → Bool) → List A → List A
remove_where p [] = []
remove_where p (r ∷ rs) = if p r then remove_where p rs else r ∷ remove_where p rs

pub record StoreLaws {Row : Type 0} (store : Store Row) : Type 0 where
  pub create_failed :
      (r : Row) (db : store.Db)
      → (store.create r db).0 ≡ failed
      → store.rows (store.create r db).1 ≡ store.rows db
  pub create_one :
      (r : Row) (db : store.Db)
      → (store.create r db).0 ≡ affected 1
      → store.rows (store.create r db).1 ≡ store.rows db ++ r ∷ []
  pub update_failed :
      (p : Row → Bool) (f : Row → Row) (db : store.Db)
      → (store.update p f db).0 ≡ failed
      → store.rows (store.update p f db).1 ≡ store.rows db
  pub update_done :
      (p : Row → Bool) (f : Row → Row) (db : store.Db) (n : ℕ)
      → (store.update p f db).0 ≡ affected n
      → store.rows (store.update p f db).1 ≡ change_where p f (store.rows db)
  pub delete_failed :
      (p : Row → Bool) (db : store.Db)
      → (store.delete p db).0 ≡ failed
      → store.rows (store.delete p db).1 ≡ store.rows db
  pub delete_done :
      (p : Row → Bool) (db : store.Db) (n : ℕ)
      → (store.delete p db).0 ≡ affected n
      → store.rows (store.delete p db).1 ≡ remove_where p (store.rows db)

-- No statement fails: what the happy path of the program relies on.
pub record Reliable {Row : Type 0} (store : Store Row) : Type 0 where
  pub query_works : (db : store.Db) → store.query_fails db ≡ false
  pub update_works :
      (p : Row → Bool) (f : Row → Row) (db : store.Db)
      → (n : ℕ) × ((store.update p f db).0 ≡ affected n)

-- A row after a change is a row from before it, changed where the test passes.
pub Member-change_where {ℓ} :
    {A : Type ℓ} (p : A → Bool) (f : A → A) (r : A) (rs : List A)
    → Member r (change_where p f rs)
    → (s : A) × Member s rs × (r ≡ (if p s then f s else s))
Member-change_where p f r [] m = elim m [ ]
Member-change_where p f r (x ∷ xs) m = elim (Member-cons m) [
  | inl e ↦ (x, here refl, e)
  | inr m' ↦ let (s, found, same) = Member-change_where p f r xs m' in (s, there found, same)
]

module _ {Row : Type 0} (store : Store Row) (laws : StoreLaws store) (works : Reliable store) where
  -- The rows after an update.
  pub rows-update :
      (p : Row → Bool) (f : Row → Row) (db : store.Db)
      → store.rows (store.update p f db).1 ≡ change_where p f (store.rows db)
  rows-update p f db = let (n, done) = works.update_works p f db in laws.update_done p f db n done
