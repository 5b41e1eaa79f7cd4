-- ===== src/Tests/Tables.antt =====
-- A table that is a list, and the laws that it keeps.
use cirrina.Prelude.{ℕ, suc, refl, Bool, false, List, [], ◌∷◌, ◌++◌, if◌then◌else◌}
use cirrina.Store.{Store, StoreLaws, Reliable, affected, change_where, remove_where}

abbrev pub count : {A : Type 0} → (A → Bool) → List A → ℕ
count p [] = 0
count p (r ∷ rs) = if p r then suc (count p rs) else count p rs

abbrev pub list_store : (Row : Type 0) → Store Row
list_store Row = record {
  Db = List Row;
  rows = λ db. db;
  query_fails = λ db. false;
  create = λ r db. (affected 1, db ++ r ∷ []);
  update = λ p f db. (affected (count p db), change_where p f db);
  delete = λ p db. (affected (count p db), remove_where p db);
}

pub list_store-laws : (Row : Type 0) → StoreLaws (list_store Row)
list_store-laws Row = record {
  create_failed = λ r db e. cc;
  create_one = λ r db e. refl;
  update_failed = λ p f db e. cc;
  update_done = λ p f db n e. refl;
  delete_failed = λ p db e. cc;
  delete_done = λ p db n e. refl;
}

pub list_store-Reliable : (Row : Type 0) → Reliable (list_store Row)
list_store-Reliable Row = record {
  query_works = λ db. refl;
  update_works = λ p f db. (count p db, refl);
}
