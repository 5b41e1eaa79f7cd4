-- ===== src/Vmnic/TableLaws.antt =====
-- What the operations of cirrinad/vmnic/vm_nics.go keep of the table of NICs.
use mathlib.Core.Bool.{false≢true}
use mathlib.Core.Path.{subst}
use cirrina.Prelude.{
  String, ◌≡◌, refl, ◌∙◌, sym, ap, ◌≢◌, Bool, true, false, not, Option, none, some, List, [], ◌∷◌,
  ◌++◌, ◌==◌, ==_iff, str_eq, eq_iff, Result, ok, err, ok-injective, Result-cases, Bool-cases, inl,
  inr, if_split, if_both, Member, Member-cons, arith,
}
use cirrina.Store.{Store, StoreLaws, Write, failed, affected, remove_where}
use cirrina.Requests.{first_where}
use cirrina.Util.Name.{valid_nic_name}
use cirrina.Vmnic.{
  VmNic, NicError, validate, with_defaults, in_use, nic_type_valid, nic_dev_type_valid,
}
use cirrina.Vmnic.Table.{
  found_nic, exists_of, with_new_id, inserted, get_by_name, insert_nic, insert_if_new, create,
  deleted, delete_nic,
}
use cirrina.Vmnic.Validated.{IsValidated, validate_lem}

inserted_lem :
    (w : Write) (row after : VmNic) → inserted w row ≡ ok after → (w ≡ affected 1) × (row ≡ after)
inserted_lem failed row after = λ e. absurd (cc)
inserted_lem (affected n) row after =
    if_split
      (λ (r : Result NicError VmNic). r ≡ ok after → (affected n ≡ affected 1) × (row ≡ after))
      (n == 1) (λ one e. (ap affected ((==_iff n 1).0 one), ok-injective e))
      (λ other e. absurd (cc))

first_where-none :
    (p : VmNic → Bool) (r : VmNic) (rs : List VmNic)
    → first_where p rs ≡ none
    → Member r rs
    → p r ≡ false
unfolding first_where
first_where-none p r [] e m = elim m [ ]
first_where-none p r (x ∷ rs) e m = elim (Bool-cases (p x)) [
  | inl passes ↦ absurd (ground arith)
  | inr fails ↦ elim (Member-cons m) [
    | inl same ↦ ap p same ∙ fails
    | inr m' ↦ first_where-none p r rs (ground arith) m'
  ]
]

same_but_id :
    (id_ok : String → Bool) (new_id : String) (v : VmNic)
    → let w = with_new_id id_ok new_id v in
      (w.name ≡ v.name)
      × (w.config_id ≡ v.config_id)
      × (w.net_type ≡ v.net_type)
      × (w.net_dev_type ≡ v.net_dev_type)
unfolding with_new_id
same_but_id id_ok new_id v =
    if_both
      (λ (w : VmNic).
        (w.name ≡ v.name)
        × (w.config_id ≡ v.config_id)
        × (w.net_type ≡ v.net_type)
        × (w.net_dev_type ≡ v.net_dev_type))
      (id_ok v.id) (refl, refl, refl, refl) (refl, refl, refl, refl)

Member-remove_where :
    (p : VmNic → Bool) (r : VmNic) (rs : List VmNic) → Member r (remove_where p rs) → p r ≡ false
Member-remove_where p r [] = λ m. elim m [ ]
Member-remove_where p r (x ∷ rs) =
    if_split (λ (l : List VmNic). Member r l → p r ≡ false) (p x)
      (λ gone m. Member-remove_where p r rs m)
      (λ kept m. elim (Member-cons m) [
        | inl same ↦ ap p same ∙ kept
        | inr m' ↦ Member-remove_where p r rs m'
      ])

deleted_lem : (w : Write) → deleted w ≡ ok tt → w ≡ affected 1
deleted_lem failed = λ e. absurd (cc)
deleted_lem (affected n) =
    if_split (λ (r : Result NicError (Unit {0})). r ≡ ok tt → affected n ≡ affected 1) (n == 1)
      (λ one e. ap affected ((==_iff n 1).0 one)) (λ other e. absurd (cc))

-- What a NIC is that was created, and that nothing else has changed in the table.
pub record IsCreated (nic after : VmNic) (before : List VmNic) (rest : List VmNic) : Type 0 where
  pub one_more : rest ≡ before ++ after ∷ []
  pub name_kept : after.name ≡ nic.name
  pub config_kept : after.config_id ≡ nic.config_id
  pub name_valid : valid_nic_name after.name ≡ true
  pub type_valid : nic_type_valid after.net_type ≡ true
  pub dev_type_valid : nic_dev_type_valid after.net_dev_type ≡ true
  pub name_new : (r : VmNic) → Member r before → r.name ≢ after.name

module _ (store : Store VmNic) (laws : StoreLaws store) where
  open store use {Db, rows, query_fails}

  found_none : (o : Option VmNic) → exists_of (found_nic o) ≡ ok false → o ≡ none
  found_none none e = refl
  found_none (some nic) e = absurd (cc)

  -- A name that is known to be free stands in no row.
  name_free :
      (name : String) (db : Db) (r : VmNic)
      → valid_nic_name name ≡ true
      → exists_of (get_by_name store name db) ≡ ok false
      → Member r (rows db)
      → r.name ≢ name
  unfolding get_by_name valid_nic_name
  name_free name db r valid e m =
      let P : Result NicError VmNic → Type 0 = λ q. exists_of q ≡ ok false → r.name ≢ name in
      if_split P (str_eq name "") (λ empty. absurd (ground arith))
        (λ given.
          if_split P (query_fails db) (λ fails e'. absurd (cc))
            (λ works e' same.
              let p : VmNic → Bool = λ nic. str_eq nic.name name in
              let nothing = found_none (first_where p (rows db)) e' in
              false≢true
                (sym (first_where-none p r (rows db) nothing m) ∙ (eq_iff r.name name).1 same)))
        e

  -- A row was added for a NIC.
  abbrev IsInserted :
      (String → Bool) → String → VmNic → VmNic → Db → Result NicError VmNic × Db → Type 0
  IsInserted id_ok new_id nic after db r =
      (after ≡ with_new_id id_ok new_id nic) × (rows r.1 ≡ rows db ++ after ∷ [])

  insert_nic_lem :
      (id_ok : String → Bool) (new_id : String) (nic after : VmNic) (db : Db)
      → (insert_nic store id_ok new_id nic db).0 ≡ ok after
      → IsInserted id_ok new_id nic after db (insert_nic store id_ok new_id nic db)
  unfolding insert_nic
  insert_nic_lem id_ok new_id nic after db =
      let row = with_new_id id_ok new_id nic in
      if_split
        (λ (r : Result NicError VmNic × Db).
          r.0 ≡ ok after → IsInserted id_ok new_id nic after db r)
        (str_eq nic.name "") (λ empty e. absurd (cc))
        (λ given e.
          let (one, same) = inserted_lem (store.create row db).0 row after e in
          (sym same, laws.create_one row db one ∙ ap (λ a. rows db ++ a ∷ []) same))

  insert_if_new_lem :
      (id_ok : String → Bool) (new_id : String) (nic after : VmNic) (exists : Result NicError Bool)
      (db : Db)
      → (insert_if_new store id_ok new_id nic exists db).0 ≡ ok after
      → (exists ≡ ok false)
        × IsInserted id_ok new_id nic after db (insert_if_new store id_ok new_id nic exists db)
  unfolding insert_if_new
  insert_if_new_lem id_ok new_id nic after (err e) db same = absurd (cc)
  insert_if_new_lem id_ok new_id nic after (ok true) db same = absurd (cc)
  insert_if_new_lem id_ok new_id nic after (ok false) db same =
      (refl, insert_nic_lem id_ok new_id nic after db same)

  created :
      (id_ok : String → Bool) (new_id : String) (nic v after : VmNic) (db : Db) (rest : List VmNic)
      → IsValidated (with_defaults nic) v
      → exists_of (get_by_name store v.name db) ≡ ok false
      → after ≡ with_new_id id_ok new_id v
      → rest ≡ rows db ++ after ∷ []
      → IsCreated nic after (rows db) rest
  unfolding with_defaults
  created id_ok new_id nic v after db rest valid free same one_more =
      let made = same_but_id id_ok new_id v in
      let name = ap (λ n. n.name) same ∙ made.0 in
      record {
        one_more = one_more;
        name_kept = name ∙ valid.name_kept;
        config_kept = ap (λ n. n.config_id) same ∙ made.1 ∙ valid.config_kept;
        name_valid = ap valid_nic_name name ∙ valid.name_valid;
        type_valid =
            ap (λ n. nic_type_valid n.net_type) same ∙ ap nic_type_valid made.2 ∙ valid.type_valid;
        dev_type_valid =
            ap (λ n. nic_dev_type_valid n.net_dev_type) same
            ∙ ap nic_dev_type_valid made.3
            ∙ valid.dev_type_valid;
        name_new = λ r m e. name_free v.name db r valid.name_valid free m (e ∙ name);
      }

  -- If `Create` ends well, the table has one row more: its name, which is the given one, is valid and
  -- was in no row before, its types are valid, and it is attached to what the given NIC was.
  pub create-IsCreated :
      (id_ok : String → Bool) (new_id : String) (nic after : VmNic) (db : Db)
      → (create store id_ok new_id nic db).0 ≡ ok after
      → IsCreated nic after (rows db) (rows (create store id_ok new_id nic db).1)
  unfolding create
  create-IsCreated id_ok new_id nic after db = elim (Result-cases (validate (with_defaults nic))) [
    | inl (e, bad) ↦ rw (bad, create) (λ same. absurd (cc))
    | inr (v, good) ↦
        rw (good, create)
          (λ same.
            let (free, (row, one_more)) =
              insert_if_new_lem id_ok new_id v after (exists_of (get_by_name store v.name db)) db
                same in
            created id_ok new_id nic v after db _ (validate_lem (with_defaults nic) v good) free row
              one_more)
  ]

  -- If `Delete` ends well, the NIC was attached to no VM, and no row with its ID is left.
  pub delete_nic-removes :
      (nic : VmNic) (db : Db)
      → (delete_nic store nic db).0 ≡ ok tt
      → (nic.config_id ≡ 0)
        × ((r : VmNic) → Member r (rows (delete_nic store nic db).1) → r.id ≢ nic.id)
  unfolding delete_nic in_use
  delete_nic-removes nic db =
      let p : VmNic → Bool = λ row. str_eq row.id nic.id in
      if_split
        (λ (r : Result NicError (Unit {0}) × Db).
          r.0 ≡ ok tt → (nic.config_id ≡ 0) × ((x : VmNic) → Member x (rows r.1) → x.id ≢ nic.id))
        (not (nic.config_id == 0)) (λ attached e. absurd (cc))
        (λ detached e.
          let done = laws.delete_done p db 1 (deleted_lem (store.delete p db).0 e) in
          (
            ground arith,
            λ x m same. false≢true (
                sym (Member-remove_where p x (rows db) (subst (λ l. Member x l) done m))
                ∙ (eq_iff x.id nic.id).1 same),
          ))
