-- ===== src/Vm/Attach/Nics/Exact.antt =====
-- Which NICs a VM has after `SetNics` of cirrinad/vm/nic.go.
use mathlib.Core.Path.{subst}
use mathlib.Core.Bool.{false≢true}
use cirrina.Prelude.{
  ℕ, String, ◌≡◌, refl, ◌∙◌, sym, ap, ◌≢◌, ◌↔◌, ◌⊎◌, inl, inr, Bool, true, false, Option, none,
  some, List, [], ◌∷◌, arith, str_eq, eq_iff, Bool-cases, Option-cases, Result, ok, Result-cases,
  Member, Member-cons, here, there,
}
use cirrina.Store.{Store, StoreLaws, Reliable, Member-change_where, rows-update}
use cirrina.Requests.{first_where}
use cirrina.Requests.Lifecycle.{first_where_sound}
use cirrina.Vmnic.{VmNic, NicError}
use cirrina.Vmnic.Table.{get_nics, select_nics, get_by_id, save}
use cirrina.Vm.{Vm}
use cirrina.Vm.Args.{is_stopped}
use cirrina.Vm.Attach.Nics.{
  NicsError, detach_all, detach_read, remove_all_nics_from_vm, has_nic, validate_nics, saved_to,
  attach_found, add_nics, set_nics,
}

module _ (store : Store VmNic) (laws : StoreLaws store) (works : Reliable store) where
  open store use {Db, rows}

  save_ok : (nic : VmNic) (db : Db) → (save store nic db).0 ≡ ok tt
  unfolding save
  save_ok nic db =
      let (n, done) = works.update_works (λ row. str_eq row.id nic.id) (λ row. nic) db in
      rw (done) refl

  -- A row after a save is the saved NIC, or a row from before under another ID.
  row_of_save :
      (nic x : VmNic) (db : Db)
      → Member x (rows (save store nic db).1)
      → (x ≡ nic) ⊎ (Member x (rows db) × (str_eq x.id nic.id ≡ false))
  unfolding save
  row_of_save nic x db m =
      let p : VmNic → Bool = λ row. str_eq row.id nic.id in
      let (s, old, same) =
        Member-change_where p (λ row. nic) x (rows db)
          (subst (λ l. Member x l) (rows-update store laws works p (λ row. nic) db) m) in
      elim (Bool-cases (p s)) [
        | inl this ↦ inl (same ∙ rw (this) refl)
        | inr other ↦
            let e : x ≡ s = same ∙ rw (other) refl in
            inr (subst (λ (r : VmNic). Member r (rows db)) (sym e) old, ap p e ∙ other)
      ]

  detach_all-rows :
      (nics : List VmNic) (db : Db)
      → ((detach_all store nics db).0 ≡ none)
        × ((x : VmNic)
            → Member x (rows (detach_all store nics db).1)
            → (x.config_id ≡ 0) ⊎ (Member x (rows db) × (has_nic x.id nics ≡ false)))
  unfolding detach_all has_nic
  detach_all-rows [] db = (refl, λ x m. inr (m, refl))
  detach_all-rows (nic ∷ nics) db =
      let out = record nic { config_id = 0 } in
      let (done, left) = detach_all-rows nics (save store out db).1 in
      rw (save_ok out db) (
        done,
        λ x m. elim (left x m) [
          | inl free ↦ inl free
          | inr (now, apart) ↦ elim (row_of_save out x db now) [
            | inl same ↦ inl (ap (λ r. r.config_id) same)
            | inr (old, other) ↦ inr (old, rw (other) apart)
          ]
        ],
      )

  selected :
      (c : ℕ) (x : VmNic) (nics : List VmNic)
      → Member x nics
      → x.config_id ≡ c
      → has_nic x.id (select_nics store c nics) ≡ true
  unfolding select_nics has_nic
  selected c x [] m e = elim m [ ]
  selected c x (n ∷ nics) (here same) e =
      let this = ap (λ r. r.config_id) (sym same) ∙ e in
      let itself = ap (λ r. str_eq x.id r.id) (sym same) ∙ (eq_iff x.id x.id).1 refl in ground arith
  selected c x (n ∷ nics) (there m) e = ground (arith, selected c x nics m e)

  -- No NIC is left on the VM.
  pub removed :
      (v : Vm) (db : Db)
      → v.config.id ≢ 0
      → ((remove_all_nics_from_vm store v db).0 ≡ none)
        × ((x : VmNic)
            → Member x (rows (remove_all_nics_from_vm store v db).1)
            → x.config_id ≢ v.config.id)
  unfolding remove_all_nics_from_vm detach_read get_nics
  removed v db real = rw (works.query_works db) (
      let (done, left) = detach_all-rows (select_nics store v.config.id (rows db)) db in
      (
        done,
        λ x m e. elim (left x m) [
          | inl free ↦ real (sym e ∙ free)
          | inr (old, apart) ↦ false≢true (sym apart ∙ selected v.config.id x (rows db) old e)
        ],
      ))

  found_id : (i : String) (nic : VmNic) (db : Db) → get_by_id store i db ≡ ok nic → nic.id ≡ i
  unfolding get_by_id
  found_id i nic db e = elim (Option-cases (first_where (λ r. str_eq r.id i) (rows db))) [
    | inl nothing ↦ ground arith
    | inr (r, found) ↦
        let same = (first_where_sound (λ c. str_eq c.id i) r (rows db) found).1 in
        ground (arith, works.query_works db, eq_iff r.id i)
  ]

  attach_found_ok :
      (c : ℕ) (nic : VmNic) (r : Result NicError VmNic) (db : Db)
      → r ≡ ok nic
      → attach_found store c r db ≡ (none, (save store (record nic { config_id = c }) db).1)
  unfolding attach_found saved_to
  attach_found_ok c nic r db e = rw (e, save_ok (record nic { config_id = c }) db) refl

  add_nics_step :
      (c : ℕ) (i : String) (ids : List String) (nic : VmNic) (db : Db)
      → get_by_id store i db ≡ ok nic
      → add_nics store c (i ∷ ids) db
        ≡ add_nics store c ids (save store (record nic { config_id = c }) db).1
  unfolding add_nics
  add_nics_step c i ids nic db e =
      ap
        (λ (p : Option NicsError × Db).
          let rest = add_nics store c ids p.1 in elim p.0 [ some e ↦ (some e, p.1) | none ↦ rest ])
        (attach_found_ok c nic (get_by_id store i db) db e)

  add_nics-rows :
      (c : ℕ) (ids : List String) (db : Db)
      → (add_nics store c ids db).0 ≡ none
      → (x : VmNic) → Member x (rows (add_nics store c ids db).1)
      → ((x.config_id ≡ c) × Member x.id ids) ⊎ (Member x (rows db) × ¬ Member x.id ids)
  unfolding add_nics attach_found saved_to
  add_nics-rows c [] db = λ done x m. inr (m, λ none_left. elim none_left [ ])
  add_nics-rows c (i ∷ ids) db = elim (Result-cases (get_by_id store i db)) [
    | inl (e, missing) ↦ rw (missing, add_nics) (λ done. absurd (cc))
    | inr (nic, found) ↦
        let added = record nic { config_id = c } in
        rw (add_nics_step c i ids nic db found) (λ done x m.
          elim (add_nics-rows c ids (save store added db).1 done x m) [
            | inl (on, listed) ↦ inl (on, there listed)
            | inr (now, apart) ↦ elim (row_of_save added x db now) [
              | inl same ↦
                  inl (
                    ap (λ r. r.config_id) same,
                    here (ap (λ r. r.id) same ∙ found_id i nic db found),
                  )
              | inr (old, other) ↦ inr (
                old,
                λ listed. elim (Member-cons listed) [
                  | inl same ↦
                      false≢true
                        (sym other ∙ (eq_iff x.id nic.id).1 (same ∙ sym (found_id i nic db found)))
                  | inr later ↦ apart later
                ],
              )
            ]
          ])
  ]

  -- After a `SetNics` that succeeded, the NICs of the VM are exactly those whose IDs were given, if
  -- no query or update fails and the configuration of the VM has an ID that is not 0.
  pub set_nics-exact :
      (parse : String → Option String) (vms : List Vm) (v : Vm) (ids : List String) (db : Db)
      → v.config.id ≢ 0
      → (set_nics store parse vms v ids db).0 ≡ none
      → (x : VmNic) → Member x (rows (set_nics store parse vms v ids db).1)
      → (x.config_id ≡ v.config.id) ↔ Member x.id ids
  unfolding set_nics
  set_nics-exact parse vms v ids db real =
      let (cleared, gone) = removed v db real in
      let db' = (remove_all_nics_from_vm store v db).1 in
      elim (Bool-cases (is_stopped v.status)) [
        | inr busy ↦ rw (busy) (λ done. absurd (cc))
        | inl idle ↦ elim (Option-cases (validate_nics store parse vms v.id [] ids db')) [
          | inr (e, refused) ↦ rw (idle, cleared, refused) (λ done. absurd (cc))
          | inl valid ↦
              rw (idle, cleared, valid)
                (λ done x m. elim (add_nics-rows v.config.id ids db' done x m) [
                  | inl (on, listed) ↦ (λ _. listed, λ _. on)
                  | inr (old, apart) ↦
                      (λ on. absurd (gone x old on), λ listed. absurd (apart listed))
                ])
        ]
      ]

  -- `SetNics` tests the NICs after it has detached the old ones: where a test fails, the call answers
  -- that error and the stopped VM is left without any NIC, if no query or update fails and the
  -- configuration of the VM has an ID that is not 0.
  pub set_nics-refused :
      (parse : String → Option String) (vms : List Vm) (v : Vm) (ids : List String) (db : Db)
      (e : NicsError)
      → v.config.id ≢ 0
      → is_stopped v.status ≡ true
      → validate_nics store parse vms v.id [] ids (remove_all_nics_from_vm store v db).1 ≡ some e
      → ((set_nics store parse vms v ids db).0 ≡ some e)
        × ((x : VmNic)
            → Member x (rows (set_nics store parse vms v ids db).1)
            → x.config_id ≢ v.config.id)
  unfolding set_nics
  set_nics-refused parse vms v ids db e real idle refused =
      let (cleared, gone) = removed v db real in rw (idle, cleared, refused) (refl, gone)
