-- ===== src/Requests/Dispatch.antt =====
-- The loop of cirrinad/reqproc.go together with everything that changes the table of requests.
use mathlib.Core.Bool.{false≢true}
use mathlib.Core.Path.{subst}
use cirrina.Prelude.{
  ℕ, String, ◌≡◌, refl, ◌∙◌, sym, ap, ◌⊎◌, inl, inr, Bool, true, false, Option, none, some, List,
  [], ◌∷◌, arith, str_eq, eq_iff, if◌then◌else◌, Bool-cases, Member, Member-cons, Member-append,
}
use cirrina.Store.{Store, StoreLaws, Reliable, affected}
use cirrina.Requests.{Request, updates, unstarted}
use cirrina.Requests.Queue.{get_un_started, start, succeeded, failed_request, fail_all_pending}
use cirrina.Requests.Handlers.{process_round, Task}
use cirrina.Requests.Lifecycle.{started_row, un_started_cases, row_of_update}

-- No ID stands twice in the list.
abbrev pub Distinct : List String → Type 0
Distinct [] = Unit
Distinct (i ∷ ids) = (¬ Member i ids) × Distinct ids

module _ (store : Store Request) where
  open store use {Db, rows, create}

  -- The table, and the IDs of the requests that the loop has handed to a handler, newest first.
  pub record System : Type 0 where
    pub db : Db
    pub dispatched : List String

  abbrev handed : Option (Request × Option Task) → List String → List String
  handed none ids = ids
  handed (some (r, t)) ids = r.id ∷ ids

  pub poll : ℕ → System → System
  poll now s =
      let (out, db') = process_round store now s.db in
      record { db = db'; dispatched = handed out s.dispatched }

  -- A round of the loop, a handler's verdict on any request, a new request under an ID that was not
  -- handed out before, and the clean-up at the start of the daemon, in any order.
  pub data Step (s : System) : System → Type 0 where
    round : (now : ℕ) → Step s (poll now s)
    success : (r : Request) → Step s (record s { db = succeeded store r s.db })
    failure : (r : Request) → Step s (record s { db = failed_request store r s.db })
    submit :
        (r : Request)
        → (create r s.db).0 ≡ affected 1
        → ¬ Member r.id s.dispatched
        → Step s (record s { db = (create r s.db).1 })
    clean_up : Step s (record s { db = (fail_all_pending store s.db).1 })

  pub data Reach (s : System) : System → Type 0 where
    begin : Reach s s
    next : {t u : System} → Reach s t → Step t u → Reach s u

  record IsConsistent (s : System) : Type 0 where
    pub distinct : Distinct s.dispatched
    pub no_longer_waiting :
        (r : Request) → Member r (rows s.db) → Member r.id s.dispatched → unstarted r ≡ false

not_unstarted : (b : Bool) → ¬ (b ≡ true) → b ≡ false
not_unstarted true h = absurd (h refl)
not_unstarted false h = refl

-- A change that carries no ID of another row keeps a row's ID and starts no row anew.
kept_row :
    (c row s : Request) (test : Bool)
    → (c.id ≡ "") ⊎ ((test ≡ true) → c.id ≡ row.id)
    → s ≡ (if test then updates c row else row)
    → (s.id ≡ row.id) × (unstarted s ≡ true → unstarted row ≡ true)
unfolding updates
kept_row c row s true same e = (ground (arith, eq_iff c.id ""), λ h. ground arith)
kept_row c row s false same e = (cc, λ h. ground arith)

module _ (store : Store Request) (laws : StoreLaws store) (works : Reliable store) where
  open store use {Db, rows, create, update}

  -- An update keeps what was handed out from waiting again.
  update-IsConsistent :
      (p : Request → Bool) (c : Request) (db : Db) (ids : List String)
      → ((row : Request) → (c.id ≡ "") ⊎ ((p row ≡ true) → c.id ≡ row.id))
      → IsConsistent store (record { db = db; dispatched = ids })
      → IsConsistent store (record { db = (update p (updates c) db).1; dispatched = ids })
  update-IsConsistent p c db ids same v = record {
    distinct = v.distinct;
    no_longer_waiting = λ s present listed.
        let (row, old, changed) = row_of_update store laws works p (updates c) db s present in
        let (same_id, waiting) = kept_row c row s (p row) (same row) changed in
        not_unstarted (unstarted s) (λ h. false≢true (
          sym (v.no_longer_waiting row old (subst (λ i. Member i ids) same_id listed))
          ∙ waiting h));
  }

  pub poll_idle :
      (now : ℕ) (s : System store)
      → str_eq (get_un_started store s.db).id "" ≡ true
      → poll store now s ≡ s
  unfolding poll process_round
  poll_idle now s e = rw (e, process_round)

  pub poll_busy :
      (now : ℕ) (s : System store)
      → str_eq (get_un_started store s.db).id "" ≡ false
      → poll store now s ≡ record {
        db = (start store now (get_un_started store s.db) s.db).1;
        dispatched = (get_un_started store s.db).id ∷ s.dispatched;
      }
  unfolding poll process_round start
  poll_busy now s e = rw (e, process_round)

  -- What a round does with a request that waits.
  started-IsConsistent :
      (now : ℕ) (r : Request) (s : System store)
      → Member r (rows s.db)
      → unstarted r ≡ true
      → IsConsistent store s
      → IsConsistent store
          (record { db = (start store now r s.db).1; dispatched = r.id ∷ s.dispatched })
  unfolding start
  started-IsConsistent now r s present fresh v =
      let p : Request → Bool = λ row. str_eq row.id r.id in
      let c = record r { started_at = some now } in
      let before =
        update-IsConsistent p c s.db s.dispatched
          (λ row. inr (λ passes. sym ((eq_iff row.id r.id).0 passes))) v in
      record {
        distinct = ((λ m. false≢true (sym (v.no_longer_waiting r present m) ∙ fresh)), v.distinct);
        no_longer_waiting = λ x there_now listed. elim (Member-cons listed) [
          | inl same ↦
              let (row, _, changed) =
                row_of_update store laws works p (updates c) s.db x there_now in
              not_unstarted (unstarted x) (λ h. started_row r x row now changed h same)
          | inr older ↦ before.no_longer_waiting x there_now older
        ];
      }

  round-IsConsistent :
      (now : ℕ) (s : System store) → IsConsistent store s → IsConsistent store (poll store now s)
  round-IsConsistent now s v = elim (Bool-cases (str_eq (get_un_started store s.db).id "")) [
    | inl idle ↦ rw (poll_idle now s idle) v
    | inr busy ↦ elim (un_started_cases store laws works s.db) [
      | inl nothing ↦ absurd (
          false≢true
            (sym busy ∙ (eq_iff (get_un_started store s.db).id "").1 (ap (λ r. r.id) nothing)))
      | inr (r, present, fresh, same) ↦
          rw (poll_busy now s busy, same) (started-IsConsistent now r s present fresh v)
    ]
  ]

  submit-IsConsistent :
      (r : Request) (s : System store)
      → (create r s.db).0 ≡ affected 1
      → ¬ Member r.id s.dispatched
      → IsConsistent store s
      → IsConsistent store (record s { db = (create r s.db).1 })
  submit-IsConsistent r s done fresh v = record {
    distinct = v.distinct;
    no_longer_waiting = λ x present listed.
        elim (Member-append x (rows s.db) (r ∷ [])
          (subst (λ l. Member x l) (laws.create_one r s.db done) present)) [
            | inl old ↦ v.no_longer_waiting x old listed
            | inr new ↦ elim (Member-cons new) [
              | inl same ↦
                  absurd (fresh (subst (λ i. Member i s.dispatched) (ap (λ q. q.id) same) listed))
              | inr none_left ↦ elim none_left [ ]
            ]
          ];
  }

  Step-IsConsistent :
      {s t : System store} → Step store s t → IsConsistent store s → IsConsistent store t
  unfolding succeeded failed_request fail_all_pending
  Step-IsConsistent {s} (round now) v = round-IsConsistent now s v
  Step-IsConsistent {s} (success r) v =
      update-IsConsistent _ _ s.db s.dispatched (λ row. inl refl) v
  Step-IsConsistent {s} (failure r) v =
      update-IsConsistent _ _ s.db s.dispatched (λ row. inl refl) v
  Step-IsConsistent {s} (submit r done fresh) v = submit-IsConsistent r s done fresh v
  Step-IsConsistent {s} clean_up v = update-IsConsistent _ _ s.db s.dispatched (λ row. inl refl) v

  Reach-IsConsistent :
      {s t : System store} → IsConsistent store s → Reach store s t → IsConsistent store t
  Reach-IsConsistent v begin = v
  Reach-IsConsistent v (next r step) = Step-IsConsistent step (Reach-IsConsistent v r)

  -- Where no query and no update of the table of requests fails: whatever rounds of the loop, verdicts,
  -- new requests under fresh IDs and clean-ups follow one another, no request is handed to a handler
  -- twice.
  pub dispatched_once :
      (db : Db) (t : System store)
      → Reach store (record { db = db; dispatched = [] }) t
      → Distinct t.dispatched
  dispatched_once db t reach =
      (Reach-IsConsistent
        (record { distinct = tt; no_longer_waiting = λ r present listed. elim listed [ ] })
        reach).distinct
