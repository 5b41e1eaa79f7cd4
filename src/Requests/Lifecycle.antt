-- ===== src/Requests/Lifecycle.antt =====
-- How a request of cirrinad/requests/requests.go moves from created to started to complete.
use mathlib.Core.Bool.{false≢true}
use mathlib.Core.Path.{subst}
use mathlib.Core.Option
use cirrina.Prelude.{
  ℕ, String, ◌≡◌, refl, ◌∙◌, sym, ap, ◌≢◌, ◌⊎◌, inl, inr, Bool, true, false, not, some, List, [],
  ◌∷◌, arith, str_eq, eq_iff, if◌then◌else◌, Bool-cases, Option-cases, All, Member, here, there,
}
use cirrina.Store.{Store, StoreLaws, Reliable, change_where, Member-change_where, rows-update}
use cirrina.Requests.{Request, zero_request, updates, first_where, unstarted}
use cirrina.Requests.Queue.{
  or_zero, get_un_started, pending_req_exists, fail_all_pending, succeeded, failed_request,
}
use cirrina.Requests.Pending.{pending_req_exists_iff}

pub first_where_sound {ℓ} :
    {A : Type ℓ} (p : A → Bool) (r : A) (rs : List A)
    → first_where p rs ≡ some r
    → Member r rs × (p r ≡ true)
unfolding first_where
first_where_sound p r [] e = absurd (cc)
first_where_sound p r (x ∷ xs) e = elim (Bool-cases (p x)) [
  | inl passes ↦ (here (ground arith), ground arith)
  | inr fails ↦
      let (found, passes) = first_where_sound p r xs (ground arith) in (there found, passes)
]

-- The row that is written when a request ends.
abbrev ended : Bool → Request
ended success = record zero_request { successful = success; complete = true }

ended_row :
    (success : Bool) (k : String) (s row : Request)
    → s ≡ (if str_eq row.id k then updates (ended success) row else row)
    → k ≡ s.id
    → s.complete ≡ true
unfolding updates
ended_row success k s row e same = ground (arith, eq_iff row.id k)

pub started_row :
    (r s row : Request) (now : ℕ)
    → s ≡ (if str_eq row.id r.id then updates (record r { started_at = some now }) row else row)
    → unstarted s ≡ true
    → s.id ≢ r.id
unfolding updates
started_row r s row now e fresh = ground (arith, eq_iff row.id r.id)

-- The mark of `FailAllPending`.
abbrev pub completed : Request → Request
completed r = record r { complete = true }

mark_row :
    (r : Request)
    → (if not r.complete then updates (record zero_request { complete = true }) r else r)
      ≡ completed r
unfolding updates
mark_row r = ground arith

first_completed :
    (rs : List Request)
    → first_where unstarted
        (change_where (λ r. not r.complete) (updates (record zero_request { complete = true })) rs)
      ≡ Option.map completed (first_where unstarted rs)
unfolding first_where
first_completed [] = refl
first_completed (r ∷ rs) = rw (mark_row r) (ground (arith, first_completed rs))

All-completed :
    (rs : List Request)
    → All
        (λ r. r.complete ≡ true)
        (change_where (λ r. not r.complete) (updates (record zero_request { complete = true })) rs)
All-completed [] = tt
All-completed (r ∷ rs) = (rw (mark_row r) refl, All-completed rs)

module _ (store : Store Request) (laws : StoreLaws store) (works : Reliable store) where
  open store use {Db, rows, query_fails, update}

  -- What `GetUnStarted` hands out.
  pub un_started_cases :
      (db : Db)
      → (get_un_started store db ≡ zero_request)
        ⊎ ((s : Request) × Member s (rows db)
            × (unstarted s ≡ true)
            × (get_un_started store db ≡ s))
  unfolding get_un_started
  un_started_cases db = elim (Option-cases (first_where unstarted (rows db))) [
    | inl nothing ↦ inl (rw (works.query_works db, nothing))
    | inr (s, found) ↦
        let (present, fresh) = first_where_sound unstarted s (rows db) found in
        inr (s, present, fresh, rw (works.query_works db, found))
  ]

  pub row_of_update :
      (p : Request → Bool) (f : Request → Request) (db : Db) (s : Request)
      → Member s (rows (update p f db).1)
      → (row : Request) × Member row (rows db) × (s ≡ (if p row then f row else row))
  row_of_update p f db s m =
      Member-change_where p f s (rows db)
        (subst (λ l. Member s l) (rows-update store laws works p f db) m)

  ended_update :
      (success : Bool) (r : Request) (db : Db) (obj : String)
      → ¬ Member r.id (
          pending_req_exists store obj
            (update (λ row. str_eq row.id r.id) (updates (ended success)) db).1)
  ended_update success r db obj m =
      let p : Request → Bool = λ row. str_eq row.id r.id in
      let f = updates (ended success) in
      let after = (update p f db).1 in
      let (s, present, same, pending) =
        (pending_req_exists_iff store obj r.id after (works.query_works after)).0 m in
      let (row, _, changed) = row_of_update p f db s present in
      false≢true (sym pending.not_complete ∙ ended_row success r.id s row changed same)

  -- Where no query and no update of the table of requests fails, a request that was marked as
  -- succeeded or as failed is pending for no object.
  pub ended-not-pending :
      (r : Request) (db : Db) (obj : String)
      → (¬ Member r.id (pending_req_exists store obj (succeeded store r db)))
        × (¬ Member r.id (pending_req_exists store obj (failed_request store r db)))
  unfolding succeeded failed_request
  ended-not-pending r db obj = (ended_update true r db obj, ended_update false r db obj)

  -- Where no query and no update of the table of requests fails, `FailAllPending` makes every request
  -- complete and starts none of them, so a request that was waiting is still the one that the loop
  -- takes next, now marked complete.
  pub fail_all_pending-keeps_waiting :
      (db : Db)
      → All (λ r. r.complete ≡ true) (rows (fail_all_pending store db).1)
        × (get_un_started store (fail_all_pending store db).1
            ≡ or_zero (Option.map completed (first_where unstarted (rows db))))
  unfolding fail_all_pending get_un_started
  fail_all_pending-keeps_waiting db =
      let p : Request → Bool = λ r. not r.complete in
      let f = updates (record zero_request { complete = true }) in
      let after = rows-update store laws works p f db in
      (
        rw after (All-completed (rows db)),
        rw (works.query_works (update p f db).1, after) (ap or_zero (first_completed (rows db))),
      )
