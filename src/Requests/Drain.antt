-- ===== src/Requests/Drain.antt =====
-- The loop of cirrinad/reqproc.go over several rounds, while nobody else touches the table.
use cirrina.Prelude.{
  ℕ, suc, ◌≤◌, ◌<◌, String, ◌≡◌, refl, ◌∙◌, sym, ap, ◌≢◌, inl, inr, Bool, true, false, Option, none,
  some, List, [], ◌∷◌, arith, str_eq, eq_iff, if◌then◌else◌, Bool-cases, Option-cases, All,
  All-Member, Member, here, there, length, if_split,
}
use cirrina.Store.{Store, StoreLaws, Reliable, change_where, rows-update}
use cirrina.Requests.{Request, updates, unstarted, first_where}
use cirrina.Requests.Queue.{get_un_started, start}
use cirrina.Requests.Lifecycle.{first_where_sound}
use cirrina.Requests.Dispatch.{System, poll, poll_idle, poll_busy}

-- How many requests have not been started.
abbrev pub waiting : List Request → ℕ
waiting [] = 0
waiting (r ∷ rs) = if unstarted r then suc (waiting rs) else waiting rs

-- The row of `Start`, at a time.
abbrev stamped : ℕ → Request → Request
stamped now q = record q { started_at = some now }

abbrev started_rows : ℕ → Request → List Request → List Request
started_rows now q rs = change_where (λ row. str_eq row.id q.id) (updates (stamped now q)) rs

waiting_some : (r : Request) (rs : List Request) → Member r rs → unstarted r ≡ true → 0 < waiting rs
waiting_some r [] m h = elim m [ ]
waiting_some r (x ∷ rs) (here e) h = rw (sym e, h) (omega arith)
waiting_some r (x ∷ rs) (there m) h =
    if_split (λ (n : ℕ). 0 < n) (unstarted x) (λ _. omega arith) (λ _. waiting_some r rs m h)

first_where-none {ℓ} :
    {A : Type ℓ} (p : A → Bool) (r : A) (rs : List A)
    → Member r rs
    → p r ≡ true
    → first_where p rs ≢ none
unfolding first_where
first_where-none {A = A} p r [] m h = elim m [ ]
first_where-none {A = A} p r (x ∷ rs) (here e) h = rw (sym e, h) λ nothing. cc
first_where-none {A = A} p r (x ∷ rs) (there m) h =
    if_split (λ (o : Option A). o ≢ none) (p x) (λ _ nothing. cc) (λ _. first_where-none p r rs m h)

change_where-Member {ℓ} :
    {A : Type ℓ} (p : A → Bool) (f : A → A) (r : A) (rs : List A)
    → Member r rs
    → p r ≡ false
    → Member r (change_where p f rs)
change_where-Member p f r [] m h = elim m [ ]
change_where-Member p f r (x ∷ rs) (here e) h = here (rw (sym e, h) refl)
change_where-Member p f r (x ∷ rs) (there m) h = there (change_where-Member p f r rs m h)

started_one :
    (now : ℕ) (q row : Request)
    → unstarted (if str_eq row.id q.id then updates (stamped now q) row else row) ≡ true
    → unstarted row ≡ true
unfolding updates
started_one now q row h = ground arith

waiting-started_le :
    (now : ℕ) (q : Request) (rs : List Request) → waiting (started_rows now q rs) ≤ waiting rs
unfolding updates
waiting-started_le now q [] = omega arith
waiting-started_le now q (r ∷ rs) = ground (arith, waiting-started_le now q rs)

waiting-started :
    (now : ℕ) (q : Request) (rs : List Request)
    → Member q rs
    → unstarted q ≡ true
    → waiting (started_rows now q rs) < waiting rs
unfolding updates
waiting-started now q [] m h = elim m [ ]
waiting-started now q (r ∷ rs) (here e) h =
    rw (sym e, h) ground (arith, eq_iff q.id q.id, waiting-started_le now q rs)
waiting-started now q (r ∷ rs) (there m) h = ground (arith, waiting-started now q rs m h)

abbrev pub AllNamed : List Request → Type 0
AllNamed rs = All (λ r. r.id ≢ "") rs

named_row :
    (now : ℕ) (q row : Request)
    → q.id ≢ ""
    → row.id ≢ ""
    → (if str_eq row.id q.id then updates (stamped now q) row else row).id ≢ ""
unfolding updates
named_row now q row hq hr = ground (arith, eq_iff row.id q.id, eq_iff q.id "")

started-AllNamed :
    (now : ℕ) (q : Request) (rs : List Request)
    → q.id ≢ ""
    → AllNamed rs
    → AllNamed (started_rows now q rs)
started-AllNamed now q [] hq h = tt
started-AllNamed now q (r ∷ rs) hq h = (named_row now q r hq h.0, started-AllNamed now q rs hq h.1)

not_blank : (i : String) → i ≢ "" → str_eq i "" ≡ false
not_blank i named = ground (arith, eq_iff i "")

module _ (store : Store Request) where
  open store use {rows}

  -- Rounds of the loop at the given times.
  pub polls : List ℕ → System store → System store
  polls [] s = s
  polls (now ∷ times) s = polls times (poll store now s)

module _ (store : Store Request) (laws : StoreLaws store) (works : Reliable store) where
  open store use {Db, rows, update}

  poll-keeps :
      (now : ℕ) (s : System store) (i : String)
      → Member i s.dispatched
      → Member i (poll store now s).dispatched
  poll-keeps now s i m = elim (Bool-cases (str_eq (get_un_started store s.db).id "")) [
    | inl idle ↦ rw (poll_idle store laws works now s idle) m
    | inr busy ↦ rw (poll_busy store laws works now s busy) (there m)
  ]

  polls-keeps :
      (times : List ℕ) (s : System store) (i : String)
      → Member i s.dispatched
      → Member i (polls store times s).dispatched
  unfolding polls
  polls-keeps [] s i m = m
  polls-keeps (now ∷ times) s i m = polls-keeps times (poll store now s) i (poll-keeps now s i m)

  -- The row that a round takes, when some row waits.
  taken :
      (s : System store) (r : Request)
      → Member r (rows s.db)
      → unstarted r ≡ true
      → (q : Request) × Member q (rows s.db)
        × (unstarted q ≡ true)
        × (get_un_started store s.db ≡ q)
  unfolding get_un_started
  taken s r m h = elim (Option-cases (first_where unstarted (rows s.db))) [
    | inl nothing ↦ absurd (first_where-none unstarted r (rows s.db) m h nothing)
    | inr (q, found) ↦
        let (present, fresh) = first_where_sound unstarted q (rows s.db) found in
        (q, present, fresh, rw (works.query_works s.db, found))
  ]

  -- What a round with a waiting row leaves behind.
  poll_taken :
      (now : ℕ) (s : System store) (q : Request)
      → q.id ≢ ""
      → get_un_started store s.db ≡ q
      → (rows (poll store now s).db ≡ started_rows now q (rows s.db))
        × ((poll store now s).dispatched ≡ q.id ∷ s.dispatched)
  unfolding start
  poll_taken now s q named e =
      let busy = ap (λ r. str_eq r.id "") e ∙ not_blank q.id named in
      let step = poll_busy store laws works now s busy in
      (
        ap (λ t. rows t.db) step
            ∙ rw (e) (
                rows-update store laws works (λ row. str_eq row.id q.id) (updates (stamped now q))
                  s.db),
        ap (λ t. t.dispatched) step ∙ rw (e) refl,
      )

  -- Every request that waits is handed to a handler within as many rounds of the loop as there are
  -- waiting requests, if no statement on the database fails, every row has an ID and nothing else
  -- changes the table meanwhile.
  pub drained :
      (times : List ℕ) (s : System store) (r : Request)
      → AllNamed (rows s.db)
      → waiting (rows s.db) ≤ length times
      → Member r (rows s.db)
      → unstarted r ≡ true
      → Member r.id (polls store times s).dispatched
  unfolding polls
  drained [] s r named enough m h = absurd (omega (arith, waiting_some r (rows s.db) m h))
  drained (now ∷ times) s r named enough m h =
      let (q, present, fresh, e) = taken s r m h in
      let q_named = All-Member (λ row. row.id ≢ "") q (rows s.db) named present in
      let (left, handed) = poll_taken now s q q_named e in
      elim (Bool-cases (str_eq r.id q.id)) [
        | inl same ↦
            polls-keeps times (poll store now s) r.id
              (rw (handed) (here ((eq_iff r.id q.id).0 same)))
        | inr other ↦
            drained times (poll store now s) r
              (rw (left) (started-AllNamed now q (rows s.db) q_named named))
              (rw (left) (omega (arith, enough, waiting-started now q (rows s.db) present fresh)))
              (rw (left) (
                change_where-Member (λ row. str_eq row.id q.id) (updates (stamped now q)) r
                  (rows s.db) m other))
              h
      ]
