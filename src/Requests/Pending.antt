-- ===== src/Requests/Pending.antt =====
-- Which requests `PendingReqExists` of cirrinad/requests/requests.go reports.
use mathlib.Core.Bool.{false≢true}
use mathlib.Core.Path.{subst}
use cirrina.Prelude.{
  String, ◌≡◌, refl, ◌∙◌, sym, ap, ◌↔◌, ◌⊎◌, inl, inr, true, false, Option, none, some, List, [],
  ◌∷◌, arith, eq_iff, Bool-cases, Member, here, there, Member-cons,
}
use cirrina.Store.{Store}
use cirrina.Requests.{
  Request, ReqType, vmstart, vmstop, vmdelete, nicclone, diskwipe, other, Payload, unmarshal,
  is_read, other_fields_read, is_nicclone, target_of, target, is_about, pending_ids,
}
use cirrina.Requests.Queue.{pending_req_exists}

-- The data holds a text, or no value, which is the empty text, under a key.
abbrev IsText : String → Payload → Type 0
IsText key p = (s : String) × (unmarshal key p ≡ some s)

-- The data of a request of a type names the object: under "vm_id" for a VM, "disk_id" for a disk and
-- "nic_id" for a NIC, where the other fields of the clone must be texts as well.
abbrev pub IsAbout : String → ReqType → Payload → Type 0
IsAbout obj vmstart p = unmarshal "vm_id" p ≡ some obj
IsAbout obj vmstop p = unmarshal "vm_id" p ≡ some obj
IsAbout obj vmdelete p = unmarshal "vm_id" p ≡ some obj
IsAbout obj nicclone p =
    (unmarshal "nic_id" p ≡ some obj)
    × IsText "new_nic_name" p
    × IsText "new_nic_mac" p
    × IsText "new_nic_desc" p
IsAbout obj diskwipe p = unmarshal "disk_id" p ≡ some obj
IsAbout obj (other t) p = ⊥

-- A row that is not complete and is about `obj`.
pub record IsPendingFor (obj : String) (r : Request) : Type 0 where
  pub not_complete : r.complete ≡ false
  pub about : IsAbout obj r.req_type r.payload

abbrev IsSome : Option String → Type 0
IsSome o = (s : String) × (o ≡ some s)

is_read_lem : (a b c : Option String) → is_read a b c ≡ true → IsSome a × IsSome b × IsSome c
is_read_lem (some x) (some y) (some z) h = ((x, refl), (y, refl), (z, refl))
is_read_lem none b c h = absurd (cc)
is_read_lem (some x) none c h = absurd (cc)
is_read_lem (some x) (some y) none h = absurd (cc)

all_read : (a b c : Option String) → IsSome a → IsSome b → IsSome c → is_read a b c ≡ true
all_read a b c (x, ex) (y, ey) (z, ez) = rw (ex, ey, ez) refl

target-IsAbout :
    (obj : String) (t : ReqType) (p : Payload) → (target_of t p ≡ some obj) ↔ IsAbout obj t p
unfolding target_of is_nicclone
target-IsAbout obj vmstart p = ((λ e. e), λ e. e)
target-IsAbout obj vmstop p = ((λ e. e), λ e. e)
target-IsAbout obj vmdelete p = ((λ e. e), λ e. e)
target-IsAbout obj diskwipe p = ((λ e. e), λ e. e)
target-IsAbout obj (other t) p = ((λ e. cc), λ e. elim e [ ])
target-IsAbout obj nicclone p =
    let name = unmarshal "new_nic_name" p in
    let mac = unmarshal "new_nic_mac" p in
    let desc = unmarshal "new_nic_desc" p in
    elim (Bool-cases (other_fields_read p)) [
      | inl read ↦ (
        (λ e.
            let (n, m, d) = is_read_lem name mac desc read in
            let named : unmarshal "nic_id" p ≡ some obj = ground arith in (named, n, m, d)),
        λ (e, _, _, _). rw read e,
      )
      | inr unread ↦ (
        (λ e. absurd (ground arith)),
        λ (_, n, m, d). absurd (false≢true (sym unread ∙ all_read name mac desc n m d)),
      )
    ]

about_iff : (o : Option String) (obj : String) → (is_about o obj ≡ true) ↔ (o ≡ some obj)
about_iff none obj = ((λ e. cc), λ e. cc)
about_iff (some o) obj = ground (arith, eq_iff o obj)

pending_step :
    (obj : String) (r : Request) (rs : List Request)
    → (IsPendingFor obj r × (pending_ids obj (r ∷ rs) ≡ r.id ∷ pending_ids obj rs))
      ⊎ ((¬ IsPendingFor obj r) × (pending_ids obj (r ∷ rs) ≡ pending_ids obj rs))
unfolding pending_ids target
pending_step obj r rs = elim (Bool-cases r.complete) [
  | inl done ↦ inr ((λ p. false≢true (sym p.not_complete ∙ done)), rw done)
  | inr open_still ↦ elim (Bool-cases (is_about (target r) obj)) [
    | inl yes_about ↦ inl (
      record {
        not_complete = open_still;
        about =
            (target-IsAbout obj r.req_type r.payload).0 ((about_iff (target r) obj).0 yes_about);
      },
      rw (open_still, yes_about),
    )
    | inr not_about ↦ inr (
      (λ p. false≢true (
          sym not_about
          ∙ (about_iff (target r) obj).1 ((target-IsAbout obj r.req_type r.payload).1 p.about))),
      rw (open_still, not_about),
    )
  ]
]

-- An ID in the list belongs to a row that is pending for the object.
Listed : String → String → List Request → Type 0
Listed obj i rs = (r : Request) × Member r rs × (i ≡ r.id) × IsPendingFor obj r

later : (obj i : String) (r : Request) (rs : List Request) → Listed obj i rs → Listed obj i (r ∷ rs)
unfolding Listed
later obj i r rs (s, m, same, p) = (s, there m, same, p)

pending_nil : (obj i : String) → ¬ Member i (pending_ids obj [])
unfolding pending_ids
pending_nil obj i m = elim m [ ]

pending_sound :
    (obj i : String) (rs : List Request) → Member i (pending_ids obj rs) → Listed obj i rs
pending_sound obj i [] m = absurd (pending_nil obj i m)
pending_sound obj i (r ∷ rs) m = elim (pending_step obj r rs) [
  | inl (p, same) ↦ elim (Member-cons (subst (λ l. Member i l) same m)) [
    | inl e ↦ unfold Listed in (r, here refl, e, p)
    | inr m' ↦ later obj i r rs (pending_sound obj i rs m')
  ]
  | inr (_, same) ↦ later obj i r rs (pending_sound obj i rs (subst (λ l. Member i l) same m))
]

pending_complete :
    (obj : String) (r : Request) (rs : List Request)
    → Member r rs
    → IsPendingFor obj r
    → Member r.id (pending_ids obj rs)
pending_complete obj r [] m p = elim m [ ]
pending_complete obj r (s ∷ rs) (here e) p = elim (pending_step obj s rs) [
  | inl (_, same) ↦ rw same (here (ap (λ x. x.id) e))
  | inr (not_p, _) ↦ absurd (not_p (subst (λ x. IsPendingFor obj x) e p))
]
pending_complete obj r (s ∷ rs) (there m) p = elim (pending_step obj s rs) [
  | inl (_, same) ↦ rw same (there (pending_complete obj r rs m p))
  | inr (_, same) ↦ rw same (pending_complete obj r rs m p)
]

from_Listed : (obj i : String) (rs : List Request) → Listed obj i rs → Member i (pending_ids obj rs)
unfolding Listed
from_Listed obj i rs (r, m, same, p) = rw same (pending_complete obj r rs m p)

module _ (store : Store Request) where
  open store use {Db, rows, query_fails, create, update}

  -- Where the table can be read, the IDs reported for an object are exactly those of the rows that are
  -- not complete and whose data names that object, under the key of the request's type, and for a
  -- clone of a NIC is readable in its other fields too.
  pub pending_req_exists_iff :
      (obj i : String) (db : Db)
      → query_fails db ≡ false
      → Member i (pending_req_exists store obj db)
        ↔ ((r : Request) × Member r (rows db) × (i ≡ r.id) × IsPendingFor obj r)
  unfolding pending_req_exists Listed
  pending_req_exists_iff obj i db readable =
      rw readable (pending_sound obj i (rows db), from_Listed obj i (rows db))
