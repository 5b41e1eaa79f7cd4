-- ===== src/Requests/Exclusion.antt =====
-- What the handlers of cirrinad/vmops.go and cirrinad/diskops.go do about requests that compete for
-- one object.
use cirrina.Prelude.{
  ℕ, String, ◌≡◌, refl, ◌≢◌, ◌⊎◌, true, false, some, List, [], ◌∷◌, arith, eq_iff, Member, here,
  there, Option, none, not, Member-cons, inl, inr, if_split, option_split, false,
}
use cirrina.Store.{Store}
use cirrina.Requests.{
  Request, ReqType, vmstart, vmstop, vmdelete, nicclone, diskwipe, other, unmarshal,
}
use cirrina.Requests.Queue.{pending_req_exists, succeeded, failed_request}
use cirrina.Requests.Pending.{IsPendingFor, pending_req_exists_iff}
use cirrina.Requests.Handlers.{
  VmOps, DiskOps, DevType, file, zvol, other_pending, handle_start, handle_stop, handle_delete,
  disk_data, disk_wipe, wipe_backing, wipe_disk, is_diskwipe,
}

other_pending_of_Member :
    (me i : String) (ids : List String) → Member i ids → i ≢ me → other_pending me ids ≡ true
unfolding other_pending
other_pending_of_Member me i [] m h = elim m [ ]
other_pending_of_Member me i (j ∷ ids) (here e) h = ground (arith, eq_iff j me)
other_pending_of_Member me i (j ∷ ids) (there m) h =
    ground (arith, other_pending_of_Member me i ids m h)

module _ (store : Store Request) (vms : VmOps) where
  open store use {Db, rows, query_fails}
  open vms use {World, known}

  competing :
      (request rival : Request) (id : String) (db : Db)
      → query_fails db ≡ false
      → Member rival (rows db)
      → IsPendingFor id rival
      → rival.id ≢ request.id
      → other_pending request.id (pending_req_exists store id db) ≡ true
  competing request rival id db readable m p h =
      other_pending_of_Member request.id rival.id (pending_req_exists store id db)
        ((pending_req_exists_iff store id rival.id db readable).1 (rival, m, refl, p)) h

  -- While another incomplete request is about the same VM and the table of requests can be read, a
  -- request to start, stop or delete a VM that is listed is marked failed and no VM is touched.
  pub handlers_exclusive :
      (request rival : Request) (id : String) (w : World) (db : Db)
      → unmarshal "vm_id" request.payload ≡ some id
      → known id w ≡ true
      → query_fails db ≡ false
      → Member rival (rows db)
      → IsPendingFor id rival
      → rival.id ≢ request.id
      → (handle_start store vms request (w, db) ≡ (w, failed_request store request db))
        × (handle_stop store vms request (w, db) ≡ (w, failed_request store request db))
        × (handle_delete store vms request (w, db) ≡ (w, failed_request store request db))
  unfolding handle_start handle_stop handle_delete
  handlers_exclusive request rival id w db read is_known readable m p h =
      let busy = competing request rival id db readable m p h in
      (
        rw (read, is_known, busy, handle_start),
        rw (read, is_known, busy, handle_stop),
        rw (read, is_known, busy, handle_delete),
      )

no_other :
    (me : String) (ids : List String)
    → other_pending me ids ≡ false
    → (i : String) → Member i ids
    → i ≡ me
unfolding other_pending
no_other me [] free i m = elim m [ ]
no_other me (j ∷ ids) free i m = elim (Member-cons m) [
  | inl same ↦ ground (arith, eq_iff j me)
  | inr later ↦ no_other me ids (ground arith) i later
]

module _ (store : Store Request) (disks : DiskOps) where
  open store use {Db, rows, query_fails}
  open disks use {World, dev_type, get_size, remove_backing, create_backing}

  -- No other incomplete request is about the disk.
  abbrev pub OnlyOneFor : String → Request → Db → Type 0
  OnlyOneFor id request db =
      (rival : Request) → Member rival (rows db) → IsPendingFor id rival → rival.id ≡ request.id

  -- The disk that the request names has a backing of a known size, which was removed and created
  -- anew at that size, and the request is marked as a success.
  abbrev pub IsWiped : Request → World → Db → World × Db → Type 0
  IsWiped request w db out =
      (id : String) × (dev : DevType) × (size : ℕ) × (request.req_type ≡ diskwipe)
      × (unmarshal "disk_id" request.payload ≡ some id)
      × (dev_type id w ≡ some dev)
      × (get_size dev id w ≡ some size)
      × OnlyOneFor id request db
      × (out ≡ (
        (create_backing dev id size (remove_backing dev id w).1).1,
        succeeded store request db,
      ))

  -- No disk is touched; the request is marked as failed, or stays as it was.
  abbrev pub IsRefused : Request → World → Db → World × Db → Type 0
  IsRefused request w db out = (out ≡ (w, failed_request store request db)) ⊎ (out ≡ (w, db))

  abbrev pub Outcome : Request → World → Db → World × Db → Type 0
  Outcome request w db out = IsRefused request w db out ⊎ IsWiped request w db out

  only_one :
      (request : Request) (id : String) (db : Db)
      → query_fails db ≡ false
      → other_pending request.id (pending_req_exists store id db) ≡ false
      → OnlyOneFor id request db
  only_one request id db readable free rival m p =
      no_other request.id (pending_req_exists store id db) free rival.id
        ((pending_req_exists_iff store id rival.id db readable).1 (rival, m, refl, p))

  wipe_backing-Outcome :
      (request : Request) (id : String) (dev : DevType) (w : World) (db : Db)
      → request.req_type ≡ diskwipe
      → unmarshal "disk_id" request.payload ≡ some id
      → dev_type id w ≡ some dev
      → OnlyOneFor id request db
      → Outcome request w db (wipe_backing store disks request dev id w db)
  unfolding wipe_backing
  wipe_backing-Outcome request id dev w db t named d alone =
      option_split (Outcome request w db) (get_size dev id w) (λ _. inl (inr refl))
        (λ size s. inr (id, dev, size, t, named, d, s, alone, refl))

  wipe_disk-Outcome :
      (request : Request) (id : String) (dev : DevType) (w : World) (db : Db)
      → request.req_type ≡ diskwipe
      → unmarshal "disk_id" request.payload ≡ some id
      → dev_type id w ≡ some dev
      → OnlyOneFor id request db
      → Outcome request w db (wipe_disk store disks request id dev w db)
  unfolding wipe_disk
  wipe_disk-Outcome request id file w db = wipe_backing-Outcome request id file w db
  wipe_disk-Outcome request id zvol w db = wipe_backing-Outcome request id zvol w db
  wipe_disk-Outcome request id (DevType.invalid t) w db = λ wipe named d alone. inl (inr refl)

  diskwipe_of : (t : ReqType) → is_diskwipe t ≡ true → t ≡ diskwipe
  unfolding is_diskwipe
  diskwipe_of diskwipe e = refl
  diskwipe_of vmstart e = absurd (cc)
  diskwipe_of vmstop e = absurd (cc)
  diskwipe_of vmdelete e = absurd (cc)
  diskwipe_of nicclone e = absurd (cc)
  diskwipe_of (other t) e = absurd (cc)

  named_of : (a b : Option String) (id : String) → disk_data a b ≡ some id → a ≡ some id
  named_of (some x) (some y) id e = e
  named_of none b id e = absurd (cc)
  named_of (some x) none id e = absurd (cc)

  -- Where the table of requests can be read, a wipe either touches no disk and marks its request
  -- failed or leaves it as it was, or the request is a wipe of a disk with a backing of known size
  -- that no other incomplete request is about: then the backing is removed and created anew at that
  -- size, and the request is marked a success, whether or not these two calls failed.
  pub disk_wipe-Outcome :
      (request : Request) (w : World) (db : Db)
      → query_fails db ≡ false
      → Outcome request w db (disk_wipe store disks request (w, db))
  unfolding disk_wipe
  disk_wipe-Outcome request w db readable =
      let P = Outcome request w db in
      let refused : P (w, failed_request store request db) = inl (inl refl) in
      let first = unmarshal "disk_id" request.payload in
      let second = unmarshal "new_disk_name" request.payload in
      if_split P (not (is_diskwipe request.req_type)) (λ _. refused)
        (λ wipe.
          option_split P (disk_data first second) (λ _. refused)
            (λ id read.
              option_split P (dev_type id w) (λ _. refused)
                (λ dev d.
                  if_split P (other_pending request.id (pending_req_exists store id db))
                    (λ _. refused)
                    (λ free.
                      wipe_disk-Outcome request id dev w db
                        (diskwipe_of request.req_type (ground arith))
                        (named_of first second id read) d (only_one request id db readable free)))))
