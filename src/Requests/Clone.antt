-- ===== src/Requests/Clone.antt =====
-- The handler of a request to clone a NIC: `nicClone` of cirrinad/nicops.go.
use mathlib.Core.Path.{subst}
use cirrina.Prelude.{
  String, ◌≡◌, refl, sym, some-injective, ◌∙◌, Bool, not, ◌||◌, none, some, [], ◌∷◌, ◌++◌, str_eq,
  if◌then◌else◌, if_both, option_both, option_split, Result, ok, err,
}
use cirrina.Store.{Store, StoreLaws}
use cirrina.Util.Name.{valid_nic_name}
use cirrina.Vmnic.{VmNic, NicError, nic_not_found, parse_nic_mac}
use cirrina.Vmnic.Table.{get_by_name, get_by_id, create}
use cirrina.Vmnic.TableLaws.{IsCreated, create-IsCreated}
use cirrina.Requests.{Request, unmarshal, is_nicclone, other_fields_read}
use cirrina.Requests.Queue.{pending_req_exists, succeeded, failed_request}
use cirrina.Requests.Handlers.{other_pending}

-- The copy that is handed to `Create`.
unfoldable pub cloned : VmNic → String → String → VmNic
cloned source mac name = record source { id = ""; mac = mac; name = name; config_id = 0 }

module _ (store : Store Request) (nics : Store VmNic) (id_ok : String → Bool)
    (new_id : String) where
  -- The table of NICs and that of requests.
  abbrev pub Tables : Type 0
  Tables = nics.Db × store.Db

  clone_created : Request → Result NicError VmNic × nics.Db → store.Db → Tables
  clone_created request (err e, table) db = (table, failed_request store request db)
  clone_created request (ok nic, table) db = (table, succeeded store request db)

  clone_mac : Request → VmNic → String → Result NicError String → Tables → Tables
  unfolding clone_created cloned
  clone_mac request source name (err e) (table, db) = (table, failed_request store request db)
  clone_mac request source name (ok mac) (table, db) =
      clone_created request (create nics id_ok new_id (cloned source mac name) table) db

  clone_named : Request → VmNic → String → Tables → Tables
  unfolding clone_mac
  clone_named request source name (table, db) =
      if str_eq name "" || not (valid_nic_name name)
      then (table, failed_request store request db)
      else clone_mac request source name (parse_nic_mac source.mac) (table, db)

  -- The test on a NIC that has the new name already is for the empty name, as in the source.
  clone_checked : Request → VmNic → String → Result NicError VmNic → Tables → Tables
  unfolding clone_named
  clone_checked request source name (ok existing) (table, db) =
      if str_eq existing.name ""
      then (table, failed_request store request db)
      else clone_named request source name (table, db)
  clone_checked request source name (err nic_not_found) (table, db) =
      clone_named request source name (table, db)
  clone_checked request source name (err e) (table, db) = (table, failed_request store request db)

  clone_source : Request → String → Result NicError VmNic → Tables → Tables
  unfolding clone_checked
  clone_source request name (err e) (table, db) = (table, failed_request store request db)
  clone_source request name (ok source) (table, db) =
      if other_pending request.id (pending_req_exists store source.id db)
      then (table, failed_request store request db)
      else clone_checked request source name (get_by_name nics name table) (table, db)

  unfoldable pub nic_clone : Request → Tables → Tables
  unfolding clone_source is_nicclone
  nic_clone request (table, db) =
      if not (is_nicclone request.req_type) || not (other_fields_read request.payload)
      then (table, failed_request store request db)
      else elim (unmarshal "nic_id" request.payload) [
        | none ↦ (table, failed_request store request db)
        | some nic_id ↦ elim (unmarshal "new_nic_name" request.payload) [
          | none ↦ (table, failed_request store request db)
          | some name ↦ clone_source request name (get_by_id nics nic_id table) (table, db)
        ]
      ]

  module _ (laws : StoreLaws nics) (request : Request) (table : nics.Db) (db : store.Db) where
    -- The request failed, or it succeeded and one NIC of that name was added, attached to no VM.
    pub data Outcome (name : String) (r : Tables) : Type 0 where
      refused : r.1 ≡ failed_request store request db → Outcome name r
      added :
          (after : VmNic)
          → r.1 ≡ succeeded store request db
          → nics.rows r.0 ≡ nics.rows table ++ after ∷ []
          → after.name ≡ name
          → after.config_id ≡ 0
          → Outcome name r

    clone_created-Outcome :
        (nic : VmNic) (made : Result NicError VmNic × nics.Db)
        → nic.config_id ≡ 0
        → ((after : VmNic)
            → made.0 ≡ ok after
            → IsCreated nic after (nics.rows table) (nics.rows made.1))
        → Outcome nic.name (clone_created request made db)
    unfolding clone_created
    clone_created-Outcome nic (err e, after_table) free made = refused refl
    clone_created-Outcome nic (ok after, after_table) free made =
        let facts = made after refl in
        added after refl facts.one_more facts.name_kept (facts.config_kept ∙ free)

    clone_mac-Outcome :
        (source : VmNic) (name : String) (mac : Result NicError String)
        → Outcome name (clone_mac request source name mac (table, db))
    unfolding clone_mac cloned
    clone_mac-Outcome source name (err e) = refused refl
    clone_mac-Outcome source name (ok mac) =
        let nic = cloned source mac name in
        clone_created-Outcome nic (create nics id_ok new_id nic table) refl
          (λ after same. create-IsCreated nics laws id_ok new_id nic after table same)

    clone_named-Outcome :
        (source : VmNic) (name : String)
        → Outcome name (clone_named request source name (table, db))
    unfolding clone_named
    clone_named-Outcome source name =
        if_both (Outcome name) (str_eq name "" || not (valid_nic_name name)) (refused refl)
          (clone_mac-Outcome source name (parse_nic_mac source.mac))

    clone_checked-Outcome :
        (source : VmNic) (name : String) (existing : Result NicError VmNic)
        → Outcome name (clone_checked request source name existing (table, db))
    unfolding clone_checked
    clone_checked-Outcome source name (ok existing) =
        if_both (Outcome name) (str_eq existing.name "") (refused refl)
          (clone_named-Outcome source name)
    clone_checked-Outcome source name (err nic_not_found) = clone_named-Outcome source name
    clone_checked-Outcome source name (err e) = refused refl

    clone_source-Outcome :
        (name : String) (source : Result NicError VmNic)
        → Outcome name (clone_source request name source (table, db))
    unfolding clone_source
    clone_source-Outcome name (err e) = refused refl
    clone_source-Outcome name (ok source) =
        if_both (Outcome name) (other_pending request.id (pending_req_exists store source.id db))
          (refused refl) (clone_checked-Outcome source name (get_by_name nics name table))

    -- A request to clone a NIC under a name fails, or it succeeds and the table of NICs has one row
    -- more, of that name and attached to no VM.
    pub nic_clone-Outcome :
        (name : String)
        → unmarshal "new_nic_name" request.payload ≡ some name
        → Outcome name (nic_clone request (table, db))
    unfolding nic_clone
    nic_clone-Outcome name named =
        if_both (Outcome name)
          (not (is_nicclone request.req_type) || not (other_fields_read request.payload))
          (refused refl)
          (option_both (Outcome name) (unmarshal "nic_id" request.payload) (refused refl) (λ nic_id.
            option_split (Outcome name) (unmarshal "new_nic_name" request.payload)
              (λ unread. refused refl)
              (λ name' e.
                subst
                  (λ n.
                    Outcome n
                      (clone_source request name' (get_by_id nics nic_id table) (table, db)))
                  (some-injective (sym e ∙ named))
                  (clone_source-Outcome name' (get_by_id nics nic_id table)))))
