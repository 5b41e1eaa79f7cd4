-- ===== src/Switch/Table.antt =====
-- cirrinad/switch/switch.go: the table of switches, with the hooks of cirrinad/switch/db.go, over the
-- bridges of the host. `parse` is `uuid.Parse` and the print of what it yields, `id_ok` the test of
-- an ID in `BeforeCreate`, `new_id` the ID that package uuid makes.
use cirrina.Prelude.{
  String, Bool, true, false, not, Option, none, some, List, [], ◌∷◌, ◌==◌, str_eq, if◌then◌else◌,
  Result, ok, err,
}
use cirrina.Store.{Store, Write, failed, affected}
use cirrina.Requests.{first_where}
use cirrina.Vmnic.{VmNic}
use cirrina.Vm.Args.Net.{contains_str}
use cirrina.Strconv.{concat}
use cirrina.Switch.{
  Switch, SwitchError, internal_checking, invalid_name, invalid_uplink, switch_not_found,
  invalid_id, switch_exists, switch_in_use, invalid_type, uplink_in_use, wrong_type, internal_db,
  unknown_nic_dev_type, command_failed, database_error, switch_name_valid, get_host_interfaces,
  Commands,
}
use cirrina.Switch.Bridges.{
  get_all_if_switches, member_used_by_if_switch, validate_if_switch, build_if_switch, set_uplink_if,
  switch_if_delete_member, destroy_if_switch,
}
use cirrina.Switch.Netgraph.{
  get_all_ng_switches, member_used_by_ng_switch, validate_ng_switch, build_ng_switch, set_uplink_ng,
  switch_ng_remove_uplink, destroy_ng_switch, get_ng_bridge_members, ng_bridge_next_link,
}

abbrev pub found_switch : Option Switch → Result SwitchError Switch
found_switch none = err switch_not_found
found_switch (some s) = ok s

-- `switchExists`: any error but "not found" is passed on.
abbrev exists_of : Result SwitchError Switch → Result SwitchError Bool
exists_of (ok s) = ok true
exists_of (err switch_not_found) = ok false
exists_of (err e) = err e

unfoldable pub in_use : List VmNic → Switch → Bool
in_use [] s = false
in_use (nic ∷ nics) s = let rest = in_use nics s in if str_eq nic.switch_id s.id then true else rest

unfoldable pub with_new_id : (String → Bool) → String → Switch → Switch
with_new_id id_ok new_id s = if id_ok s.id then s else record s { id = new_id }

-- The type of a switch against the type of a NIC's device.
unfoldable pub match_dev_type : String → Switch → String → Result SwitchError String
match_dev_type dev_type s u =
    if str_eq dev_type "TAP"
    then (if not (str_eq s.switch_type "IF") then err wrong_type else ok u)
    else if str_eq dev_type "VMNET"
    then (if not (str_eq s.switch_type "IF") then err wrong_type else ok u)
    else if str_eq dev_type "NETGRAPH"
    then (if not (str_eq s.switch_type "NG") then err wrong_type else ok u)
    else err unknown_nic_dev_type

module _ (commands : Commands) where
  open commands use {World, interfaces}

  abbrev refused_use : Option Bool → Option SwitchError
  refused_use none = some internal_checking
  refused_use (some true) = some uplink_in_use
  refused_use (some false) = none

  unfoldable pub switch_check_uplink : Switch → World → Option SwitchError
  unfolding get_host_interfaces contains_str member_used_by_if_switch member_used_by_ng_switch
  switch_check_uplink s w =
      if not (contains_str (get_host_interfaces (interfaces w)) s.uplink)
      then some invalid_uplink
      else if str_eq s.switch_type "IF"
      then (if not (str_eq s.uplink "")
          then refused_use (member_used_by_if_switch commands s.uplink w)
          else none)
      else if str_eq s.switch_type "NG"
      then (if not (str_eq s.uplink "")
          then refused_use (member_used_by_ng_switch commands s.uplink w)
          else none)
      else some invalid_type

  unfoldable pub validate : Switch → World → Option SwitchError
  unfolding switch_name_valid switch_check_uplink validate_if_switch validate_ng_switch
  validate s w =
      if not (switch_name_valid s) then some invalid_name else elim (switch_check_uplink s w) [
        | some e ↦ some e
        | none ↦
            if str_eq s.switch_type "IF"
            then validate_if_switch commands s w
            else if str_eq s.switch_type "NG"
            then validate_ng_switch commands s w
            else some invalid_type
      ]

  -- An error of building a netgraph switch is logged and passed over.
  unfoldable pub bring_up_new_switch : Switch → World → Option SwitchError × World
  unfolding build_if_switch build_ng_switch
  bring_up_new_switch s w =
      if str_eq s.id ""
      then (some invalid_id, w)
      else if str_eq s.switch_type "IF"
      then build_if_switch commands s w
      else if str_eq s.switch_type "NG"
      then (none, (build_ng_switch commands s w).1)
      else (some invalid_type, w)

  -- The loop of `CreateSwitches`.
  unfoldable pub create_switches : List Switch → World → Option SwitchError × World
  unfolding build_if_switch build_ng_switch
  create_switches [] w = (none, w)
  create_switches (s ∷ ss) w =
      let built =
        if str_eq s.switch_type "IF"
        then build_if_switch commands s w
        else if str_eq s.switch_type "NG"
        then build_ng_switch commands s w
        else (some invalid_type, w) in
      let rest = create_switches ss built.1 in
      elim (built.0) [ some e ↦ (some e, built.1) | none ↦ rest ]

  unfoldable pub destroy_switch : Switch → World → Option SwitchError × World
  unfolding destroy_if_switch destroy_ng_switch
  destroy_switch s w =
      if str_eq s.switch_type "IF"
      then destroy_if_switch commands s.name true w
      else if str_eq s.switch_type "NG"
      then destroy_ng_switch commands s.name w
      else (some invalid_type, w)

  -- The loop of `DestroySwitches`, with the switches that exist on the host.
  unfoldable pub destroy_existing :
      List String → List String → List Switch → World → Option SwitchError × World
  unfolding destroy_if_switch destroy_ng_switch contains_str
  destroy_existing ifs ngs [] w = (none, w)
  destroy_existing ifs ngs (s ∷ ss) w =
      let gone =
        if str_eq s.switch_type "IF"
        then (if contains_str ifs s.name
            then destroy_if_switch commands s.name true w
            else (none, w))
        else if str_eq s.switch_type "NG"
        then (if contains_str ngs s.name then destroy_ng_switch commands s.name w else (none, w))
        else (some invalid_type, w) in
      let rest = destroy_existing ifs ngs ss gone.1 in
      elim (gone.0) [ some e ↦ (some e, gone.1) | none ↦ rest ]

  unfoldable pub destroy_switches : List Switch → World → Option SwitchError × World
  unfolding get_all_if_switches get_all_ng_switches destroy_existing
  destroy_switches ss w = elim (get_all_if_switches commands w) [
    | none ↦ (some command_failed, w)
    | some ifs ↦ elim (get_all_ng_switches commands w) [
      | none ↦ (some command_failed, w)
      | some ngs ↦ destroy_existing ifs ngs ss w
    ]
  ]

  module _ (store : Store Switch) where
    open store use {Db, rows, query_fails, create as insert, update, delete as remove}

    unfoldable pub get_by_id : String → Db → Result SwitchError Switch
    get_by_id switch_id db =
        if query_fails db
        then err database_error
        else found_switch (first_where (λ s. str_eq s.id switch_id) (rows db))

    unfoldable pub get_by_name : String → Db → Result SwitchError Switch
    get_by_name name db =
        if str_eq name ""
        then err switch_not_found
        else if query_fails db
        then err database_error
        else found_switch (first_where (λ s. str_eq s.name name) (rows db))

    -- A failed query leaves no rows.
    unfoldable pub get_all : Db → List Switch
    get_all db = if query_fails db then [] else rows db

    abbrev named_switch : String → String → Result SwitchError Switch → Result SwitchError String
    named_switch dev_type u (err e) = err invalid_id
    named_switch dev_type u (ok s) =
        if str_eq s.name "" then err invalid_name else match_dev_type dev_type s u

    unfoldable pub parse_switch_id :
        (String → Option String) → String → String → Db → Result SwitchError String
    unfolding get_by_id match_dev_type
    parse_switch_id parse switch_id dev_type db =
        if str_eq switch_id "" then err invalid_id else elim (parse switch_id) [
          | none ↦ err invalid_id
          | some u ↦ named_switch dev_type u (get_by_id u db)
        ]

    abbrev affected_one : Write → Option SwitchError
    affected_one failed = some database_error
    affected_one (affected n) = if n == 1 then none else some database_error

    -- `db.Create` runs the two hooks around the statement; an error of a hook undoes the statement.
    unfoldable pub insert_switch :
        (String → Bool) → String → Switch → Db → World → Option SwitchError × Db × World
    unfolding with_new_id bring_up_new_switch
    insert_switch id_ok new_id s db w =
        if str_eq s.name ""
        then (some invalid_name, db, w)
        else let row = with_new_id id_ok new_id s in
          let (written, db') = insert row db in
          elim written [
            | failed ↦ (some database_error, db', w)
            | affected n ↦
                let (answer, w') = bring_up_new_switch row w in
                elim answer [
                  | some e ↦ (some e, db, w')
                  | none ↦ (affected_one (affected n), db', w')
                ]
          ]

    unfoldable pub create_if_new :
        (String → Bool)
        → String
        → Switch
        → Result SwitchError Bool
        → Db
        → World
        → Option SwitchError × Db × World
    unfolding validate insert_switch
    create_if_new id_ok new_id s (err e) db w = (some e, db, w)
    create_if_new id_ok new_id s (ok true) db w = (some switch_exists, db, w)
    create_if_new id_ok new_id s (ok false) db w = elim (validate s w) [
      | some e ↦ (some e, db, w)
      | none ↦ insert_switch id_ok new_id s db w
    ]

    unfoldable pub create :
        (String → Bool) → String → Switch → Db → World → Option SwitchError × Db × World
    unfolding get_by_name create_if_new
    create id_ok new_id s db w =
        create_if_new id_ok new_id s (exists_of (get_by_name s.name db)) db w

    abbrev removed_one : Write → Bool
    removed_one failed = false
    removed_one (affected n) = n == 1

    unfoldable pub delete_switch :
        List VmNic → Switch → Db → World → Option SwitchError × Db × World
    unfolding in_use destroy_switch
    delete_switch nics s db w =
        if in_use nics s
        then (some switch_in_use, db, w)
        else let (written, db') = remove (λ row. str_eq row.id s.id) db in
          let (answer, w') = destroy_switch s w in
          if not (removed_one written) then (some internal_db, db', w) else (answer, db', w')

    abbrev saved : Write → Option SwitchError
    saved failed = some internal_db
    saved (affected n) = none

    unfoldable pub save : Switch → Db → Option SwitchError × Db
    save s db =
        let (written, db') = update (λ row. str_eq row.id s.id) (λ row. s) db in
        (saved written, db')

    -- The switch with its new uplink, saved, where the host's part succeeded.
    abbrev with_uplink :
        Switch → String → Option SwitchError × World → Db → Option SwitchError × Switch × Db × World
    with_uplink s uplink (some e, w) db = (some e, s, db, w)
    with_uplink s uplink (none, w) db =
        let s' = record s { uplink = uplink } in
        let (answer, db') = save s' db in (answer, s', db', w)

    unfoldable pub unset_uplink : Switch → Db → World → Option SwitchError × Switch × Db × World
    unfolding save switch_if_delete_member switch_ng_remove_uplink
    unset_uplink s db w =
        if str_eq s.switch_type "IF"
        then with_uplink s "" (switch_if_delete_member commands s.name s.uplink w) db
        else if str_eq s.switch_type "NG"
        then with_uplink s "" (switch_ng_remove_uplink commands s.name s.uplink w) db
        else (some invalid_type, s, db, w)

    unfoldable pub set_uplink :
        Switch → String → Db → World → Option SwitchError × Switch × Db × World
    unfolding save set_uplink_if set_uplink_ng
    set_uplink s uplink db w =
        if str_eq s.switch_type "IF"
        then with_uplink s uplink (set_uplink_if commands s uplink w) db
        else if str_eq s.switch_type "NG"
        then with_uplink s uplink (set_uplink_ng commands s uplink w) db
        else (some invalid_type, s, db, w)

    -- `GetNgDev`: the device that is kept and the argument of bhyve; `none` is an error.
    unfoldable pub get_ng_dev : String → String → Db → World → Option (String × String)
    unfolding get_by_id get_ng_bridge_members ng_bridge_next_link
    get_ng_dev switch_id name db w = elim (get_by_id switch_id db) [
      | err e ↦ none
      | ok s ↦ elim (get_ng_bridge_members commands s.name w) [
        | none ↦ none
        | some peers ↦
            let link = ng_bridge_next_link peers in
            some (
              concat (s.name ∷ "," ∷ link ∷ []),
              concat ("netgraph,path=" ∷ s.name ∷ ":,peerhook=" ∷ link ∷ ",socket=" ∷ name ∷ []),
            )
      ]
    ]
