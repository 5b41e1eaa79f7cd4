-- ===== src/Switch/Bridges.antt =====
-- cirrinad/switch/bridge_if.go: the host's bridges, read and changed through `ifconfig`.
use cirrina.Prelude.{
  ℕ, zero, suc, String, Bool, true, false, not, Option, none, some, List, [], ◌∷◌, str_eq,
  if◌then◌else◌,
}
use cirrina.Strconv.{append, format_uint, codes, cut_prefix}
use cirrina.Strconv.Fields.{split_on, fields}
use cirrina.Vm.Args.Net.{contains_str}
use cirrina.Switch.{
  Switch, SwitchError, invalid_name, switch_exists, uplink_in_use, invalid_bridge_name,
  does_not_exist, interface_does_not_exist, command_failed, get_all_host_interfaces,
  check_interface_exists, Commands,
}

abbrev pub has_prefix : String → String → Bool
has_prefix s t = elim (cut_prefix (codes s) (codes t)) [ none ↦ false | some rest ↦ true ]

-- The line of a member has three fields, and the first is "member:".
abbrev member_of : List String → Option String
member_of (a ∷ m ∷ b ∷ []) = if str_eq a "member:" then some m else none
member_of _ = none

abbrev also : Option String → List String → List String
also none ms = ms
also (some m) ms = m ∷ ms

unfoldable pub parse_members : List String → List String
unfolding fields
parse_members [] = []
parse_members (line ∷ lines) =
    let rest = parse_members lines in
    if str_eq line "" then rest else also (member_of (fields line)) rest

abbrev bridge_of : List String → Option String
bridge_of (b ∷ []) = some b
bridge_of _ = none

unfoldable pub parse_bridges : List String → List String
unfolding fields
parse_bridges [] = []
parse_bridges (line ∷ lines) =
    let rest = parse_bridges lines in
    if str_eq line "" then rest else also (bridge_of (fields line)) rest

abbrev pub parsed : (List String → List String) → Option String → Option (List String)
parsed parse none = none
parsed parse (some out) = some (parse (split_on 10 out))

-- The search of `getDummyBridgeName` from a number down to 1, for names with any prefix.
unfoldable pub search_down : String → ℕ → List String → String
unfolding contains_str format_uint
search_down prefix zero taken = ""
search_down prefix (suc n) taken =
    let rest = search_down prefix n taken in
    let name = append prefix (format_uint (suc n)) in if contains_str taken name then rest else name

module _ (commands : Commands) where
  open commands use {
    World, interfaces, list_bridges, show_bridge, create_bridge, destroy_bridge, add_member,
    delete_member,
  }

  -- The error of a command.
  abbrev pub ran : Bool × World → Option SwitchError × World
  ran (true, w) = (none, w)
  ran (false, w) = (some command_failed, w)

  unfoldable pub get_if_bridge_members : String → World → Option (List String)
  unfolding parse_members split_on
  get_if_bridge_members name w = parsed parse_members (show_bridge name w)

  unfoldable pub get_all_if_switches : World → Option (List String)
  unfolding parse_bridges split_on
  get_all_if_switches w = parsed parse_bridges (list_bridges w)

  unfoldable pub create_if_switch : String → World → Option SwitchError × World
  unfolding get_all_if_switches contains_str
  create_if_switch name w =
      if str_eq name ""
      then (some invalid_name, w)
      else if not (has_prefix name "bridge")
      then (some invalid_bridge_name, w)
      else elim (get_all_if_switches w) [
        | none ↦ (some command_failed, w)
        | some bridges ↦
            if contains_str bridges name
            then (some switch_exists, w)
            else ran (create_bridge name w)
      ]

  unfoldable pub switch_if_delete_member : String → String → World → Option SwitchError × World
  unfolding get_if_bridge_members contains_str get_all_host_interfaces
  switch_if_delete_member name member w =
      if not (contains_str (get_all_host_interfaces (interfaces w)) name)
      then (none, w)
      else elim (get_if_bridge_members name w) [
        | none ↦ (some command_failed, w)
        | some members ↦
            if not (contains_str members member)
            then (none, w)
            else ran (delete_member name member w)
      ]

  unfoldable pub delete_members : String → List String → World → Option SwitchError × World
  unfolding switch_if_delete_member
  delete_members name [] w = (none, w)
  delete_members name (m ∷ ms) w =
      let (answer, w') = switch_if_delete_member name m w in
      let rest = delete_members name ms w' in elim answer [ some e ↦ (some e, w') | none ↦ rest ]

  unfoldable pub switch_if_delete_all_members : String → World → Option SwitchError × World
  unfolding delete_members
  switch_if_delete_all_members name w = elim (get_if_bridge_members name w) [
    | none ↦ (some command_failed, w)
    | some members ↦ delete_members name members w
  ]

  unfoldable pub switch_if_add_member : String → String → World → Option SwitchError × World
  unfolding get_if_bridge_members contains_str get_all_host_interfaces
  switch_if_add_member name member w =
      if not (contains_str (get_all_host_interfaces (interfaces w)) name)
      then (some does_not_exist, w)
      else if not (contains_str (get_all_host_interfaces (interfaces w)) member)
      then (some interface_does_not_exist, w)
      else elim (get_if_bridge_members name w) [
        | none ↦ (some command_failed, w)
        | some members ↦
            if contains_str members member then (none, w) else ran (add_member name member w)
      ]

  unfoldable pub add_members : String → List String → World → Option SwitchError × World
  unfolding switch_if_add_member
  add_members name [] w = (none, w)
  add_members name (m ∷ ms) w =
      let (answer, w') = switch_if_add_member name m w in
      let rest = add_members name ms w' in elim answer [ some e ↦ (some e, w') | none ↦ rest ]

  unfoldable pub create_if_switch_with_members :
      String → List String → World → Option SwitchError × World
  unfolding create_if_switch add_members
  create_if_switch_with_members name members w =
      if str_eq name ""
      then (some invalid_bridge_name, w)
      else let (answer, w') = create_if_switch name w in
        elim answer [ some e ↦ (some e, w') | none ↦ add_members name members w' ]

  -- 32767 is the highest number of a bridge.
  unfoldable pub get_dummy_bridge_name : World → String
  unfolding get_all_if_switches
  get_dummy_bridge_name w = elim (get_all_if_switches w) [
    | none ↦ ""
    | some bridges ↦ search_down "bridge" 32767 bridges
  ]

  -- The loop over the bridges; `none` is an error, which the code answers together with `true`.
  unfoldable pub used_by_any : String → List String → World → Option Bool
  unfolding get_if_bridge_members contains_str
  used_by_any member [] w = some false
  used_by_any member (b ∷ bs) w =
      let rest = used_by_any member bs w in
      elim (get_if_bridge_members b w) [
        | none ↦ none
        | some members ↦ if contains_str members member then some true else rest
      ]

  unfoldable pub member_used_by_if_switch : String → World → Option Bool
  unfolding used_by_any
  member_used_by_if_switch member w = elim (get_all_if_switches w) [
    | none ↦ none
    | some bridges ↦ used_by_any member bridges w
  ]

  abbrev pub is_unused : Option Bool → Bool
  is_unused (some false) = true
  is_unused _ = false

  -- The loop of `buildIfSwitch` over the parts of the uplink.
  unfoldable pub usable_members : List String → World → List String
  unfolding member_used_by_if_switch check_interface_exists
  usable_members [] w = []
  usable_members (m ∷ ms) w =
      let rest = usable_members ms w in
      if str_eq m ""
      then rest
      else if not (check_interface_exists m (interfaces w))
      then rest
      else if is_unused (member_used_by_if_switch m w)
      then m ∷ rest
      else rest

  unfoldable pub build_if_switch : Switch → World → Option SwitchError × World
  unfolding usable_members create_if_switch_with_members split_on
  build_if_switch s w =
      create_if_switch_with_members s.name (usable_members (split_on 44 s.uplink) w) w

  abbrev use_refused : SwitchError → Option Bool → Option SwitchError
  use_refused e none = some e
  use_refused e (some true) = some uplink_in_use
  use_refused e (some false) = none

  unfoldable pub validate_if_switch : Switch → World → Option SwitchError
  unfolding member_used_by_if_switch
  validate_if_switch s w =
      if not (str_eq s.uplink "")
      then use_refused command_failed (member_used_by_if_switch s.uplink w)
      else none

  -- `setUplinkIf` up to the change of the switch.
  unfoldable pub set_uplink_if : Switch → String → World → Option SwitchError × World
  unfolding member_used_by_if_switch switch_if_add_member
  set_uplink_if s uplink w = elim (use_refused command_failed (member_used_by_if_switch uplink w)) [
    | some e ↦ (some e, w)
    | none ↦ switch_if_add_member s.name uplink w
  ]

  unfoldable pub destroy_if_switch : String → Bool → World → Option SwitchError × World
  unfolding switch_if_delete_all_members contains_str get_all_host_interfaces
  destroy_if_switch name cleanup w =
      if not (has_prefix name "bridge")
      then (some invalid_name, w)
      else if not (contains_str (get_all_host_interfaces (interfaces w)) name)
      then (none, w)
      else let cleaned = if cleanup then switch_if_delete_all_members name w else (none, w) in
        elim (cleaned.0) [
          | some e ↦ (some e, cleaned.1)
          | none ↦ ran (destroy_bridge name cleaned.1)
        ]
