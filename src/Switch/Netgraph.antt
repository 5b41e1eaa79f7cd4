-- ===== src/Switch/Netgraph.antt =====
-- cirrinad/switch/bridge_ng.go: the host's netgraph nodes, read and changed through `ngctl`.
use Prim.Native.Char.{code}
use cirrina.Prelude.{
  ℕ, suc, ◌+◌, String, Bool, true, false, not, ◌==◌, ltb, Option, none, some, List, [], ◌∷◌, str_eq,
  if◌then◌else◌, length,
}
use cirrina.Strconv.Fields.{split_on, fields}
use cirrina.Vm.Args.Net.{contains_str, search_dev}
use cirrina.Switch.{
  Switch, SwitchError, invalid_name, switch_exists, uplink_in_use, fail_dummy, command_failed,
  check_interface_exists, Commands,
}
use cirrina.Switch.Bridges.{has_prefix, get_dummy_bridge_name, create_if_switch, destroy_if_switch}

-- The number of hooks is read by nobody and left out.
pub record NgNode : Type 0 where
  pub node_name : String
  pub node_type : String
  pub node_id : String

pub record NgPeer : Type 0 where
  pub local_hook : String
  pub peer_name : String
  pub peer_type : String
  pub peer_id : String
  pub peer_hook : String

-- A line of `ngctl list` has nine fields with four words at fixed places.
abbrev node_of : List String → Option NgNode
node_of (a ∷ name ∷ b ∷ type ∷ c ∷ id ∷ d ∷ e ∷ hooks ∷ []) =
    if not (has_prefix a "Name:")
    then none
    else if not (has_prefix b "Type:")
    then none
    else if not (has_prefix c "ID:")
    then none
    else if not (has_prefix e "hooks:")
    then none
    else some (record { node_name = name; node_type = type; node_id = id })
node_of _ = none

abbrev peer_of : List String → Option NgPeer
peer_of (hook ∷ name ∷ type ∷ id ∷ other ∷ []) = some (record {
  local_hook = hook;
  peer_name = name;
  peer_type = type;
  peer_id = id;
  peer_hook = other;
})
peer_of _ = none

abbrev with_more : {A : Type 0} → Option A → List A → List A
with_more none rest = rest
with_more (some a) rest = a ∷ rest

unfoldable pub parse_nodes : List String → List NgNode
unfolding fields
parse_nodes [] = []
parse_nodes (line ∷ lines) =
    let rest = parse_nodes lines in
    if str_eq line "" then rest else with_more (node_of (fields line)) rest

-- The first three lines are a head; `line_no` counts the lines that are not empty.
unfoldable pub parse_peers : ℕ → List String → List NgPeer
unfolding fields
parse_peers line_no [] = []
parse_peers line_no (line ∷ lines) =
    let same = parse_peers line_no lines in
    let rest = parse_peers (line_no + 1) lines in
    if str_eq line ""
    then same
    else if ltb (line_no + 1) 4
    then rest
    else with_more (peer_of (fields line)) rest

abbrev pub local_hooks : List NgPeer → List String
local_hooks [] = []
local_hooks (p ∷ ps) = p.local_hook ∷ local_hooks ps

abbrev pub peer_names : List NgPeer → List String
peer_names [] = []
peer_names (p ∷ ps) = p.peer_name ∷ peer_names ps

abbrev pub link_name : Option String → String
link_name none = ""
link_name (some s) = s

-- The loop runs until a link is free: one number more than there are hooks is enough.
unfoldable pub ng_bridge_next_link : List NgPeer → String
unfolding search_dev
ng_bridge_next_link peers =
    let hooks = local_hooks peers in link_name (search_dev (suc (length hooks)) "link" hooks 0)

abbrev bridge_names : List NgNode → List String
bridge_names [] = []
bridge_names (n ∷ ns) =
    if str_eq n.node_type "bridge" then n.node_name ∷ bridge_names ns else bridge_names ns

-- `strings.Replace(s, ".", "_", 1)`
unfoldable pub first_dot_replaced : String → String
first_dot_replaced String.[] = ""
first_dot_replaced (String.◌∷◌ c s) =
    let rest = first_dot_replaced s in if code c == 46 then String.◌∷◌ "_" s else String.◌∷◌ c rest

module _ (commands : Commands) where
  open commands use {
    World, interfaces, list_nodes, show_node, make_peer, name_lower, connect, set_persistent,
    remove_hook, shutdown,
  }

  abbrev ran : Bool × World → Option SwitchError × World
  ran (true, w) = (none, w)
  ran (false, w) = (some command_failed, w)

  -- The next step, where the one before it succeeded.
  abbrev andthen :
      Option SwitchError × World → (World → Option SwitchError × World) → Option SwitchError × World
  andthen (some e, w) next = (some e, w)
  andthen (none, w) next = next w

  unfoldable pub ng_get_nodes : World → Option (List NgNode)
  unfolding parse_nodes split_on
  ng_get_nodes w = elim (list_nodes w) [
    | none ↦ none
    | some out ↦ some (parse_nodes (split_on 10 out))
  ]

  unfoldable pub get_ng_bridge_members : String → World → Option (List NgPeer)
  unfolding parse_peers split_on
  get_ng_bridge_members bridge w = elim (show_node bridge w) [
    | none ↦ none
    | some out ↦ some (parse_peers 0 (split_on 10 out))
  ]

  unfoldable pub get_all_ng_switches : World → Option (List String)
  unfolding ng_get_nodes
  get_all_ng_switches w = elim (ng_get_nodes w) [ none ↦ none | some ns ↦ some (bridge_names ns) ]

  -- A dummy bridge is made, a node is put on it under the switch's name and kept, the dummy goes.
  unfoldable pub actual_ng_bridge_create : String → World → Option SwitchError × World
  unfolding get_dummy_bridge_name create_if_switch destroy_if_switch
  actual_ng_bridge_create net_dev w =
      let dummy = get_dummy_bridge_name commands w in
      if str_eq dummy ""
      then (some fail_dummy, w)
      else andthen (create_if_switch commands dummy w) λ w1.
        andthen (ran (make_peer dummy w1)) λ w2. andthen (ran (name_lower dummy net_dev w2)) λ w3.
          andthen (ran (connect dummy net_dev "upper" "uplink1" w3)) λ w4.
            andthen (ran (set_persistent net_dev w4))
              λ w5. destroy_if_switch commands dummy false w5

  unfoldable pub create_ng_bridge : String → World → Option SwitchError × World
  unfolding get_all_ng_switches contains_str actual_ng_bridge_create
  create_ng_bridge name w =
      if str_eq name ""
      then (some invalid_name, w)
      else if not (has_prefix name "bnet")
      then (some invalid_name, w)
      else elim (get_all_ng_switches w) [
        | none ↦ (some command_failed, w)
        | some bridges ↦
            if contains_str bridges name
            then (some switch_exists, w)
            else actual_ng_bridge_create name w
      ]

  -- The loop passes the peer's name where `rmhook` takes a hook of the bridge.
  unfoldable pub delete_peers : String → List NgPeer → World → Option SwitchError × World
  delete_peers name [] w = (none, w)
  delete_peers name (p ∷ ps) w =
      andthen (ran (remove_hook name p.peer_name w)) λ w'. delete_peers name ps w'

  unfoldable pub bridge_ng_delete_all_peers : String → World → Option SwitchError × World
  unfolding get_ng_bridge_members delete_peers
  bridge_ng_delete_all_peers name w = elim (get_ng_bridge_members name w) [
    | none ↦ (some command_failed, w)
    | some peers ↦ delete_peers name peers w
  ]

  unfoldable pub remove_peers : String → String → List NgPeer → World → Option SwitchError × World
  remove_peers bridge peer [] w = (none, w)
  remove_peers bridge peer (p ∷ ps) w =
      let skipped = remove_peers bridge peer ps w in
      let removed =
        andthen (ran (remove_hook bridge p.local_hook w)) λ w'. remove_peers bridge peer ps w' in
      if str_eq p.peer_name peer then removed else skipped

  unfoldable pub switch_ng_remove_uplink : String → String → World → Option SwitchError × World
  unfolding get_ng_bridge_members remove_peers
  switch_ng_remove_uplink bridge peer w = elim (get_ng_bridge_members bridge w) [
    | none ↦ (some command_failed, w)
    | some peers ↦ remove_peers bridge peer peers w
  ]

  -- The loop over the bridges; `none` is an error, which the code answers together with `false`.
  unfoldable pub used_by_any_ng : String → List String → World → Option Bool
  unfolding get_ng_bridge_members contains_str
  used_by_any_ng member [] w = some false
  used_by_any_ng member (b ∷ bs) w =
      let rest = used_by_any_ng member bs w in
      elim (get_ng_bridge_members b w) [
        | none ↦ none
        | some peers ↦ if contains_str (peer_names peers) member then some true else rest
      ]

  unfoldable pub member_used_by_ng_switch : String → World → Option Bool
  unfolding get_all_ng_switches used_by_any_ng
  member_used_by_ng_switch member w = elim (get_all_ng_switches w) [
    | none ↦ none
    | some bridges ↦ used_by_any_ng member bridges w
  ]

  unfoldable pub ng_get_bridge_next_link : String → World → Option String
  unfolding get_ng_bridge_members ng_bridge_next_link
  ng_get_bridge_next_link bridge w = elim (get_ng_bridge_members bridge w) [
    | none ↦ none
    | some peers ↦ some (ng_bridge_next_link peers)
  ]

  -- One of the two connections of a member, at the next free link.
  unfoldable pub connect_hook : String → String → String → World → Option SwitchError × World
  unfolding ng_get_bridge_next_link
  connect_hook bridge node hook w = elim (ng_get_bridge_next_link bridge w) [
    | none ↦ (some command_failed, w)
    | some link ↦ ran (connect node bridge hook link w)
  ]

  unfoldable pub switch_ng_add_member : String → String → World → Option SwitchError × World
  unfolding connect_hook first_dot_replaced
  switch_ng_add_member bridge member w =
      let node = first_dot_replaced member in
      andthen (connect_hook bridge node "lower" w) λ w'. connect_hook bridge node "upper" w'

  -- An error on one member is passed over.
  unfoldable pub add_ng_members : String → List String → World → World
  unfolding switch_ng_add_member check_interface_exists
  add_ng_members bridge [] w = w
  add_ng_members bridge (m ∷ ms) w =
      let skipped = add_ng_members bridge ms w in
      let added = add_ng_members bridge ms (switch_ng_add_member bridge m w).1 in
      if not (check_interface_exists m (interfaces w)) then skipped else added

  unfoldable pub create_ng_bridge_with_members :
      String → List String → World → Option SwitchError × World
  unfolding create_ng_bridge bridge_ng_delete_all_peers add_ng_members
  create_ng_bridge_with_members bridge members w = andthen (create_ng_bridge bridge w) λ w1.
      andthen (bridge_ng_delete_all_peers bridge w1) λ w2. (none, add_ng_members bridge members w2)

  abbrev is_unused : Option Bool → Bool
  is_unused (some false) = true
  is_unused _ = false

  unfoldable pub usable_ng_members : List String → World → List String
  unfolding member_used_by_ng_switch check_interface_exists
  usable_ng_members [] w = []
  usable_ng_members (m ∷ ms) w =
      let rest = usable_ng_members ms w in
      if str_eq m ""
      then rest
      else if not (check_interface_exists m (interfaces w))
      then rest
      else if is_unused (member_used_by_ng_switch m w)
      then m ∷ rest
      else rest

  unfoldable pub build_ng_switch : Switch → World → Option SwitchError × World
  unfolding usable_ng_members create_ng_bridge_with_members split_on
  build_ng_switch s w =
      create_ng_bridge_with_members s.name (usable_ng_members (split_on 44 s.uplink) w) w

  abbrev use_refused : Option Bool → Option SwitchError
  use_refused none = some command_failed
  use_refused (some true) = some uplink_in_use
  use_refused (some false) = none

  unfoldable pub validate_ng_switch : Switch → World → Option SwitchError
  unfolding member_used_by_ng_switch
  validate_ng_switch s w =
      if not (str_eq s.uplink "") then use_refused (member_used_by_ng_switch s.uplink w) else none

  -- `setUplinkNG` up to the change of the switch.
  unfoldable pub set_uplink_ng : Switch → String → World → Option SwitchError × World
  unfolding member_used_by_ng_switch switch_ng_add_member
  set_uplink_ng s uplink w = elim (use_refused (member_used_by_ng_switch uplink w)) [
    | some e ↦ (some e, w)
    | none ↦ switch_ng_add_member s.name uplink w
  ]

  unfoldable pub destroy_ng_switch : String → World → Option SwitchError × World
  destroy_ng_switch net_dev w =
      if str_eq net_dev ""
      then (some invalid_name, w)
      else if not (has_prefix net_dev "bnet")
      then (some invalid_name, w)
      else ran (shutdown net_dev w)
