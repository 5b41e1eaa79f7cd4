-- ===== src/Tests/Switches.antt =====
-- Runs of the switches of cirrinad/switch.
use mathlib.Core.Bool.{false≢true}
use mathlib.Core.Path.{subst}
use cirrina.Prelude.{
  ℕ, String, ◌≡◌, refl, ◌≢◌, ◌↔◌, ◌⊎◌, sym, ◌∙◌, arith, Bool, true, false, ◌&&◌, Option, none, some,
  List, [], ◌∷◌, str_eq, eq_iff, if◌then◌else◌, ok, inl, inr, some-injective, Bool-cases,
}
use cirrina.Strconv.{append, format_uint, codes}
use cirrina.Strconv.Fields.{split_on, fields}
use cirrina.Requests.{first_where}
use cirrina.Store.{Store}
use cirrina.Vm.Args.Net.{contains_str}
use cirrina.Epair.{Devices, parse_epairs, get_all_epair, get_dummy_epair_name}
use cirrina.Switch.{Switch, Interface, Commands, nic_type_match, switch_name_valid}
use cirrina.Switch.Bridges.{
  parse_members, parse_bridges, get_if_bridge_members, get_all_if_switches, get_dummy_bridge_name,
  set_uplink_if, build_if_switch,
}
use cirrina.Switch.Names.{IsNumbered, switch_name_valid_iff}
use cirrina.Switch.Links.{IsHighestFree, dummy_names-IsHighestFree, ng_bridge_next_link-free}
use cirrina.Switch.Netgraph.{NgPeer, local_hooks, ng_bridge_next_link}
use cirrina.Switch.Table.{get_by_id, parse_switch_id}
use cirrina.Switch.Types.{parse_switch_id-nic_type_match}
use cirrina.Switch.Unshared.{IsIn, Unshared, BridgeLaws, uplinks-Unshared}
use cirrina.Tests.Tables.{list_store}
use cirrina.Tests.Slots.{nic}

-- A host with one bridge; the world says whether em0 is on it.
abbrev em0 : Interface
em0 = record { name = "em0"; groups = some []; hardware_addr = "00:18:25:00:00:01" }

abbrev bridge0 : Interface
bridge0 = record { name = "bridge0"; groups = some ("bridge" ∷ []); hardware_addr = "" }

abbrev shown : Bool → String
shown false = "bridge0: flags=8843"
shown true = "member: em0 flags=143"

abbrev shown_of : String → Bool → Option String
shown_of b w = if str_eq b "bridge0" then some (shown w) else none

abbrev joined : String → String → Bool → Bool
joined b m w = if str_eq b "bridge0" && str_eq m "em0" then true else w

abbrev pub commands : Commands
commands = record {
  World = Bool;
  interfaces = λ w. em0 ∷ bridge0 ∷ [];
  list_bridges = λ w. some "bridge0";
  show_bridge = shown_of;
  create_bridge = λ b w. (false, w);
  destroy_bridge = λ b w. (false, w);
  add_member = λ b m w. (true, joined b m w);
  delete_member = λ b m w. (false, w);
  list_nodes = λ w. none;
  show_node = λ n w. none;
  make_peer = λ d w. (false, w);
  name_lower = λ d n w. (false, w);
  connect = λ a b c d w. (false, w);
  set_persistent = λ n w. (false, w);
  remove_hook = λ b h w. (false, w);
  shutdown = λ n w. (false, w);
}

bridges_are_listed : (w : Bool) → get_all_if_switches commands w ≡ some ("bridge0" ∷ [])
unfolding get_all_if_switches parse_bridges split_on fields
bridges_are_listed w = refl

on_bridge0 :
    (w : Bool) → get_if_bridge_members commands "bridge0" w ≡ some (if w then "em0" ∷ [] else [])
unfolding get_if_bridge_members parse_members split_on fields
on_bridge0 true = refl
on_bridge0 false = refl

off_bridge0 :
    (b : String) (w : Bool) → str_eq b "bridge0" ≡ false → get_if_bridge_members commands b w ≡ none
unfolding get_if_bridge_members
off_bridge0 b w other = rw (other) refl

only_em0 :
    (x : String) (w : Bool)
    → contains_str (if w then "em0" ∷ [] else []) x ≡ true
    → (w ≡ true) × (x ≡ "em0")
unfolding contains_str
only_em0 x true h = (refl, ground (arith, eq_iff x "em0"))
only_em0 x false h = absurd (cc)

-- What is a member of anything is em0, on bridge0, in the world that says so.
inside :
    (x b : String) (w : Bool) → IsIn commands x b w → (b ≡ "bridge0") × (w ≡ true) × (x ≡ "em0")
unfolding IsIn
inside x b w (ms, printed, held) = elim (Bool-cases (str_eq b "bridge0")) [
  | inl same ↦
      let b_is = (eq_iff b "bridge0").0 same in
      let at_bridge0 =
        subst (λ (c : String). get_if_bridge_members commands c w ≡ some ms) b_is printed in
      let ms_is = some-injective (sym at_bridge0 ∙ on_bridge0 w) in
      let (holds, x_is) =
        only_em0 x w (subst (λ (l : List String). contains_str l x ≡ true) ms_is held) in
      (b_is, holds, x_is)
  | inr other ↦ absurd (ground (arith, off_bridge0 b w other))
]

listed_lem :
    (w : Bool) (bs : List String) (x b : String)
    → get_all_if_switches commands w ≡ some bs
    → IsIn commands x b w
    → contains_str bs b ≡ true
unfolding contains_str
listed_lem w bs x b e m =
    let bs_is = some-injective (sym (bridges_are_listed w) ∙ e) in
    subst (λ (l : List String). contains_str l b ≡ true) bs_is
      (ground (arith, eq_iff b "bridge0", (inside x b w m).0))

both_names :
    (b m : String) → (str_eq b "bridge0" && str_eq m "em0") ≡ true → (b ≡ "bridge0") × (m ≡ "em0")
both_names b m h = ground (arith, eq_iff b "bridge0", eq_iff m "em0")

added_lem :
    (b m c x : String) (w : Bool)
    → IsIn commands x c (joined b m w)
    → IsIn commands x c w ⊎ ((c ≡ b) × (x ≡ m))
added_lem b m c x w h = elim (Bool-cases (str_eq b "bridge0" && str_eq m "em0")) [
  | inl both ↦
      let (c_is, _, x_is) = inside x c (joined b m w) h in
      let (b_is, m_is) = both_names b m both in inr (c_is ∙ sym b_is, x_is ∙ sym m_is)
  | inr other ↦
      let same : joined b m w ≡ w = rw (other) refl in
      inl (subst (λ (v : Bool). IsIn commands x c v) same h)
]

bridge_laws : BridgeLaws commands
bridge_laws = record { listed = listed_lem; created = λ b c x w m. m; added = added_lem }

nothing_shared : (w : Bool) → Unshared commands w
unfolding Unshared
nothing_shared w a b x ha hb = (inside x a w ha).0 ∙ sym (inside x b w hb).0

abbrev pub lan : Switch
lan = record { id = "sw-1"; name = "bridge0"; description = ""; switch_type = "IF"; uplink = "em0" }

uplinks-Unshared_example :
    Unshared commands (set_uplink_if commands lan "em0" false).1
    × Unshared commands (build_if_switch commands lan false).1
uplinks-Unshared_example =
    uplinks-Unshared commands bridge_laws lan "em0" false (nothing_shared false)

abbrev pub devices : Devices Bool
devices = record {
  list_epairs = λ w. some "";
  create_pair = λ e w. (true, w);
  bring_up = λ e w. (true, w);
  destroy = λ e w. (true, w);
  make_pipe = λ e w. (true, w);
  name_pipe = λ e w. (true, w);
  connect_pipe = λ e w. (true, w);
  set_bandwidth = λ e rate w. (true, w);
  shutdown_pipe = λ e w. (true, w);
  create_device = λ d n w. (true, w);
}

pairs_are_listed : (w : Bool) → get_all_epair devices w ≡ some []
unfolding get_all_epair parse_epairs split_on fields
pairs_are_listed w = refl

dummy_names-IsHighestFree_example :
    IsHighestFree "bridge" 32767 ("bridge0" ∷ []) (get_dummy_bridge_name commands true)
    × IsHighestFree "epair" 32767 [] (get_dummy_epair_name devices true)
dummy_names-IsHighestFree_example =
    dummy_names-IsHighestFree commands devices true ("bridge0" ∷ []) [] (bridges_are_listed true)
      (pairs_are_listed true)

abbrev first_peer : NgPeer
first_peer = record {
  local_hook = "link0";
  peer_name = "em0";
  peer_type = "ether";
  peer_id = "2";
  peer_hook = "lower";
}

ng_bridge_next_link-free_example :
    (n : ℕ) × (ng_bridge_next_link (first_peer ∷ []) ≡ append "link" (format_uint n))
    × (contains_str (local_hooks (first_peer ∷ [])) (ng_bridge_next_link (first_peer ∷ [])) ≡ false)
ng_bridge_next_link-free_example = ng_bridge_next_link-free (first_peer ∷ [])

switch_name_valid_iff_example : (switch_name_valid lan ≡ true) ↔ (
    ((lan.switch_type ≡ "IF") × IsNumbered (codes "bridge") (codes lan.name))
    ⊎ ((lan.switch_type ≡ "NG") × IsNumbered (codes "bnet") (codes lan.name)))
switch_name_valid_iff_example = switch_name_valid_iff lan

abbrev pub switches : Store Switch
switches = list_store Switch

abbrev parse : String → Option String
parse i = some i

lan_is_found : get_by_id commands switches "sw-1" (lan ∷ []) ≡ ok lan
unfolding get_by_id first_where
lan_is_found = refl

parse_switch_id-nic_type_match_example :
    (parse_switch_id commands switches parse "sw-1" nic.net_dev_type (lan ∷ []) ≡ ok "sw-1")
    ↔ ((lan.name ≢ "") × (nic_type_match lan nic ≡ true))
parse_switch_id-nic_type_match_example =
    parse_switch_id-nic_type_match commands switches parse "sw-1" "sw-1" lan nic (lan ∷ [])
      (λ e. false≢true ((eq_iff "sw-1" "").1 e)) refl lan_is_found
