-- ===== src/Switch.antt =====
-- cirrinad/switch: switches between VMs, made of the host's bridges (`IF`) or of netgraph nodes (`NG`).
-- `Bridges` is bridge_if.go, `Netgraph` bridge_ng.go and `Table` switch.go; `Names`, `Links`,
-- `Unshared` and `Types` are about names, free numbers, the members of bridges and types of NICs.
-- The commands of the host are an interface, `Commands`; their output is text that is parsed here.
pub mod Names
pub mod Bridges
pub mod Links
pub mod Unshared
pub mod Netgraph
pub mod Table
pub mod Types
pub mod Connect
use cirrina.Prelude.{
  ℕ, String, ◌≡◌, refl, Bool, true, false, not, ◌&&◌, Option, none, some, List, [], ◌∷◌, ◌++◌,
  str_eq, if◌then◌else◌,
}
use cirrina.Strconv.{Text, codes, ℤ, parse_int, format_int, cut_prefix, text_eq}
use cirrina.Util.Name.{check_in_range, vm_name_table}
use cirrina.Vmnic.{VmNic}
use cirrina.Vm.Args.Net.{contains_str}

pub record Switch : Type 0 where
  pub id : String
  pub name : String
  pub description : String
  pub switch_type : String
  pub uplink : String

pub data SwitchError : Type 0 where
  internal_checking invalid_name invalid_uplink switch_not_found invalid_id switch_exists :
      SwitchError
  switch_in_use invalid_type uplink_in_use wrong_type internal_db invalid_bridge_name : SwitchError
  fail_dummy unknown_nic_dev_type does_not_exist interface_does_not_exist : SwitchError
  command_failed database_error : SwitchError

unfoldable pub switch_type_valid : Switch → Bool
switch_type_valid s =
    if str_eq s.switch_type "IF" then true else if str_eq s.switch_type "NG" then true else false

-- What stands behind the prefix is a number of 32 bits that is spelled as Go prints it.
abbrev same_spelling : Text → Option ℤ → Bool
same_spelling t none = false
same_spelling t (some z) = text_eq t (codes (format_int z))

abbrev number_behind : Option Text → Bool
number_behind none = false
number_behind (some t) = same_spelling t (parse_int 32 t)

unfoldable pub switch_name_valid : Switch → Bool
unfolding check_in_range parse_int format_int text_eq
switch_name_valid s =
    if str_eq s.name ""
    then false
    else if not (check_in_range (codes s.name) vm_name_table)
    then false
    else if str_eq s.switch_type "IF"
    then number_behind (cut_prefix (codes s.name) (codes "bridge"))
    else if str_eq s.switch_type "NG"
    then number_behind (cut_prefix (codes s.name) (codes "bnet"))
    else false

unfoldable pub nic_type_match : Switch → VmNic → Bool
nic_type_match s nic =
    if str_eq s.switch_type "IF"
    then (if not (str_eq nic.net_dev_type "TAP") && not (str_eq nic.net_dev_type "VMNET")
        then false
        else true)
    else if str_eq s.switch_type "NG"
    then (if not (str_eq nic.net_dev_type "NETGRAPH") then false else true)
    else false

-- An interface of the host: its name, its groups (`none` where they cannot be read) and its address.
pub record Interface : Type 0 where
  pub name : String
  pub groups : Option (List String)
  pub hardware_addr : String

unfoldable pub get_all_host_interfaces : List Interface → List String
get_all_host_interfaces [] = []
get_all_host_interfaces (i ∷ is) = i.name ∷ get_all_host_interfaces is

-- The loop of `GetHostInterfaces`, with the names collected so far.
unfoldable pub collect_host_interfaces : List String → List Interface → List String
unfolding contains_str
collect_host_interfaces devs [] = devs
collect_host_interfaces devs (i ∷ is) =
    let skipped = collect_host_interfaces devs is in
    let kept = collect_host_interfaces (devs ++ i.name ∷ []) is in
    elim i.groups [
      | none ↦ []
      | some groups ↦
          if contains_str groups "cirrinad"
          then skipped
          else if str_eq i.hardware_addr ""
          then skipped
          else kept
    ]

-- `GetHostInterfaces`: the interfaces that the daemon did not make.
unfoldable pub get_host_interfaces : List Interface → List String
unfolding collect_host_interfaces
get_host_interfaces is = collect_host_interfaces [] is

unfoldable pub check_interface_exists : String → List Interface → Bool
unfolding get_host_interfaces contains_str
check_interface_exists name is = contains_str (get_host_interfaces is) name

-- The host's network: its interfaces, what `ifconfig` and `ngctl` print (`none` where they fail),
-- and what they change, with whether they succeeded.
pub record Commands : Type 1 where
  pub World : Type 0
  pub interfaces : World → List Interface
  pub list_bridges : World → Option String
  pub show_bridge : String → World → Option String
  pub create_bridge : String → World → Bool × World
  pub destroy_bridge : String → World → Bool × World
  pub add_member : String → String → World → Bool × World
  pub delete_member : String → String → World → Bool × World
  pub list_nodes : World → Option String
  pub show_node : String → World → Option String
  pub make_peer : String → World → Bool × World
  pub name_lower : String → String → World → Bool × World
  pub connect : String → String → String → String → World → Bool × World
  pub set_persistent : String → World → Bool × World
  pub remove_hook : String → String → World → Bool × World
  pub shutdown : String → World → Bool × World
