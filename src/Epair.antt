-- ===== src/Epair.antt =====
-- cirrinad/epair/epair.go: pairs of interfaces with a limited rate, and `Build` and `Demolish` of
-- cirrinad/vmnic/vm_nics.go: the host's devices behind NICs.
-- The commands are an interface, `Devices`, over the world that they change.
use cirrina.Prelude.{
  ℕ, String, Bool, true, false, not, ◌==◌, Option, none, some, List, [], ◌∷◌, str_eq, if◌then◌else◌,
}
use cirrina.Strconv.{append, codes, format_uint, cut_suffix}
use cirrina.Strconv.Fields.{split_on, fields}
use cirrina.Vm.Args.Net.{contains_str}
use cirrina.Vmnic.{
  VmNic, NicError, nic_exists, invalid_nic_name, unknown_net_dev_type, command_failed,
}
use cirrina.Switch.Bridges.{search_down}

-- `ifconfig` and `ngctl` for pairs, pipes and devices, with whether a command succeeded.
pub record Devices (World : Type 0) : Type 0 where
  pub list_epairs : World → Option String
  pub create_pair : String → World → Bool × World
  pub bring_up : String → World → Bool × World
  pub destroy : String → World → Bool × World
  pub make_pipe : String → World → Bool × World
  pub name_pipe : String → World → Bool × World
  pub connect_pipe : String → World → Bool × World
  pub set_bandwidth : String → String → World → Bool × World
  pub shutdown_pipe : String → World → Bool × World
  pub create_device : String → String → World → Bool × World

pub data EpairError : Type 0 where
  epair_name_empty epair_command_failed : EpairError

-- A step with the error that a failure stands for, and steps one after another.
abbrev pub ran {ℓ κ} : {World : Type ℓ} {E : Type κ} → E → Bool × World → Option E × World
ran e (true, w) = (none, w)
ran e (false, w) = (some e, w)

abbrev pub andthen {ℓ κ} :
    {World : Type ℓ} {E : Type κ} → Option E × World → (World → Option E × World) → Option E × World
andthen (some e, w) next = (some e, w)
andthen (none, w) next = next w

-- A line of one field that ends in "a" stands for a pair, whose name is what is before.
without_last : String → String
without_last String.[] = ""
without_last (String.◌∷◌ c s) =
    let rest = without_last s in if str_eq s "" then "" else String.◌∷◌ c rest

abbrev pair_text : Option (List ℕ) → String → Option String
pair_text none s = none
pair_text (some t) s = some (without_last s)

abbrev pair_of : List String → Option String
pair_of (f ∷ []) = pair_text (cut_suffix (codes f) (codes "a")) f
pair_of _ = none

abbrev with_pair : Option String → List String → List String
with_pair none ps = ps
with_pair (some p) ps = p ∷ ps

unfoldable pub parse_epairs : List String → List String
unfolding fields cut_suffix without_last
parse_epairs [] = []
parse_epairs (line ∷ lines) =
    let rest = parse_epairs lines in
    if str_eq line "" then rest else with_pair (pair_of (fields line)) rest

module _ {World : Type 0} (devices : Devices World) where
  open devices use {
    list_epairs, create_pair, bring_up, destroy, make_pipe, name_pipe, connect_pipe, set_bandwidth,
    shutdown_pipe, create_device,
  }

  unfoldable pub get_all_epair : World → Option (List String)
  unfolding parse_epairs split_on
  get_all_epair w = elim (list_epairs w) [
    | none ↦ none
    | some out ↦ some (parse_epairs (split_on 10 out))
  ]

  unfoldable pub get_dummy_epair_name : World → String
  unfolding get_all_epair search_down
  get_dummy_epair_name w = elim (get_all_epair w) [
    | none ↦ ""
    | some pairs ↦ search_down "epair" 32767 pairs
  ]

  unfoldable pub create_epair : String → World → Option EpairError × World
  create_epair name w =
      if str_eq name ""
      then (some epair_name_empty, w)
      else andthen (ran epair_command_failed (create_pair name w)) λ w1.
        andthen (ran epair_command_failed (bring_up (append name "a") w1))
          λ w2. ran epair_command_failed (bring_up (append name "b") w2)

  unfoldable pub destroy_epair : String → World → Option EpairError × World
  destroy_epair name w =
      if str_eq name ""
      then (some epair_name_empty, w)
      else ran epair_command_failed (destroy (append name "a") w)

  unfoldable pub ng_connect_pipe_with_rate_limit : String → ℕ → World → Option EpairError × World
  unfolding format_uint
  ng_connect_pipe_with_rate_limit name rate w =
      andthen (ran epair_command_failed (make_pipe name w)) λ w1.
        andthen (ran epair_command_failed (name_pipe name w1)) λ w2.
          andthen (ran epair_command_failed (connect_pipe name w2)) λ w3.
            if not (rate == 0)
            then ran epair_command_failed (set_bandwidth name (format_uint rate) w3)
            else (none, w3)

  unfoldable pub set_rate_limit : String → ℕ → ℕ → World → Option EpairError × World
  unfolding ng_connect_pipe_with_rate_limit
  set_rate_limit name rate_in rate_out w =
      andthen (ng_connect_pipe_with_rate_limit (append name "a") rate_in w)
        λ w1. ng_connect_pipe_with_rate_limit (append name "b") rate_out w1

  unfoldable pub ng_shutdown_pipe : String → World → Option EpairError × World
  ng_shutdown_pipe name w = ran epair_command_failed (shutdown_pipe name w)

  -- `interfaces` are the names of the host's interfaces, which `hostNicExists` looks through.
  make_device : List String → VmNic → World → Option NicError × World
  unfolding contains_str
  make_device interfaces nic w =
      if contains_str interfaces nic.net_dev
      then (some nic_exists, w)
      else if str_eq nic.net_dev ""
      then (some invalid_nic_name, w)
      else ran command_failed (create_device nic.net_dev nic.name w)

  drop_device : List String → VmNic → World → Option NicError × World
  unfolding contains_str
  drop_device interfaces nic w =
      if not (contains_str interfaces nic.net_dev)
      then (none, w)
      else if not (str_eq nic.net_dev "")
      then ran command_failed (destroy nic.net_dev w)
      else (none, w)

  unfoldable pub build : List String → VmNic → World → Option NicError × World
  unfolding make_device
  build interfaces nic w =
      if str_eq nic.net_dev_type "TAP"
      then make_device interfaces nic w
      else if str_eq nic.net_dev_type "VMNET"
      then make_device interfaces nic w
      else if str_eq nic.net_dev_type "NETGRAPH"
      then (none, w)
      else (some unknown_net_dev_type, w)

  unfoldable pub demolish : List String → VmNic → World → Option NicError × World
  unfolding drop_device
  demolish interfaces nic w =
      if str_eq nic.net_dev_type "TAP"
      then drop_device interfaces nic w
      else if str_eq nic.net_dev_type "VMNET"
      then drop_device interfaces nic w
      else if str_eq nic.net_dev_type "NETGRAPH"
      then (none, w)
      else (some unknown_net_dev_type, w)
