-- ===== src/Tests/Connect.antt =====
-- Runs of ConnectNic and DisconnectNic of cirrinad/switch/switch.go.
use cirrina.Prelude.{String, str_eq, map, some, true, false, none, List, [], ◌∷◌}
use cirrina.Epair.{Devices}
use cirrina.Vmnic.{VmNic}
use cirrina.Switch.{Interface, Commands}
use cirrina.Switch.Connect.{Nic, connect_nic}
use cirrina.Strconv.{append}
use cirrina.Store.{remove_where}
use cirrina.Tests.Tables.{list_store}
use cirrina.Tests.Slots.{nic}
use cirrina.Tests.Switches.{lan}

-- The world is the list of the host's interfaces, and every command succeeds.
abbrev interface_of : String → Interface
interface_of name = record { name = name; groups = some []; hardware_addr = "" }

abbrev away : String → List String → List String
away d w = remove_where (λ x. str_eq x d) w

abbrev host_commands : Commands
host_commands = record {
  World = List String;
  interfaces = λ w. map interface_of w;
  list_bridges = λ w. some "bridge0";
  show_bridge = λ b w. some "";
  create_bridge = λ b w. (true, b ∷ w);
  destroy_bridge = λ b w. (true, away b w);
  add_member = λ b m w. (true, w);
  delete_member = λ b m w. (true, w);
  list_nodes = λ w. none;
  show_node = λ n w. none;
  make_peer = λ d w. (false, w);
  name_lower = λ d n w. (false, w);
  connect = λ a b c d w. (false, w);
  set_persistent = λ n w. (false, w);
  remove_hook = λ b h w. (false, w);
  shutdown = λ n w. (false, w);
}

abbrev host_devices : Devices (List String)
host_devices = record {
  list_epairs = λ w. some "";
  create_pair = λ e w. (true, append e "a" ∷ append e "b" ∷ w);
  bring_up = λ e w. (true, w);
  destroy = λ d w. (true, away d w);
  make_pipe = λ e w. (true, w);
  name_pipe = λ e w. (true, w);
  connect_pipe = λ e w. (true, w);
  set_bandwidth = λ e rate w. (true, w);
  shutdown_pipe = λ e w. (true, w);
  create_device = λ d n w. (true, d ∷ w);
}

abbrev pub limited_nic : VmNic
limited_nic = record nic {
  rate_limit = true;
  rate_in = 10;
  rate_out = 10;
  inst_epair = "";
  inst_bridge = "";
}

abbrev nic_in_hand : Nic host_commands host_devices (list_store VmNic)
nic_in_hand = record { nic = limited_nic; db = nic ∷ []; world = "bridge0" ∷ "tap1" ∷ [] }

abbrev connected : Nic host_commands host_devices (list_store VmNic)
connected = (connect_nic host_commands host_devices (list_store VmNic) lan nic_in_hand).1
