-- ===== src/Vmnic.antt =====
-- cirrinad/vmnic/vm_nics.go: network interfaces of VMs, their validation and their table.
-- `Table` has the operations on the database; the other children are about addresses (`Mac`),
-- validation (`Validated`) and the table (`TableLaws`).
pub mod Table
pub mod Mac
pub mod Validated
pub mod TableLaws
use cirrina.Prelude.{
  ℕ, String, ◌≡◌, refl, Bool, true, false, not, ◌||◌, Option, none, some, List, [], ◌∷◌, ◌==◌,
  str_eq, if◌then◌else◌, length, Result, ok, err,
}
use cirrina.Strconv.{Text, codes, concat}
use cirrina.Util.Name.{valid_nic_name}
use cirrina.Util.Mac.{HardwareAddr, MacError, parse_mac, mac_string, is_ethernet, mac_is_broadcast}

-- The rate limits and the two installed device names are carried along and read by no function here.
pub record VmNic : Type 0 where
  pub id : String
  pub name : String
  pub description : String
  pub mac : String
  pub net_dev : String
  pub net_type : String
  pub net_dev_type : String
  pub switch_id : String
  pub rate_limit : Bool
  pub rate_in : ℕ
  pub rate_out : ℕ
  pub inst_bridge : String
  pub inst_epair : String
  pub config_id : ℕ

pub data NicError : Type 0 where
  nic_exists nic_not_found nic_in_use invalid_nic_name internal_db invalid_mac : NicError
  invalid_mac_broadcast invalid_mac_multicast invalid_net_type invalid_net_dev_type : NicError
  unknown_net_dev_type database_error command_failed : NicError

unfoldable pub nic_dev_type_valid : String → Bool
nic_dev_type_valid t =
    if str_eq t "TAP"
    then true
    else if str_eq t "VMNET"
    then true
    else if str_eq t "NETGRAPH"
    then true
    else false

unfoldable pub nic_type_valid : String → Bool
nic_type_valid t = if str_eq t "VIRTIONET" then true else if str_eq t "E1000" then true else false

-- The address in Go's own spelling, if it is one of six bytes.
unfoldable pub normal_mac : Option HardwareAddr → Result NicError String
normal_mac none = err invalid_mac
normal_mac (some hw) = if not (is_ethernet hw) then err invalid_mac else ok (mac_string hw)

-- The two tests of `ParseMac` are package variables. The second is initialised with
-- `util.MacIsBroadcast` too.
abbrev pub mac_is_broadcast_func : Text → Result MacError Bool
mac_is_broadcast_func = mac_is_broadcast

abbrev pub mac_is_multicast_func : Text → Result MacError Bool
mac_is_multicast_func = mac_is_broadcast

abbrev pub refuse_if :
    NicError → Result MacError Bool → Result NicError String → Result NicError String
refuse_if e (err m) rest = err invalid_mac
refuse_if e (ok true) rest = err e
refuse_if e (ok false) rest = rest

-- `ParseMac`
unfoldable pub parse_nic_mac : String → Result NicError String
unfolding normal_mac
parse_nic_mac address =
    if str_eq address "AUTO"
    then ok address
    else if str_eq address ""
    then err invalid_mac
    else refuse_if invalid_mac_broadcast (mac_is_broadcast_func (codes address)) (
        refuse_if invalid_mac_multicast (mac_is_multicast_func (codes address))
          (normal_mac (parse_mac (codes address))))

unfoldable pub with_mac : VmNic → Result NicError String → Result NicError VmNic
with_mac nic (err e) = err e
with_mac nic (ok mac) = ok (record nic { mac = mac })

-- `Validate` normalises the address in place.
unfoldable pub validate : VmNic → Result NicError VmNic
unfolding normal_mac with_mac nic_type_valid nic_dev_type_valid
validate nic =
    if not (valid_nic_name nic.name)
    then err invalid_nic_name
    else if not (nic_type_valid nic.net_type)
    then err invalid_net_type
    else if not (nic_dev_type_valid nic.net_dev_type)
    then err invalid_net_dev_type
    else if not (str_eq nic.mac "AUTO")
    then with_mac nic (normal_mac (parse_mac (codes nic.mac)))
    else ok nic

abbrev or_default : String → String → String
or_default s d = if str_eq s "" then d else s

-- The defaults at the head of `Create`.
unfoldable pub with_defaults : VmNic → VmNic
with_defaults nic = record nic {
  mac = or_default nic.mac "AUTO";
  net_type = or_default nic.net_type "VIRTIONET";
  net_dev_type = or_default nic.net_dev_type "TAP";
}

unfoldable pub in_use : VmNic → Bool
in_use nic = not (nic.config_id == 0)

-- `GetMAC`: `hash` is the hash of the four texts in the OUI's tail, as `rxhash.HashStruct` gives it,
-- already cut into pairs of digits; `none` where it fails.
unfoldable pub get_mac :
    (String → String → String → String → Option String) → String → VmNic → String → String → String
get_mac hash oui nic vm_id vm_name =
    if str_eq nic.mac "AUTO"
    then elim (hash vm_id vm_name nic.id nic.name) [
      | none ↦ ""
      | some tail ↦ concat (oui ∷ ":" ∷ tail ∷ [])
    ]
    else nic.mac
