-- ===== src/Switch/Types.antt =====
-- Which NICs fit a switch: `ParseSwitchID` and `nicTypeMatch` of cirrinad/switch/switch.go.
use cirrina.Prelude.{
  String, ◌≡◌, refl, ◌∙◌, ap, ◌≢◌, ◌↔◌, not, Bool, true, false, ◌&&◌, Option, some, arith, str_eq,
  eq_iff, if◌then◌else◌, Result, ok, err,
}
use cirrina.Store.{Store}
use cirrina.Vmnic.{VmNic}
use cirrina.Switch.{
  Switch, SwitchError, Commands, invalid_name, wrong_type, unknown_nic_dev_type, nic_type_match,
}
use cirrina.Switch.Table.{match_dev_type, get_by_id, parse_switch_id}

-- The same by the outcomes of the five tests on texts.
both_tests :
    (tap vmnet netgraph is_if is_ng : Bool) (u : String)
    → (tap ≡ true → netgraph ≡ false)
    → (vmnet ≡ true → netgraph ≡ false)
    → (is_if ≡ true → is_ng ≡ false)
    → ((if tap
          then (if not is_if then err wrong_type else ok u)
          else if vmnet
          then (if not is_if then err wrong_type else ok u)
          else if netgraph
          then (if not is_ng then err wrong_type else ok u)
          else err unknown_nic_dev_type)
        ≡ ok u)
      ↔ ((if is_if
            then (if not tap && not vmnet then false else true)
            else if is_ng
            then (if not netgraph then false else true)
            else false)
          ≡ true)
both_tests tap vmnet netgraph is_if is_ng u h1 h2 h3 = ground arith

exclusive : (t a b : String) → str_eq a b ≡ false → str_eq t a ≡ true → str_eq t b ≡ false
exclusive t a b other same = ap (λ x. str_eq x b) ((eq_iff t a).0 same) ∙ other

match_dev_type-nic_type_match :
    (s : Switch) (nic : VmNic) (u : String)
    → (match_dev_type nic.net_dev_type s u ≡ ok u) ↔ (nic_type_match s nic ≡ true)
unfolding match_dev_type nic_type_match
match_dev_type-nic_type_match s nic u =
    let t = nic.net_dev_type in
    both_tests (str_eq t "TAP") (str_eq t "VMNET") (str_eq t "NETGRAPH") (str_eq s.switch_type "IF")
      (str_eq s.switch_type "NG") u (exclusive t "TAP" "NETGRAPH" refl)
      (exclusive t "VMNET" "NETGRAPH" refl) (exclusive s.switch_type "IF" "NG" refl)

named_iff :
    (name u : String) (r : Result SwitchError String)
    → ((if str_eq name "" then err invalid_name else r) ≡ ok u) ↔ ((name ≢ "") × (r ≡ ok u))
named_iff name u r = ground (arith, eq_iff name "")

module _ (commands : Commands) (store : Store Switch) where
  open store use {Db}

  -- Where an ID parses and a switch has it, `ParseSwitchID` accepts the switch for a type of device
  -- exactly if the switch has a name and `nicTypeMatch` lets NICs with that type of device onto it.
  pub parse_switch_id-nic_type_match :
      (parse : String → Option String) (i u : String) (s : Switch) (nic : VmNic) (db : Db)
      → i ≢ ""
      → parse i ≡ some u
      → get_by_id commands store u db ≡ ok s
      → (parse_switch_id commands store parse i nic.net_dev_type db ≡ ok u)
        ↔ ((s.name ≢ "") × (nic_type_match s nic ≡ true))
  unfolding parse_switch_id
  parse_switch_id-nic_type_match parse i u s nic db given parsed found =
      let spelled : str_eq i "" ≡ false = ground (arith, eq_iff i "") in
      rw (spelled, parsed, found)
        (let (to, from) = named_iff s.name u (match_dev_type nic.net_dev_type s u) in
          let (onto, back) = match_dev_type-nic_type_match s nic u in
          ((λ e. ((to e).0, onto (to e).1)), λ h. from (h.0, back h.1)))
