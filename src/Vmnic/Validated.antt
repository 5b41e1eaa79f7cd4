-- ===== src/Vmnic/Validated.antt =====
-- What `Validate` of cirrinad/vmnic/vm_nics.go tells of a NIC that it accepts.
use mathlib.Core.Path.{subst}
use cirrina.Prelude.{
  String, ◌≡◌, refl, true, not, str_eq, Result, ok, err, ok-injective, if_split, arith,
}
use cirrina.Strconv.{codes}
use cirrina.Util.Name.{valid_nic_name}
use cirrina.Util.Mac.{parse_mac}
use cirrina.Vmnic.{
  VmNic, NicError, validate, with_mac, normal_mac, nic_type_valid, nic_dev_type_valid,
}

-- What validation keeps and what it tells.
pub record IsValidated (before after : VmNic) : Type 0 where
  pub name_valid : valid_nic_name after.name ≡ true
  pub type_valid : nic_type_valid after.net_type ≡ true
  pub dev_type_valid : nic_dev_type_valid after.net_dev_type ≡ true
  pub config_kept : after.config_id ≡ before.config_id
  pub name_kept : after.name ≡ before.name

with_mac_lem :
    (nic after : VmNic) (r : Result NicError String)
    → valid_nic_name nic.name ≡ true
    → nic_type_valid nic.net_type ≡ true
    → nic_dev_type_valid nic.net_dev_type ≡ true
    → with_mac nic r ≡ ok after
    → IsValidated nic after
unfolding with_mac
with_mac_lem nic after (err e) n t d same = absurd (cc)
with_mac_lem nic after (ok mac) n t d same =
    subst (λ a. IsValidated nic a) (ok-injective same)
      (record {
        name_valid = n;
        type_valid = t;
        dev_type_valid = d;
        config_kept = refl;
        name_kept = refl;
      })

pub validate_lem : (nic after : VmNic) → validate nic ≡ ok after → IsValidated nic after
unfolding validate
validate_lem nic after =
    let P : Result NicError VmNic → Type 0 = λ r. r ≡ ok after → IsValidated nic after in
    if_split P (not (valid_nic_name nic.name)) (λ bad e. absurd (cc))
      (λ name.
        if_split P (not (nic_type_valid nic.net_type)) (λ bad e. absurd (cc))
          (λ type.
            if_split P (not (nic_dev_type_valid nic.net_dev_type)) (λ bad e. absurd (cc))
              (λ dev.
                if_split P (not (str_eq nic.mac "AUTO"))
                  (λ given.
                    with_mac_lem nic after (normal_mac (parse_mac (codes nic.mac))) (ground arith)
                      (ground arith) (ground arith))
                  (λ auto e.
                    subst (λ a. IsValidated nic a) (ok-injective e)
                      (record {
                        name_valid = ground arith;
                        type_valid = ground arith;
                        dev_type_valid = ground arith;
                        config_kept = refl;
                        name_kept = refl;
                      })))))
