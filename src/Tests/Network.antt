-- ===== src/Tests/Network.antt =====
-- Runs of netStart and NetStop of cirrinad/vm/nic.go.
use mathlib.Core.Bool.{false≢true}
use cirrina.Prelude.{
  ◌≡◌, ap, Member, Member-cons, ◌≢◌, ◌↔◌, sym, ◌∙◌, false, none, List, [], ◌∷◌, eq_iff, inl, inr,
}
use cirrina.Vmnic.{VmNic}
use cirrina.Tests.Tables.{list_store, list_store-laws}
use cirrina.Vm.Networking.{Net, net_start, net_stop}
use cirrina.Vm.Networking.Own.{SameOthers}
use cirrina.Vm.Networking.Others.{net_start-net_stop-SameOthers}
use cirrina.Tests.Slots.{nic, web}
use cirrina.Tests.Connect.{limited_nic}
use cirrina.Tests.Switches.{commands, devices, lan, switches}

abbrev two_nics : List VmNic
two_nics =
    record limited_nic { switch_id = "sw-1" } ∷ record nic { id = "nic-2"; config_id = 9 } ∷ []

abbrev idle_host : Net commands devices (list_store VmNic) switches
idle_host = record { db = two_nics; world = false }

keyed :
    (x y : VmNic) → Member x two_nics → Member y two_nics → x.id ≡ y.id → x.config_id ≡ y.config_id
keyed x y mx my same = elim (Member-cons mx) [
  | inl x_first ↦ elim (Member-cons my) [
    | inl y_first ↦ ap (λ r. r.config_id) (x_first ∙ sym y_first)
    | inr y_later ↦ elim (Member-cons y_later) [
      | inl y_second ↦
          absurd
            (first_is_not_second (sym (ap (λ r. r.id) x_first) ∙ same ∙ ap (λ r. r.id) y_second))
      | inr nothing ↦ elim nothing [ ]
    ]
  ]
  | inr x_later ↦ elim (Member-cons x_later) [
    | inl x_second ↦ elim (Member-cons my) [
      | inl y_first ↦
          absurd (
            first_is_not_second (sym (ap (λ r. r.id) y_first) ∙ sym same ∙ ap (λ r. r.id) x_second))
      | inr y_later ↦ elim (Member-cons y_later) [
        | inl y_second ↦ ap (λ r. r.config_id) (x_second ∙ sym y_second)
        | inr nothing ↦ elim nothing [ ]
      ]
    ]
    | inr nothing ↦ elim nothing [ ]
  ]
]
  where
    first_is_not_second : nic.id ≢ "nic-2"
    first_is_not_second e = false≢true ((eq_iff "nic-1" "nic-2").1 e)

net_start-net_stop-SameOthers_example :
    let (failure, started) =
      net_start commands devices (list_store VmNic) switches (lan ∷ []) web idle_host in
    let stopped = net_stop commands devices (list_store VmNic) switches (lan ∷ []) web idle_host in
    ((failure ≡ none) ↔ (false ≡ false))
    × SameOthers (list_store VmNic) (list_store-laws VmNic) 4 two_nics started.db
    × SameOthers (list_store VmNic) (list_store-laws VmNic) 4 two_nics stopped.db
net_start-net_stop-SameOthers_example =
    net_start-net_stop-SameOthers (list_store VmNic) (list_store-laws VmNic) commands devices
      switches (lan ∷ []) web idle_host keyed
