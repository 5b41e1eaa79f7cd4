-- ===== src/Vm/Networking/Own.antt =====
-- What connecting a NIC to a switch, and disconnecting it, leaves alone in the table of NICs.
use mathlib.Core.Path.{subst}
use cirrina.Prelude.{
  ℕ, String, ◌≡◌, refl, ◌∙◌, sym, ap, ◌≢◌, ◌↔◌, Bool, false, not, ◌&&◌, Option, List, [], ◌∷◌,
  str_eq, eq_iff, Bool-cases, inl, inr, Result, ok, err, Member, Member-cons, here, there, if_both,
}
use cirrina.Strconv.{append}
use cirrina.Store.{Store, StoreLaws, Write, failed, affected, change_where, Member-change_where}
use cirrina.Vmnic.{VmNic, NicError}
use cirrina.Vmnic.Table.{save}
use cirrina.Epair.{Devices, andthen, get_dummy_epair_name}
use cirrina.Switch.{Switch, Commands, nic_type_match}
use cirrina.Switch.Bridges.{
  get_dummy_bridge_name, create_if_switch_with_members, switch_if_delete_member,
}
use cirrina.Switch.Connect.{
  ConnectError, Nic, save_nic, set_up_bridge, make_pair, keep_pair, limit_pair, set_up_pair,
  join_switch, connect_if_nic, without_bridge, without_pair, unset_vm_nic_rate_limit, leave_switch,
  disconnect_if_nic, connect_nic, disconnect_nic, on_world, on_table, of_switch_step, of_nic_step,
}
use cirrina.Switch.Connect.Paired.{andthen-keeps}

kept_where {ℓ} :
    {A : Type ℓ} (p : A → Bool) (f : A → A) (x : A) (rs : List A)
    → p x ≡ false
    → Member x rs
    → Member x (change_where p f rs)
kept_where p f x [] other m = elim m [ ]
kept_where p f x (r ∷ rs) other m = elim (Member-cons m) [
  | inl same ↦ here (rw (ap p (sym same) ∙ other) same)
  | inr later ↦ there (kept_where p f x rs other later)
]

module _ (nics : Store VmNic) (laws : StoreLaws nics) where
  open nics use {Db, rows}

  -- The rows that are no NIC of the configuration are the same ones.
  abbrev pub SameOthers : ℕ → Db → Db → Type 0
  SameOthers c before after =
      (x : VmNic) → x.config_id ≢ c → Member x (rows before) ↔ Member x (rows after)

  -- A NIC of the configuration, whose ID no other NIC has.
  abbrev pub IsOwn : ℕ → Db → VmNic → Type 0
  IsOwn c before nic =
      (nic.config_id ≡ c) × ((x : VmNic) → Member x (rows before) → x.id ≡ nic.id → x.config_id ≡ c)

  written-SameOthers :
      (c : ℕ) (before : Db) (nic : VmNic) (db : Db) (written : Write)
      → (nics.update (λ row. str_eq row.id nic.id) (λ row. nic) db).0 ≡ written
      → IsOwn c before nic
      → SameOthers c before db
      → SameOthers c before (nics.update (λ row. str_eq row.id nic.id) (λ row. nic) db).1
  written-SameOthers c before nic db failed e own same x foreign =
      let p : VmNic → Bool = λ row. str_eq row.id nic.id in
      subst (λ (l : List VmNic). Member x (rows before) ↔ Member x l)
        (sym (laws.update_failed p (λ row. nic) db e)) (same x foreign)
  written-SameOthers c before nic db (affected n) e own same x foreign =
      let p : VmNic → Bool = λ row. str_eq row.id nic.id in
      subst (λ (l : List VmNic). Member x (rows before) ↔ Member x l)
        (sym (laws.update_done p (λ row. nic) db n e))
        (
          (λ m. elim (Bool-cases (p x)) [
            | inl named ↦ absurd (foreign (own.1 x m ((eq_iff x.id nic.id).0 named)))
            | inr other ↦ kept_where p (λ row. nic) x (rows db) other ((same x foreign).0 m)
          ]),
          (λ m.
              let (r, old, now) = Member-change_where p (λ row. nic) x (rows db) m in
              elim (Bool-cases (p r)) [
                | inl named ↦
                    let is_nic : x ≡ nic = now ∙ rw (named) refl in
                    absurd (foreign (ap (λ y. y.config_id) is_nic ∙ own.0))
                | inr other ↦
                    let is_old : x ≡ r = now ∙ rw (other) refl in
                    (same x foreign).1 (subst (λ (y : VmNic). Member y (rows db)) (sym is_old) old)
              ]),
        )

  save-SameOthers :
      (c : ℕ) (before : Db) (nic : VmNic) (db : Db)
      → IsOwn c before nic
      → SameOthers c before db
      → SameOthers c before (save nics nic db).1
  unfolding save
  save-SameOthers c before nic db =
      written-SameOthers c before nic db
        (nics.update (λ row. str_eq row.id nic.id) (λ row. nic) db).0 refl

  module _ (commands : Commands) (devices : Devices commands.World) (c : ℕ) (before : Db) where
    abbrev State : Type 0
    State = Nic commands devices nics

    abbrev pub Inv : State → Type 0
    Inv s = IsOwn c before s.nic × SameOthers c before s.db

    abbrev pub Keeps : (State → Option ConnectError × State) → Type 0
    Keeps step = (s : State) → Inv s → Inv (step s).1

    written_back :
        (s : State) (saved : Result NicError (Unit {0}) × Db)
        → ((on_table commands devices nics s (of_nic_step saved)).1).db ≡ saved.1
    written_back s (ok _, db) = refl
    written_back s (err e, db) = refl

    same_nic :
        (s : State) (saved : Result NicError (Unit {0}) × Db)
        → ((on_table commands devices nics s (of_nic_step saved)).1).nic ≡ s.nic
    same_nic s (ok _, db) = refl
    same_nic s (err e, db) = refl

    save_nic-Inv : Keeps (save_nic commands devices nics)
    unfolding save_nic
    save_nic-Inv s (own, same) =
        let saved = save nics s.nic s.db in
        (
          subst (IsOwn c before) (sym (same_nic s saved)) own,
          subst (SameOthers c before) (sym (written_back s saved))
              (save-SameOthers c before s.nic s.db own same),
        )

    both :
        (first next : State → Option ConnectError × State)
        → Keeps first
        → Keeps next
        → Keeps (λ s. andthen (first s) next)
    both first next h k s inv = andthen-keeps commands devices nics Inv (first s) next (h s inv) k

    host_step :
        (s : State) (ended : Option ConnectError × commands.World)
        → Inv s
        → Inv (on_world commands devices nics s ended).1
    host_step s (e, w) inv = inv

    set_up_bridge-Inv : (pair : String) → Keeps (set_up_bridge commands devices nics pair)
    unfolding set_up_bridge
    set_up_bridge-Inv pair s inv =
        let bridge = get_dummy_bridge_name commands s.world in
        let members = append pair "a" ∷ s.nic.net_dev ∷ [] in
        andthen-keeps commands devices nics Inv
          (on_world commands devices nics s
            (of_switch_step (create_if_switch_with_members commands bridge members s.world)))
          (λ s'.
            save_nic commands devices nics
              (record s' { nic = record s'.nic { inst_bridge = bridge } }))
          inv
          (λ s' inv'.
            save_nic-Inv (record s' { nic = record s'.nic { inst_bridge = bridge } }) inv')

    set_up_pair-Inv : (pair : String) → Keeps (set_up_pair commands devices nics pair)
    unfolding set_up_pair make_pair keep_pair limit_pair
    set_up_pair-Inv pair =
        let limit = limit_pair commands devices nics pair in
        let bridge = set_up_bridge commands devices nics pair in
        let keep = keep_pair commands devices nics pair in
        both (make_pair commands devices nics pair)
          (λ s1. andthen (keep s1) λ s2. andthen (limit s2) bridge) (λ s inv. inv)
          (both keep (λ s2. andthen (limit s2) bridge)
            (λ s inv. save_nic-Inv (record s { nic = record s.nic { inst_epair = pair } }) inv)
            (both limit bridge (λ s inv. inv) (set_up_bridge-Inv pair)))

    pub connect_nic-Inv : (sw : Switch) → Keeps (connect_nic commands devices nics sw)
    unfolding connect_nic connect_if_nic join_switch
    connect_nic-Inv sw s inv =
        let P : Option ConnectError × State → Type 0 = λ out. Inv out.1 in
        let pair = get_dummy_epair_name devices s.world in
        if_both P (not (nic_type_match sw s.nic)) inv (
          if_both P (str_eq sw.switch_type "IF")
            (if_both P s.nic.rate_limit
              (both (set_up_pair commands devices nics pair)
                (join_switch commands devices nics sw (append pair "b")) (set_up_pair-Inv pair)
                (λ s' inv'. inv') s inv)
              inv)
            (if_both P (str_eq sw.switch_type "NG") inv inv))

    unset-Inv : Keeps (unset_vm_nic_rate_limit commands devices nics)
    unfolding unset_vm_nic_rate_limit without_bridge without_pair
    unset-Inv s inv =
        let unbridged = without_bridge commands devices nics s in
        let no_bridge : Inv unbridged = if_both Inv (not (str_eq s.nic.inst_bridge "")) inv inv in
        let no_pair : Inv (without_pair commands devices nics unbridged) =
          if_both Inv (not (str_eq unbridged.nic.inst_epair "")) no_bridge no_bridge in
        if_both (λ (out : Option ConnectError × State). Inv out.1)
          (str_eq s.nic.inst_bridge "" && str_eq s.nic.inst_epair "") inv
          (save_nic-Inv (without_pair commands devices nics unbridged) no_pair)

    leave_switch-Inv :
        (sw : Switch) (member : String) → Keeps (leave_switch commands devices nics sw member)
    unfolding leave_switch
    leave_switch-Inv sw member s inv =
        andthen-keeps commands devices nics Inv
          (on_world commands devices nics s
            (of_switch_step (switch_if_delete_member commands sw.name member s.world)))
          (unset_vm_nic_rate_limit commands devices nics) inv unset-Inv

    pub disconnect_nic-Inv : (sw : Switch) → Keeps (disconnect_nic commands devices nics sw)
    unfolding disconnect_nic disconnect_if_nic
    disconnect_nic-Inv sw s inv =
        let P : Option ConnectError × State → Type 0 = λ out. Inv out.1 in
        if_both P (not (nic_type_match sw s.nic)) inv (
          if_both P (str_eq sw.switch_type "IF")
            (if_both P s.nic.rate_limit
              (if_both P (str_eq s.nic.inst_epair "") inv
                (leave_switch-Inv sw (append s.nic.inst_epair "b") s inv))
              (if_both P (str_eq s.nic.net_dev "") inv (leave_switch-Inv sw s.nic.net_dev s inv)))
            inv)
