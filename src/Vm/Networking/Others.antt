-- ===== src/Vm/Networking/Others.antt =====
-- What starting and stopping the network of a VM leaves alone: cirrinad/vm/nic.go.
use cirrina.Prelude.{
  ℕ, ◌≡◌, refl, ◌∙◌, ◌↔◌, false, Option, none, some, List, [], ◌∷◌, ◌==◌, ==_iff, str_eq,
  Bool-cases, inl, inr, Result, ok, err, Member, here, there, if_split, if_both, All,
}
use cirrina.Store.{Store, StoreLaws}
use cirrina.Vmnic.{VmNic, NicError}
use cirrina.Vmnic.Table.{get_nics, select_nics}
use cirrina.Epair.{Devices, build}
use cirrina.Switch.{Switch, SwitchError, Commands}
use cirrina.Switch.Table.{get_by_id}
use cirrina.Vm.{Vm}
use cirrina.Vm.Networking.Own.{SameOthers, IsOwn, connect_nic-Inv, disconnect_nic-Inv}
use cirrina.Vm.Networking.{
  Net, in_hand, host_interfaces, connect_to, disconnect_from, connect_built, start_nic, stop_nic,
  start_nics, stop_nics, net_start, net_stop,
}

module _ (nics : Store VmNic) (laws : StoreLaws nics) (commands : Commands)
    (devices : Devices commands.World) (c : ℕ) (before : nics.Db) (switches : Store Switch) where
  abbrev Host : Type 0
  Host = Net commands devices nics switches

  abbrev Same : Host → Type 0
  Same s = SameOthers nics laws c before s.db

  connect_built-Same :
      (switch_db : switches.Db) (nic : VmNic) (failure : Option NicError) (s : Host)
      → IsOwn nics laws c before nic
      → Same s
      → Same (connect_built commands devices nics switches switch_db nic failure s)
  unfolding connect_built connect_to
  connect_built-Same switch_db nic (some e) s own same = same
  connect_built-Same switch_db nic none s own same =
      if_both Same (str_eq nic.switch_id "") same
        (connected (get_by_id commands switches nic.switch_id switch_db))
    where
      connected :
          (found : Result SwitchError Switch)
          → Same (connect_to commands devices nics switches found nic s)
      connected (err e) = same
      connected (ok sw) =
          (connect_nic-Inv nics laws commands devices c before sw
            (in_hand commands devices nics switches nic s) (own, same)).1

  stop_nic-Same :
      (switch_db : switches.Db) (nic : VmNic) (s : Host)
      → IsOwn nics laws c before nic
      → Same s
      → Same (stop_nic commands devices nics switches switch_db nic s)
  unfolding stop_nic disconnect_from
  stop_nic-Same switch_db nic s own same =
      if_both Same (str_eq nic.switch_id "") same
        (disconnected (get_by_id commands switches nic.switch_id switch_db))
    where
      disconnected :
          (found : Result SwitchError Switch)
          → Same (disconnect_from commands devices nics switches found nic s)
      disconnected (err e) = same
      disconnected (ok sw) =
          (disconnect_nic-Inv nics laws commands devices c before sw
            (in_hand commands devices nics switches nic s) (own, same)).1

  start_nics-Same :
      (switch_db : switches.Db) (own : List VmNic) (s : Host)
      → All (IsOwn nics laws c before) own
      → Same s
      → Same (start_nics commands devices nics switches switch_db own s)
  unfolding start_nics start_nic
  start_nics-Same switch_db [] s all same = same
  start_nics-Same switch_db (nic ∷ rest) s (own, all) same =
      let built = build devices (host_interfaces commands devices nics switches s) nic s.world in
      start_nics-Same switch_db rest (start_nic commands devices nics switches switch_db nic s) all
        (connect_built-Same switch_db nic built.0 (record s { world = built.1 }) own same)

  stop_nics-Same :
      (switch_db : switches.Db) (own : List VmNic) (s : Host)
      → All (IsOwn nics laws c before) own
      → Same s
      → Same (stop_nics commands devices nics switches switch_db own s)
  unfolding stop_nics
  stop_nics-Same switch_db [] s all same = same
  stop_nics-Same switch_db (nic ∷ rest) s (own, all) same =
      stop_nics-Same switch_db rest (stop_nic commands devices nics switches switch_db nic s) all
        (stop_nic-Same switch_db nic s own same)

module _ (nics : Store VmNic) (laws : StoreLaws nics) where
  open nics use {Db, rows}

  selected-IsOwn :
      (c : ℕ) (before : Db) (rs : List VmNic)
      → ((x y : VmNic)
          → Member x (rows before)
          → Member y rs
          → x.id ≡ y.id
          → x.config_id ≡ y.config_id)
      → All (IsOwn nics laws c before) (select_nics nics c rs)
  unfolding select_nics
  selected-IsOwn c before [] keyed = tt
  selected-IsOwn c before (r ∷ rs) keyed =
      let rest = selected-IsOwn c before rs (λ x y m m'. keyed x y m (there m')) in
      if_split (All (IsOwn nics laws c before)) (r.config_id == c)
        (λ this.
          let chosen = (==_iff r.config_id c).0 this in
          ((chosen, λ x m same. keyed x r m (here refl) same ∙ chosen), rest))
        (λ _. rest)

  -- Starting the network of a VM fails exactly if the query for its NICs does, and neither starting
  -- nor stopping it adds, changes or removes the row of a NIC of any other VM, or of none, whatever
  -- the commands and the updates answer, if rows of the same ID are of the same VM.
  pub net_start-net_stop-SameOthers :
      (commands : Commands) (devices : Devices commands.World) (switches : Store Switch)
      (switch_db : switches.Db) (v : Vm) (s : Net commands devices nics switches)
      → ((x y : VmNic)
          → Member x (rows s.db)
          → Member y (rows s.db)
          → x.id ≡ y.id
          → x.config_id ≡ y.config_id)
      → let (failure, started) = net_start commands devices nics switches switch_db v s in
        let stopped = net_stop commands devices nics switches switch_db v s in
        ((failure ≡ none) ↔ (nics.query_fails s.db ≡ false))
        × SameOthers nics laws v.config.id s.db started.db
        × SameOthers nics laws v.config.id s.db stopped.db
  unfolding net_start net_stop get_nics
  net_start-net_stop-SameOthers commands devices switches switch_db v s keyed =
      let c = v.config.id in
      let all = selected-IsOwn c s.db (rows s.db) keyed in
      let at_first : SameOthers nics laws c s.db s.db = λ x foreign. (λ m. m, λ m. m) in
      elim (Bool-cases (nics.query_fails s.db)) [
        | inl fails ↦
            rw (net_start, net_stop, get_nics, fails) ((λ e. cc, λ e. cc), at_first, at_first)
        | inr works ↦
            rw (net_start, net_stop, get_nics, works)
              (
                (λ e. refl, λ e. refl),
                start_nics-Same nics laws commands devices c s.db switches switch_db
                    (select_nics nics c (rows s.db)) s all at_first,
                stop_nics-Same nics laws commands devices c s.db switches switch_db
                    (select_nics nics c (rows s.db)) s all at_first,
              )
      ]
