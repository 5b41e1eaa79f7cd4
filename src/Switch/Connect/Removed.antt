-- ===== src/Switch/Connect/Removed.antt =====
-- That taking a NIC off a switch removes its bridge and its pair from the host:
-- `unsetVMNicRateLimit` of cirrinad/switch/bridge_if.go.
use mathlib.Core.Bool.{false≢true}
use mathlib.Core.Path.{subst}
use cirrina.Prelude.{
  String, ◌≡◌, refl, sym, ◌∙◌, ◌≢◌, ◌⊎◌, Bool, true, false, not, Option, str_eq, eq_iff, Bool-cases,
  inl, inr, if_split, ◌&&◌, Result, ok, err, arith,
}
use cirrina.Store.{Store}
use cirrina.Strconv.{append}
use cirrina.Vm.Args.Net.{contains_str}
use cirrina.Vmnic.{VmNic, NicError}
use cirrina.Vmnic.Table.{save}
use cirrina.Switch.{Commands, SwitchError, get_all_host_interfaces}
use cirrina.Epair.{Devices, EpairError, ran, destroy_epair, ng_shutdown_pipe}
use cirrina.Switch.Bridges.{ran as switch_ran, has_prefix, destroy_if_switch}
use cirrina.Switch.Connect.{
  ConnectError, Nic, on_table, of_nic_step, save_nic, without_bridge, without_pair,
  unset_vm_nic_rate_limit,
}

-- No bridge, or a name that `destroyIfSwitch` accepts.
abbrev pub IsBridgeName : String → Type 0
IsBridgeName b = (b ≡ "") ⊎ (has_prefix b "bridge" ≡ true)

module _ (commands : Commands) (devices : Devices commands.World) where
  open commands use {World, interfaces, destroy_bridge}
  open devices use {destroy, shutdown_pipe}

  -- The host has an interface of the name.
  abbrev pub HasInterface : String → World → Type 0
  HasInterface name w = contains_str (get_all_host_interfaces (interfaces w)) name ≡ true

  -- `ifconfig`: a destroy that succeeds removes the interface, and neither a destroy nor the shutdown
  -- of a pipe brings up an interface.
  pub record HostLaws : Type 0 where
    pub bridge_destroyed :
        (b : String) (w : World)
        → (destroy_bridge b w).0 ≡ true
        → ¬ HasInterface b (destroy_bridge b w).1
    pub device_destroyed :
        (d : String) (w : World) → (destroy d w).0 ≡ true → ¬ HasInterface d (destroy d w).1
    pub destroy_keeps :
        (n d : String) (w : World) → HasInterface n (destroy d w).1 → HasInterface n w
    pub shutdown_keeps :
        (n p : String) (w : World) → HasInterface n (shutdown_pipe p w).1 → HasInterface n w

  -- The destroy of an interface that the host has does not fail.
  pub record DestroysWork : Type 0 where
    pub bridges : (b : String) (w : World) → HasInterface b w → (destroy_bridge b w).0 ≡ true
    pub others : (d : String) (w : World) → HasInterface d w → (destroy d w).0 ≡ true

  ran_world : {E : Type 0} (e : E) (x : Bool × World) → (ran e x).1 ≡ x.1
  ran_world e (true, w) = refl
  ran_world e (false, w) = refl

  switch_ran_world : (x : Bool × World) → (switch_ran commands x).1 ≡ x.1
  switch_ran_world (true, w) = refl
  switch_ran_world (false, w) = refl

  -- The bridge of the NIC, and its pair, are no interfaces of the host.
  abbrev pub Gone : VmNic → World → Type 0
  Gone nic w =
      (nic.inst_bridge ≢ "" → ¬ HasInterface nic.inst_bridge w)
      × (nic.inst_epair ≢ "" → ¬ HasInterface (append nic.inst_epair "a") w)

  module _ (laws : HostLaws) (works : DestroysWork) where
    bridge_gone :
        (b : String) (w : World)
        → has_prefix b "bridge" ≡ true
        → ¬ HasInterface b (destroy_if_switch commands b false w).1
    unfolding destroy_if_switch
    bridge_gone b w named =
        let P : Option SwitchError × World → Type 0 = λ out. ¬ HasInterface b out.1 in
        let there = contains_str (get_all_host_interfaces (interfaces w)) b in
        if_split P (not (has_prefix b "bridge")) (λ wrong. absurd (ground arith))
          (λ _.
            if_split P (not there) (λ away m. ground arith)
              (λ present.
                subst (λ (v : World). ¬ HasInterface b v)
                  (sym (switch_ran_world (destroy_bridge b w)))
                  (laws.bridge_destroyed b w (works.bridges b w (ground arith)))))

    shutdown_back :
        (n pipe : String) (w : World)
        → HasInterface n (ng_shutdown_pipe devices pipe w).1
        → HasInterface n w
    unfolding ng_shutdown_pipe
    shutdown_back n pipe w m = laws.shutdown_keeps n pipe w (
        subst (HasInterface n) (ran_world EpairError.epair_command_failed (shutdown_pipe pipe w)) m)

    -- The world after the pipes of the pair are shut down.
    abbrev pipes_down : String → World → World
    pipes_down pair w =
        (ng_shutdown_pipe devices (append pair "b")
          (ng_shutdown_pipe devices (append pair "a") w).1).1

    pipes_back :
        (n pair : String) (w : World) → HasInterface n (pipes_down pair w) → HasInterface n w
    pipes_back n pair w m =
        shutdown_back n (append pair "a") w
          (shutdown_back n (append pair "b") (ng_shutdown_pipe devices (append pair "a") w).1 m)

    destroyed :
        (pair : String) (w : World)
        → str_eq pair "" ≡ false
        → (destroy_epair devices pair w).1 ≡ (destroy (append pair "a") w).1
    unfolding destroy_epair
    destroyed pair w named =
        rw (named) (ran_world EpairError.epair_command_failed (destroy (append pair "a") w))

    pair_gone :
        (pair : String) (w : World)
        → str_eq pair "" ≡ false
        → ¬ HasInterface (append pair "a") (destroy_epair devices pair w).1
    pair_gone pair w named =
        let a = append pair "a" in
        subst (λ (v : World). ¬ HasInterface a v) (sym (destroyed pair w named))
          (elim (Bool-cases (contains_str (get_all_host_interfaces (interfaces w)) a)) [
            | inl present ↦ laws.device_destroyed a w (works.others a w present)
            | inr away ↦ λ m. false≢true (sym away ∙ laws.destroy_keeps a a w m)
          ])

    pair_back :
        (n pair : String) (w : World)
        → str_eq pair "" ≡ false
        → HasInterface n (destroy_epair devices pair w).1
        → HasInterface n w
    pair_back n pair w named m =
        laws.destroy_keeps n (append pair "a") w (subst (HasInterface n) (destroyed pair w named) m)

    module _ (store : Store VmNic) where
      open store use {Db}

      abbrev State : Type 0
      State = Nic commands devices store

      same_world :
          (s : State) (saved : Result NicError (Unit {0}) × Db)
          → ((on_table commands devices store s (of_nic_step saved)).1).world ≡ s.world
      same_world s (ok _, db) = refl
      same_world s (err e, db) = refl

      after_save :
          (nic : VmNic) (s : State)
          → Gone nic s.world
          → Gone nic ((save_nic commands devices store s).1).world
      unfolding save_nic
      after_save nic s = subst (Gone nic) (sym (same_world s (save store s.nic s.db)))

      named : (b : String) → IsBridgeName b → str_eq b "" ≡ false → has_prefix b "bridge" ≡ true
      named b (inl blank) h = absurd (false≢true (sym h ∙ (eq_iff b "").1 blank))
      named b (inr is_bridge) h = is_bridge

      after_bridge :
          (s : State)
          → IsBridgeName s.nic.inst_bridge
          → let s' = without_bridge commands devices store s in
            (s.nic.inst_bridge ≢ "" → ¬ HasInterface s.nic.inst_bridge s'.world)
            × (s'.nic.inst_epair ≡ s.nic.inst_epair)
      unfolding without_bridge
      after_bridge s is_bridge =
          let b = s.nic.inst_bridge in
          let P : State → Type 0 =
            λ s'. (b ≢ "" → ¬ HasInterface b s'.world) × (s'.nic.inst_epair ≡ s.nic.inst_epair) in
          if_split P (not (str_eq b ""))
            (λ given. ((λ h. bridge_gone b s.world (named b is_bridge (ground arith))), refl))
            (λ blank. ((λ h. absurd (h ((eq_iff b "").0 (ground arith)))), refl))

      after_pair :
          (s : State)
          → let s' = without_pair commands devices store s in
            (s.nic.inst_epair ≢ "" → ¬ HasInterface (append s.nic.inst_epair "a") s'.world)
            × ((n : String) → HasInterface n s'.world → HasInterface n s.world)
      unfolding without_pair
      after_pair s =
          let pair = s.nic.inst_epair in
          let P : State → Type 0 = λ s'.
            (pair ≢ "" → ¬ HasInterface (append pair "a") s'.world)
            × ((n : String) → HasInterface n s'.world → HasInterface n s.world) in
          if_split P (not (str_eq pair ""))
            (λ given.
              let some_pair : str_eq pair "" ≡ false = ground arith in
              (
                (λ h. pair_gone pair (pipes_down pair s.world) some_pair),
                λ n m.
                    pipes_back n pair s.world
                      (pair_back n pair (pipes_down pair s.world) some_pair m),
              ))
            (λ blank. ((λ h. absurd (h ((eq_iff pair "").0 (ground arith)))), λ n m. m))

      pub unset-Gone :
          (s : State)
          → IsBridgeName s.nic.inst_bridge
          → Gone s.nic ((unset_vm_nic_rate_limit commands devices store s).1).world
      unfolding unset_vm_nic_rate_limit
      unset-Gone s is_bridge =
          let b = s.nic.inst_bridge in
          let pair = s.nic.inst_epair in
          let s1 = without_bridge commands devices store s in
          let s2 = without_pair commands devices store s1 in
          let P : Option ConnectError × State → Type 0 = λ out. Gone s.nic (out.1).world in
          let (away, same) = after_bridge s is_bridge in
          let (pair_away, back) = after_pair s1 in
          let moved : pair ≢ "" → ¬ HasInterface (append pair "a") s2.world =
            subst (λ (p : String). p ≢ "" → ¬ HasInterface (append p "a") s2.world) same
              pair_away in
          if_split P (str_eq b "" && str_eq pair "")
            (λ blank. (
              (λ h. absurd (h ((eq_iff b "").0 (ground arith)))),
              λ h. absurd (h ((eq_iff pair "").0 (ground arith))),
            ))
            (λ _. after_save s.nic s2 ((λ h m. away h (back b m)), moved))
