-- ===== src/Switch/Unshared.antt =====
-- No interface is a member of two bridges: `setUplinkIf` and `buildIfSwitch` of
-- cirrinad/switch/bridge_if.go.
use mathlib.Core.Path.{subst}
use cirrina.Prelude.{
  String, ◌≡◌, refl, ◌∙◌, sym, ◌⊎◌, inl, inr, not, Bool, true, false, Option, none, some, List, [],
  ◌∷◌, arith, str_eq, eq_iff, Bool-cases, Option-cases, All, All-map, if_split, if_both,
  option_both,
}
use cirrina.Strconv.Fields.{split_on}
use cirrina.Vm.Args.Net.{contains_str}
use cirrina.Switch.{Switch, SwitchError, Commands, get_all_host_interfaces, check_interface_exists}
use cirrina.Switch.Bridges.{
  get_if_bridge_members, get_all_if_switches, create_if_switch, switch_if_add_member, add_members,
  create_if_switch_with_members, used_by_any, member_used_by_if_switch, usable_members,
  build_if_switch, set_uplink_if, has_prefix, ran, is_unused,
}

module _ (commands : Commands) where
  open commands use {World, interfaces, create_bridge, add_member}

  -- What the bridge's own print says of its members.
  unfoldable pub IsIn : String → String → World → Type 0
  IsIn x b w =
      (ms : List String) × (get_if_bridge_members commands b w ≡ some ms)
      × (contains_str ms x ≡ true)

  unfoldable pub Unshared : World → Type 0
  Unshared w = (a b x : String) → IsIn x a w → IsIn x b w → a ≡ b

  -- How `ifconfig` behaves: only bridges of the group have members, a new bridge brings none, and a
  -- member that is added is on that bridge alone.
  pub record BridgeLaws : Type 0 where
    pub listed :
        (w : World) (bs : List String) (x b : String)
        → get_all_if_switches commands w ≡ some bs
        → IsIn x b w
        → contains_str bs b ≡ true
    pub created : (b c x : String) (w : World) → IsIn x c (create_bridge b w).1 → IsIn x c w
    pub added :
        (b m c x : String) (w : World)
        → IsIn x c (add_member b m w).1
        → IsIn x c w ⊎ ((c ≡ b) × (x ≡ m))

  module _ (laws : BridgeLaws) where
    used_by_any-false :
        (x b : String) (bs : List String) (w : World)
        → used_by_any commands x bs w ≡ some false
        → contains_str bs b ≡ true
        → ¬ IsIn x b w
    unfolding used_by_any contains_str IsIn
    used_by_any-false x b [] w unused listed inside = ground arith
    used_by_any-false x b (c ∷ bs) w unused listed (ms, printed, held) =
        elim (Bool-cases (str_eq b c)) [
          | inl same ↦
              let here_too =
                subst (λ (d : String). get_if_bridge_members commands d w ≡ some ms)
                  ((eq_iff b c).0 same) printed in
              ground arith
          | inr other ↦ elim (Option-cases (get_if_bridge_members commands c w)) [
            | inl nothing ↦ ground arith
            | inr (members, shown) ↦
                used_by_any-false x b bs w (ground arith) (ground arith) (ms, printed, held)
          ]
        ]

    -- An interface that counts as unused is a member of no bridge.
    unused :
        (x b : String) (w : World)
        → member_used_by_if_switch commands x w ≡ some false
        → ¬ IsIn x b w
    unfolding member_used_by_if_switch
    unused x b w free inside = elim (Option-cases (get_all_if_switches commands w)) [
      | inl nothing ↦ ground arith
      | inr (bs, all) ↦
          used_by_any-false x b bs w (ground arith) (laws.listed w bs x b all inside) inside
    ]

    ran_world : (p : Bool × World) → (ran commands p).1 ≡ p.1
    ran_world (true, w) = refl
    ran_world (false, w) = refl

    unused_is : (o : Option Bool) → is_unused commands o ≡ true → o ≡ some false
    unused_is none h = absurd (cc)
    unused_is (some true) h = absurd (cc)
    unused_is (some false) h = refl

    -- Only the given bridge can have gained the given member.
    abbrev Gains : String → String → World → World → Type 0
    Gains b m w w' = (c x : String) → IsIn x c w' → IsIn x c w ⊎ ((c ≡ b) × (x ≡ m))

    switch_if_add_member-Gains :
        (b m : String) (w : World) → Gains b m w (switch_if_add_member commands b m w).1
    unfolding switch_if_add_member
    switch_if_add_member-Gains b m w =
        let P : Option SwitchError × World → Type 0 = λ out. Gains b m w out.1 in
        let same : Gains b m w w = λ c x inside. inl inside in
        let names = get_all_host_interfaces (interfaces w) in
        if_both P (not (contains_str names b)) same (
          if_both P (not (contains_str names m)) same (
            option_both P (get_if_bridge_members commands b w) same (λ ms.
              if_both P (contains_str ms m) same (
                subst (λ (w' : World). Gains b m w w') (sym (ran_world (add_member b m w)))
                  (λ c x inside. laws.added b m c x w inside)))))

    abbrev NoNew : World → World → Type 0
    NoNew w w' = (c x : String) → IsIn x c w' → IsIn x c w

    create_if_switch-NoNew : (b : String) (w : World) → NoNew w (create_if_switch commands b w).1
    unfolding create_if_switch
    create_if_switch-NoNew b w =
        let P : Option SwitchError × World → Type 0 = λ out. NoNew w out.1 in
        let same : NoNew w w = λ c x inside. inside in
        if_both P (str_eq b "") same (
          if_both P (not (has_prefix b "bridge")) same (
            option_both P (get_all_if_switches commands w) same (λ bs.
              if_both P (contains_str bs b) same (
                subst (λ (w' : World). NoNew w w') (sym (ran_world (create_bridge b w)))
                  (λ c x inside. laws.created b c x w inside)))))

    NoNew-Unshared : (w w' : World) → NoNew w w' → Unshared w → Unshared w'
    unfolding Unshared
    NoNew-Unshared w w' fewer apart a b x ha hb = apart a b x (fewer a x ha) (fewer b x hb)

    -- A member of no other bridge may be added.
    Gains-Unshared :
        (b m : String) (w w' : World)
        → Gains b m w w'
        → ((c : String) → IsIn m c w → c ≡ b)
        → Unshared w
        → Unshared w'
    unfolding Unshared
    Gains-Unshared b m w w' gains mine apart c d x hc hd = elim (gains c x hc) [
      | inl old_c ↦ elim (gains d x hd) [
        | inl old_d ↦ apart c d x old_c old_d
        | inr (new_d, is_m) ↦ mine c (subst (λ (y : String). IsIn y c w) is_m old_c) ∙ sym new_d
      ]
      | inr (new_c, is_m) ↦ elim (gains d x hd) [
        | inl old_d ↦ new_c ∙ sym (mine d (subst (λ (y : String). IsIn y d w) is_m old_d))
        | inr (new_d, _) ↦ new_c ∙ sym new_d
      ]
    ]

    -- `SetUplink` of an `IF` switch: no interface becomes a member of two bridges, whatever the call
    -- answers.
    set_uplink_if-Unshared :
        (s : Switch) (uplink : String) (w : World)
        → Unshared w
        → Unshared (set_uplink_if commands s uplink w).1
    unfolding set_uplink_if
    set_uplink_if-Unshared s uplink w apart =
        elim (Option-cases (member_used_by_if_switch commands uplink w)) [
          | inl nothing ↦ rw (set_uplink_if, nothing) apart
          | inr (true, used) ↦ rw (set_uplink_if, used) apart
          | inr (false, free) ↦
              rw (set_uplink_if, free)
                (Gains-Unshared s.name uplink w _ (switch_if_add_member-Gains s.name uplink w)
                  (λ c inside. absurd (unused uplink c w free inside)) apart)
        ]

    -- The members that are still to be added are on no other bridge.
    abbrev AllMine : String → List String → World → Type 0
    AllMine b ms w = All (λ m. (c : String) → IsIn m c w → c ≡ b) ms

    Gains-AllMine :
        (b m : String) (ms : List String) (w w' : World)
        → Gains b m w w'
        → AllMine b ms w
        → AllMine b ms w'
    Gains-AllMine b m ms w w' gains mine =
        All-map _ _ ms
          (λ x only c inside. elim (gains c x inside) [ inl old ↦ only c old | inr (new, _) ↦ new ])
          mine

    add_members-Unshared :
        (b : String) (ms : List String) (w : World)
        → AllMine b ms w
        → Unshared w
        → Unshared (add_members commands b ms w).1
    unfolding add_members
    add_members-Unshared b [] w mine apart = apart
    add_members-Unshared b (m ∷ ms) w mine apart =
        let gains = switch_if_add_member-Gains b m w in
        let w' = (switch_if_add_member commands b m w).1 in
        let still = Gains-Unshared b m w w' gains mine.0 apart in
        option_both (λ (out : Option SwitchError × World). Unshared out.1)
          (switch_if_add_member commands b m w).0
          (add_members-Unshared b ms w' (Gains-AllMine b m ms w w' gains mine.1) still) (λ e. still)

    usable_members-AllMine :
        (b : String) (ms : List String) (w : World) → AllMine b (usable_members commands ms w) w
    unfolding usable_members
    usable_members-AllMine b [] w = tt
    usable_members-AllMine b (m ∷ ms) w =
        let rest = usable_members-AllMine b ms w in
        if_both (λ l. AllMine b l w) (str_eq m "") rest
          (if_both (λ l. AllMine b l w) (not (check_interface_exists m (interfaces w))) rest
            (if_split (λ l. AllMine b l w)
              (is_unused commands (member_used_by_if_switch commands m w))
              (λ free. ((λ c inside. absurd (unused m c w (unused_is _ free) inside)), rest))
              (λ _. rest)))

    -- No interface is a member of two bridges after a new uplink for an `IF` switch or after the
    -- building of its bridge, whatever the calls answer, if none was before and `ifconfig` behaves as
    -- the laws say.
    pub uplinks-Unshared :
        (s : Switch) (uplink : String) (w : World)
        → Unshared w
        → Unshared (set_uplink_if commands s uplink w).1 × Unshared (build_if_switch commands s w).1
    unfolding build_if_switch create_if_switch_with_members
    uplinks-Unshared s uplink w apart =
        let P : Option SwitchError × World → Type 0 = λ out. Unshared out.1 in
        let members = usable_members commands (split_on 44 s.uplink) w in
        let w' = (create_if_switch commands s.name w).1 in
        let fewer = create_if_switch-NoNew s.name w in
        let made = NoNew-Unshared w w' fewer apart in
        let mine =
          All-map _ _ members (λ m only c inside. only c (fewer c m inside))
            (usable_members-AllMine s.name (split_on 44 s.uplink) w) in
        (
          set_uplink_if-Unshared s uplink w apart,
          if_both P (str_eq s.name "") apart (
              option_both P (create_if_switch commands s.name w).0
                (add_members-Unshared s.name members w' mine made) (λ e. made)),
        )
