-- ===== src/Switch/Links.antt =====
-- Free numbers: `getDummyBridgeName` of cirrinad/switch/bridge_if.go, `GetDummyEpairName` of
-- cirrinad/epair/epair.go and `ngBridgeNextLink` of
-- cirrinad/switch/bridge_ng.go.
use mathlib.Core.Path.{subst}
use cirrina.Prelude.{
  ℕ, zero, suc, ◌≤◌, ◌<◌, String, ◌≡◌, refl, ◌∙◌, ap, sym, ◌==◌, ==_iff, Bool-cases, ◌⊎◌, inl, inr,
  true, false, some, List, arith, if_split,
}
use cirrina.Strconv.{append, format_uint}
use cirrina.Vm.Args.Net.{contains_str}
use cirrina.Vm.Args.NetDevs.{search_dev-finds}
use cirrina.Switch.{Commands}
use cirrina.Switch.Bridges.{search_down, get_all_if_switches, get_dummy_bridge_name}
use cirrina.Epair.{Devices, get_all_epair, get_dummy_epair_name}
use cirrina.Switch.Netgraph.{NgPeer, local_hooks, link_name, ng_bridge_next_link}

abbrev pub numbered : String → ℕ → String
numbered prefix k = append prefix (format_uint k)

-- The name with the highest number up to `most` that does not stand in the list, if there is one.
abbrev pub IsHighestFree : String → ℕ → List String → String → Type 0
IsHighestFree prefix most taken name =
    ((name ≡ "") × ((k : ℕ) → 0 < k → k ≤ most → contains_str taken (numbered prefix k) ≡ true))
    ⊎ ((n : ℕ) × (0 < n)
        × (n ≤ most)
        × (name ≡ numbered prefix n)
        × (contains_str taken (numbered prefix n) ≡ false)
        × ((k : ℕ) → n < k → k ≤ most → contains_str taken (numbered prefix k) ≡ true))

one_more :
    (P : ℕ → Type 0) (lo n : ℕ)
    → ((k : ℕ) → lo < k → k ≤ n → P k)
    → P (suc n)
    → (k : ℕ) → lo < k
    → k ≤ suc n
    → P k
one_more P lo n below top k over under = elim (Bool-cases (k == suc n)) [
  | inl last ↦ subst P (sym ((==_iff k (suc n)).0 last)) top
  | inr earlier ↦ below k over (ground arith)
]

pub search_down-IsHighestFree :
    (prefix : String) (most : ℕ) (taken : List String)
    → IsHighestFree prefix most taken (search_down prefix most taken)
unfolding search_down
search_down-IsHighestFree prefix zero taken = inl (refl, λ k positive small. absurd (omega arith))
search_down-IsHighestFree prefix (suc n) taken =
    let P : ℕ → Type 0 = λ k. contains_str taken (numbered prefix k) ≡ true in
    if_split (IsHighestFree prefix (suc n) taken) (contains_str taken (numbered prefix (suc n)))
      (λ used. elim (search_down-IsHighestFree prefix n taken) [
        | inl (nothing, all) ↦ inl (nothing, one_more P 0 n all used)
        | inr (m, positive, small, same, free, above) ↦
            inr (m, positive, omega (arith, small), same, free, one_more P m n above used)
      ])
      (λ free.
        inr (suc n, omega arith, omega arith, refl, free, λ k over under. absurd (omega arith)))

module _ (commands : Commands) (devices : Devices commands.World) where
  open commands use {World}

  -- Where the bridges and the pairs can be listed, the name of a dummy bridge, and that of a dummy
  -- pair, has the highest number from 1 to 32767 that none of the listed ones has, and is empty
  -- exactly if every such number is taken.
  pub dummy_names-IsHighestFree :
      (w : World) (bridges pairs : List String)
      → get_all_if_switches commands w ≡ some bridges
      → get_all_epair devices w ≡ some pairs
      → IsHighestFree "bridge" 32767 bridges (get_dummy_bridge_name commands w)
        × IsHighestFree "epair" 32767 pairs (get_dummy_epair_name devices w)
  unfolding get_dummy_bridge_name get_dummy_epair_name
  dummy_names-IsHighestFree w bridges pairs e h = (
    rw (get_dummy_bridge_name, e) (search_down-IsHighestFree "bridge" 32767 bridges),
    rw (get_dummy_epair_name, h) (search_down-IsHighestFree "epair" 32767 pairs),
  )

-- Whatever peers a netgraph bridge has, the search for its next link ends with a numbered link that
-- is the local hook of none of them.
pub ng_bridge_next_link-free :
    (peers : List NgPeer)
    → (n : ℕ) × (ng_bridge_next_link peers ≡ append "link" (format_uint n))
      × (contains_str (local_hooks peers) (ng_bridge_next_link peers) ≡ false)
unfolding ng_bridge_next_link
ng_bridge_next_link-free peers =
    let (n, found, free) = search_dev-finds "link" (local_hooks peers) in
    (n, ap link_name found, ap (λ o. contains_str (local_hooks peers) (link_name o)) found ∙ free)
