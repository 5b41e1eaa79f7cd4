-- ===== src/Switch/Connect/Paired.antt =====
-- What a NIC with a rate limit leaves behind: cirrinad/switch/bridge_if.go.
use cirrina.Prelude.{String, ◌≡◌, ◌≢◌, true, Option, none, some}
use cirrina.Store.{Store}
use cirrina.Vmnic.{VmNic}
use cirrina.Switch.{Switch, Commands}
use cirrina.Epair.{Devices, andthen}
use cirrina.Switch.Connect.Removed.{IsBridgeName, HostLaws, DestroysWork, Gone}
use cirrina.Switch.Connect.{ConnectError, Nic, set_up_bridge, keep_pair, limit_pair}

-- The NIC has neither a bridge nor a pair.
abbrev pub IsCleared : VmNic → Type 0
IsCleared nic = (nic.inst_bridge ≡ "") × (nic.inst_epair ≡ "")

module _ (commands : Commands) (devices : Devices commands.World) (store : Store VmNic) where
  abbrev State : Type 0
  State = Nic commands devices store

  pub andthen-keeps :
      (R : State → Type 0) (first : Option ConnectError × State)
      (next : State → Option ConnectError × State)
      → R first.1
      → ((s : State) → R s → R (next s).1)
      → R (andthen first next).1
  andthen-keeps R (none, s) next h k = k s h
  andthen-keeps R (some e, s) next h k = h

  -- The NIC is still one with a rate limit, and with a pair.
  abbrev HasPair : State → Type 0
  HasPair s = (s.nic.rate_limit ≡ true) × (s.nic.inst_epair ≢ "") × IsBridgeName s.nic.inst_bridge

  abbrev IsPaired : State → Type 0
  IsPaired s =
      (s.nic.rate_limit ≡ true)
      × (s.nic.inst_epair ≡ "" → s.nic.inst_bridge ≡ "")
      × IsBridgeName s.nic.inst_bridge

  -- What `setupVMNicRateLimit` does once the pair is there.
  abbrev rest : String → State → Option ConnectError × State
  rest pair s = andthen (keep_pair commands devices store pair s) λ s2.
      andthen (limit_pair commands devices store pair s2)
        (set_up_bridge commands devices store pair)

  module _ (laws : HostLaws commands devices) (works : DestroysWork commands devices) where
    -- The NIC has neither a bridge nor a pair, and the ones that it had before are gone.
    abbrev LeavesNone : VmNic → Option ConnectError × State → Type 0
    LeavesNone before out =
        out.0 ≡ none → IsCleared (out.1).nic × Gone commands devices before (out.1).world
