-- ===== src/Broker/Counts.antt =====
-- How `broker` of cluster/broker.go counts what it sends.
use cable.Prelude.{ℕ, ◌+◌, ◌≤◌, ◌≡◌, if◌then◌else◌, List, [], ◌∷◌, none, some, length, ◌==◌}
use cable.GoMap
use cable.GoMap.{Bytes}
use cable.Safe.RMap
use cable.Safe.RMap.{RMap}
use cable.Safe.KeyMap
use cable.Safe.KeyMap.{KeyMap}
use cable.Network.Conn.{Waits}
use cable.Broker.Listeners.{Listeners}
use cable.Broker.Peers.{Grpc}
use cable.Broker.Peers
use cable.Broker.Routes.{Broker, Totals}

-- At least so many sends and at most so many, of which no more succeeded than were made.
unfoldable pub IsTally : ℕ → ℕ → Totals → Type 0
IsTally least most (t, s) = (s ≤ t) × (least ≤ t) × (t ≤ most)

-- How many connections a node has for a user, or for a channel, and how many all nodes have.
unfoldable pub targets : Bytes → KeyMap Bytes → ℕ
targets key keys = elim (KeyMap.get key keys) [ none ↦ 0 | some cids ↦ length cids ]

unfoldable pub all_targets : Bytes → List (ℕ × KeyMap Bytes) → ℕ
all_targets key [] = 0
all_targets key ((id, keys) ∷ nodes) = targets key keys + all_targets key nodes

-- Of these, how many are on one node.
unfoldable pub own : ℕ → ℕ → ℕ → ℕ
own me id n = if id == me then n else 0

unfoldable pub own_targets : ℕ → Bytes → List (ℕ × KeyMap Bytes) → ℕ
own_targets me key [] = 0
own_targets me key ((id, keys) ∷ nodes) = own me id (targets key keys) + own_targets me key nodes

module _ {S : Type 0} (w : Waits Bytes) where
  module _ (g : Grpc S) where
    module _ {X : Type 0} where
      -- The counters are within bounds, and the node is still the same.
      Counts : ℕ → ℕ → ℕ → Totals × Broker S X → Type 0
      Counts me l n (r, b) = IsTally l n r × (b.node_id ≡ me)
