-- ===== src/Cluster/Batches.antt =====
-- `applyEntries` of cluster/cluster_raft.go on entries that arrive in one batch or in several.
use mathlib.Core.Logic.{ite}
use mathlib.Core.Path.{sym, ap}
use cable.Prelude.{
  ℕ, ◌+◌, ◌%◌, ◌==◌, suc, ◌<◌, ◌^◌, length, ◌≡◌, ◌⊎◌, inl, inr, true, List, [], ◌∷◌, ◌++◌, none,
  some, Option-cases, Bool-cases, All, refl, arith,
}
use cable.Errors.{Error, ok, err, panic, ◌>>=◌, Result-cases}
use native.Mathlib.Decide.{ℕ_discrete}
use cable.GoMap.{Bytes}
use cable.Safe.RMap
use cable.Safe.RMap.{RMap}
use cable.Safe.Counting.{IsCounted, length-delete_old}
use cable.Safe.Lookups.{get-delete}
use cable.Cluster.State
use cable.Cluster.State.{State}
use cable.Cluster.Log.{apply_raft_op}
use cable.Cluster.Node.{
  ConfChange, RaftLibrary, Entry, Node, count_nodes, leave_group, apply_remove_node, apply_change,
  apply_conf_change, apply_entry, apply_from, apply_entries, index_of,
}

-- What is left of a table of nodes when a node is removed.
unfoldable pub IsWithout : {V : Type 0} → ℕ → RMap ℕ V → RMap ℕ V → Type 0
IsWithout id before after =
    (j : ℕ)
    → RMap.get ℕ_discrete j after ≡ ite (ℕ_discrete id j) none (RMap.get ℕ_discrete j before)

module _ {R C : Type 0} (lib : RaftLibrary R C) where
  -- A configuration change of the entry can be read.
  unfoldable pub IsReadable : Entry → Type 0
  IsReadable (Entry.normal _ _) = Unit
  IsReadable (Entry.conf_change _ bytes) =
      (cc : ConfChange) × (lib.unmarshal_conf_change bytes ≡ some cc)

  with_index : ℕ → Node R C → Node R C
  with_index n c = record c { applied_index = n }

  leave_group_index :
      (n id : ℕ) (c : Node R C)
      → leave_group lib id (with_index n c) ≡ with_index n (leave_group lib id c)
  unfolding leave_group with_index
  leave_group_index n id c = ground arith

  apply_change_index :
      (n : ℕ) (cc : ConfChange) (c : Node R C)
      → apply_change lib cc (with_index n c) ≡ with_index n (apply_change lib cc c)
  unfolding apply_change with_index apply_remove_node count_nodes
  apply_change_index n (ConfChange.add_node id) c = refl
  apply_change_index n (ConfChange.remove_node id) c = leave_group_index n id _
  apply_change_index n ConfChange.other c = refl

  -- An entry goes the same way whatever the applied index is, and does not look at it.
  Same : (n : ℕ) (e : Entry) (c : Node R C) → Type 0
  Same n e c =
      ((c' : Node R C) × (apply_entry lib e c ≡ ok (true, c'))
        × (apply_entry lib e (with_index n c) ≡ ok (true, with_index n c')))
      ⊎ (((x : Error) × (apply_entry lib e c ≡ err x)
            × (apply_entry lib e (with_index n c) ≡ err x))
          ⊎ ((apply_entry lib e c ≡ panic) × (apply_entry lib e (with_index n c) ≡ panic)))

  change-Same :
      (n : ℕ) (index : ℕ) (bytes : Bytes) (cc : ConfChange) (c : Node R C)
      → lib.unmarshal_conf_change bytes ≡ some cc
      → Same n (Entry.conf_change index bytes) c
  unfolding Same apply_entry apply_conf_change with_index
  change-Same n index bytes cc c e = elim (Option-cases c.raft) [
    | inl r ↦ inr (
        inr (
          rw (apply_entry, e, apply_conf_change, r) refl,
          rw (apply_entry, e, apply_conf_change, r) refl,
        ))
    | inr (raft, r) ↦
        let (cs, raft') = lib.apply_conf_change cc raft in
        let c' : Node R C = record c { conf_state = cs; raft = some raft' } in
        inl (
          apply_change lib cc c',
          rw (apply_entry, e, apply_conf_change, r) refl,
          rw (apply_entry, e, apply_conf_change, r)
              (ap (λ (d : Node R C). ok (true, d)) (apply_change_index n cc c')),
        )
  ]

  entry-Same : (n : ℕ) (e : Entry) (c : Node R C) → IsReadable e → Same n e c
  unfolding Same apply_entry with_index IsReadable
  entry-Same n (Entry.normal index []) c h = inl (c, refl, refl)
  entry-Same n (Entry.normal index (b ∷ bytes)) c h =
      elim (Result-cases (apply_raft_op (b ∷ bytes) c.broker)) [
        | inl (s, e) ↦
            inl (record c { broker = s }, rw (apply_entry, e) refl, rw (apply_entry, e) refl)
        | inr (inl (x, e)) ↦ inr (inl (x, rw (apply_entry, e) refl, rw (apply_entry, e) refl))
        | inr (inr e) ↦ inr (inr (rw (apply_entry, e) refl, rw (apply_entry, e) refl))
      ]
  entry-Same n (Entry.conf_change index bytes) c (cc, e) = change-Same n index bytes cc c e

  apply_from_index :
      (last n : ℕ) (es : List Entry) (c : Node R C)
      → All IsReadable es
      → apply_from lib last es (with_index n c) ≡ apply_from lib last es c
  unfolding apply_from Same with_index
  apply_from_index last n [] c h = refl
  apply_from_index last n (e ∷ es) c (h, hs) = elim (entry-Same n e c h) [
    | inl (c', p, q) ↦ rw (apply_from, p, q) (apply_from_index (index_of lib e) n es c' hs)
    | inr (inl (x, p, q)) ↦ rw (apply_from, p, q) refl
    | inr (inr (p, q)) ↦ rw (apply_from, p, q) refl
  ]

  apply_from-append :
      (last : ℕ) (xs : List Entry) (y : Entry) (ys : List Entry) (c : Node R C)
      → All IsReadable xs
      → All IsReadable (y ∷ ys)
      → apply_from lib last (xs ++ y ∷ ys) c
        ≡ (apply_from lib last xs c >>= λ c'. apply_entries lib (y ∷ ys) c')
  unfolding apply_from apply_entries Same with_index
  apply_from-append last [] y ys c h hs = sym (apply_from_index (index_of lib y) last (y ∷ ys) c hs)
  apply_from-append last (e ∷ xs) y ys c (h, h') hs = elim (entry-Same last e c h) [
    | inl (c', p, q) ↦ rw (apply_from, p) (apply_from-append (index_of lib e) xs y ys c' h' hs)
    | inr (inl (x, p, q)) ↦ rw (apply_from, p) refl
    | inr (inr (p, q)) ↦ rw (apply_from, p) refl
  ]

  -- Two batches of committed entries, applied one after the other, leave the node as the two in one batch
  -- do, or end in the same error or panic: the maps, the peers, the leader, the configuration and the
  -- applied index. The configuration changes among the entries can be read.
  pub apply_entries-append :
      (x : Entry) (xs : List Entry) (y : Entry) (ys : List Entry) (c : Node R C)
      → All IsReadable (x ∷ xs)
      → All IsReadable (y ∷ ys)
      → apply_entries lib ((x ∷ xs) ++ y ∷ ys) c
        ≡ (apply_entries lib (x ∷ xs) c >>= λ c'. apply_entries lib (y ∷ ys) c')
  unfolding apply_entries
  apply_entries-append x xs y ys c h hs = apply_from-append (index_of lib x) (x ∷ xs) y ys c h hs

  leave_group_same :
      (id : ℕ) (c : Node R C)
      → ((leave_group lib id c).peers ≡ c.peers)
        × ((leave_group lib id c).size ≡ c.size)
        × ((leave_group lib id c).broker ≡ c.broker)
  unfolding leave_group
  leave_group_same id c = elim (Bool-cases (c.node_id == id)) [
    | inl e ↦ rw (leave_group, e) (refl, refl, refl)
    | inr e ↦ rw (leave_group, e) (refl, refl, refl)
  ]

  length-delete :
      (id : ℕ) (addr : Bytes) (m : RMap ℕ Bytes)
      → RMap.get ℕ_discrete id m ≡ some addr
      → IsCounted ℕ_discrete m
      → suc (length m.entries) < 2 ^ 31
      → (m.len + 1) % 2 ^ 32 ≡ suc (suc (length (RMap.delete ℕ_discrete id m).1.entries))
  unfolding RMap.delete RMap.get IsCounted
  length-delete id addr m here (d, counted) room =
      rw (RMap.delete, here) (omega (arith, length-delete_old ℕ_discrete id addr m.entries d here))

  -- After `applyRemoveNode` of a peer, the peer and its entry in each of the three replicated maps are
  -- gone, and the other peers and the entries of the other nodes are as before; but the size is that of
  -- before: one more than the peers that are left and the node itself.
  pub size-apply_remove_node :
      (id : ℕ) (addr : Bytes) (c : Node R C)
      → RMap.get ℕ_discrete id c.peers ≡ some addr
      → IsCounted ℕ_discrete c.peers
      → suc (length c.peers.entries) < 2 ^ 31
      → (let d = apply_remove_node lib id c in
          IsWithout id c.peers d.peers
          × IsWithout id c.broker.user_clients d.broker.user_clients
          × IsWithout id c.broker.channel_clients d.broker.channel_clients
          × IsWithout id c.broker.client_channels d.broker.client_channels
          × (d.size ≡ suc (suc (length d.peers.entries))))
  unfolding apply_remove_node count_nodes IsWithout State.remove_node
  size-apply_remove_node id addr c here counted room =
      let removed : Node R C = record c {
        size = count_nodes lib c;
        broker = State.remove_node id c.broker;
        peers = (RMap.delete ℕ_discrete id c.peers).1;
      } in
      let (p, n, s) = leave_group_same id removed in
      rw (apply_remove_node, p, n, s)
        (
          λ j. get-delete ℕ_discrete id j c.peers,
          λ j. get-delete ℕ_discrete id j c.broker.user_clients,
          λ j. get-delete ℕ_discrete id j c.broker.channel_clients,
          λ j. get-delete ℕ_discrete id j c.broker.client_channels,
          length-delete id addr c.peers here counted room,
        )
