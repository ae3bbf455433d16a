-- ===== src/Cluster/Loop/Recent.antt =====
-- How far the log of a node of cluster/cluster_raft.go runs ahead of its last snapshot.
use native.Mathlib.Decide.{ℕ_discrete}
use mathlib.Core.Path.{subst}
use cable.Prelude.{
  ℕ, ◌^◌, ◌<◌, ◌≡◌, refl, arith, List, [], ◌∷◌, Option, none, some, if◌then◌else◌, if_elim,
  option_elim, ◌==◌,
}
use cable.Errors.{Error, ok}
use cable.GoMap.{Bytes}
use cable.Safe.RMap
use cable.Cluster.Node.{RaftLibrary, Entry, Node, become_ready, apply_soft_state, attempt_snapshot}
use cable.Cluster.Loop.{
  Message, Ready, LoopLibrary, on_raft, on_hard_state, on_snapshot, on_entries, on_soft_state,
  reported, send_one, send_raft_messages, end_turn, turn,
}
use cable.Cluster.Loop.Entries.{
  Ensures, Ensures-then, Same, IsOrdered, IsRecent, Same-trans, Same-IsOrdered, base_of, AreNext,
  AtBase, on_committed-IsOrdered, apply_snapshot-AtBase, attempt_snapshot-IsRecent,
}

module _ {R C P : Type 0} (lib : RaftLibrary R C) (loop : LoopLibrary R C P) where
  on_hard_state-Same : (o : Option Bytes) (c : Node R C) → Same c (on_hard_state lib loop o c)
  unfolding Same on_hard_state on_raft
  on_hard_state-Same none c = (refl, refl)
  on_hard_state-Same (some state) c = (refl, refl)

  on_entries-Same : (es : List Entry) (c : Node R C) → Same c (on_entries lib loop es c)
  unfolding Same on_entries on_raft
  on_entries-Same [] c = (refl, refl)
  on_entries-Same (e ∷ es) c = (refl, refl)

  become_ready-Same : (c : Node R C) → Same c (become_ready lib c)
  unfolding Same become_ready
  become_ready-Same c = if_elim (Same c) c.ready _ _ (λ _. (refl, refl)) (λ _. (refl, refl))

  on_soft_state-Same : (o : Option ℕ) (c : Node R C) → Same c (on_soft_state lib loop o c)
  unfolding Same on_soft_state apply_soft_state
  on_soft_state-Same none c = (refl, refl)
  on_soft_state-Same (some lead) c =
      let led : Node R C = if c.leader == lead then c else record c { leader = lead } in
      if_elim (Same c) (lead == 0) _ _ (λ _. (refl, refl))
        (λ _.
          Same-trans c led (become_ready lib led)
            (if_elim (Same c) (c.leader == lead) _ _ (λ _. (refl, refl)) (λ _. (refl, refl)))
            (become_ready-Same led))

  reported-Same :
      (m : Message C) (e : Option Error) (c : Node R C) → Same c (reported lib loop m e c)
  unfolding Same reported on_raft
  reported-Same m none c = if_elim (Same c) m.is_snap _ _ (λ _. (refl, refl)) (λ _. (refl, refl))
  reported-Same m (some e) c =
      if_elim (Same c) m.is_snap _ _ (λ _. (refl, refl)) (λ _. (refl, refl))

  send_one-Same : (m : Message C) (c : Node R C) (p : P) → Same c (send_one lib loop m (c, p)).0
  unfolding send_one Same
  send_one-Same m c p =
      option_elim (λ (r : Node R C × P). Same c r.0) (RMap.get ℕ_discrete m.to c.peers) _ _
        (λ _. kept) (λ _ _. reported-Same _ _ c)
    where
      kept : Same c c
      kept = (refl, refl)

  send_raft_messages-Same :
      (ms : List (Message C)) (c : Node R C) (p : P)
      → Same c (send_raft_messages lib loop ms (c, p)).0
  unfolding Same send_raft_messages
  send_raft_messages-Same [] c p = (refl, refl)
  send_raft_messages-Same (m ∷ ms) c p =
      let (d, q) = send_one lib loop m (c, p) in
      Same-trans c d (send_raft_messages lib loop ms (d, q)).0 (send_one-Same m c p)
        (send_raft_messages-Same ms d q)

  on_snapshot-AtBase :
      (o : Option (ℕ × C × Bytes)) (n : ℕ) (c : Node R C)
      → c.applied_index ≡ n
      → IsOrdered c
      → base_of o n < 2 ^ 64
      → Ensures (AtBase lib (base_of o n)) (on_snapshot lib loop o c)
  unfolding on_snapshot base_of Ensures AtBase IsOrdered
  on_snapshot-AtBase none n c e o t = (o, omega (arith, e, o.0))
  on_snapshot-AtBase (some (index, conf, bytes)) n c e o t =
      apply_snapshot-AtBase lib index conf bytes _ t

  FirstIsRecent : Node R C × P → Type 0
  FirstIsRecent (c, _) = IsRecent c

  end_turn-IsRecent :
      (c : Node R C) (p : P) → IsOrdered c → Ensures FirstIsRecent (end_turn lib loop (c, p))
  unfolding end_turn FirstIsRecent on_raft IsRecent IsOrdered Ensures
  end_turn-IsRecent c p o =
      Ensures-then IsRecent FirstIsRecent (attempt_snapshot lib c) _
        (attempt_snapshot-IsRecent lib c o) (λ d r. r)

  turn-Ensures :
      (rd : Ready C) (c : Node R C) (p : P)
      → IsOrdered c
      → base_of rd.snapshot c.applied_index < 2 ^ 64
      → AreNext lib (base_of rd.snapshot c.applied_index) rd.committed_entries
      → Ensures FirstIsRecent (turn lib loop rd (c, p))
  unfolding turn Same AtBase
  turn-Ensures rd c p o t next =
      let base = base_of rd.snapshot c.applied_index in
      let stored = on_hard_state lib loop rd.hard_state c in
      let kept = on_hard_state-Same rd.hard_state c in
      Ensures-then IsOrdered FirstIsRecent _ _
        (Ensures-then (AtBase lib base) IsOrdered (on_snapshot lib loop rd.snapshot stored) _
          (on_snapshot-AtBase rd.snapshot c.applied_index stored (kept.1)
            (Same-IsOrdered c stored kept o) t)
          (λ d (o', s).
            let full = on_entries lib loop rd.entries d in
            let same = on_entries-Same rd.entries d in
            on_committed-IsOrdered lib base rd.committed_entries full (omega (arith, same.0, s))
              (Same-IsOrdered d full same o') next loop))
        (λ d o'.
          let led = on_soft_state lib loop rd.soft_state d in
          let sent = send_raft_messages lib loop rd.messages (led, p) in
          end_turn-IsRecent sent.0 sent.1 (
            Same-IsOrdered led sent.0 (send_raft_messages-Same rd.messages led p)
              (Same-IsOrdered d led (on_soft_state-Same rd.soft_state d) o')))

  -- After a turn of the loop for a `Ready` the snapshot is not ahead of the log, and the log is at most 1024
  -- entries ahead of the snapshot: where that held of the order before, the committed entries have indices
  -- above the applied one, or above that of the snapshot in the `Ready`, and indices have 64 bits.
  pub turn-IsRecent :
      (rd : Ready C) (c d : Node R C) (p q : P)
      → IsOrdered c
      → base_of rd.snapshot c.applied_index < 2 ^ 64
      → AreNext lib (base_of rd.snapshot c.applied_index) rd.committed_entries
      → turn lib loop rd (c, p) ≡ ok (d, q)
      → IsRecent d
  unfolding Ensures FirstIsRecent
  turn-IsRecent rd c d p q o t next e =
      subst (Ensures FirstIsRecent) e (turn-Ensures rd c p o t next)
