-- ===== src/Mpc/Round/Privacy.antt =====
-- When a round drops the decrypted shares, and when it keeps them.
use shade.Shared.{
  String, ◌≡◌, ◌≢◌, refl, sym, ap, ◌∙◌, subst, inl, inr, List, [], ◌∷◌, none, some, arith, All,
  ◌==◌, eq_iff, Bool-cases, Option-cases,
}
use shade.Shared.Maps.{Assoc, get, put, get-put}
use shade.Mpc.Matching.{AmountSort}
use shade.Mpc.Batch.{SignedMatchBatch, NodeKeyPair, Crypto}
use shade.Mpc.Session.{NodeShareEntry, SessionState}
use shade.Mpc.Round.Defs.{
  Shares, BoxOpen, CoordinatorResult, not_enough_shares, done, refused, decrypt_nodes,
  clear_entries, clear_nodes, node_ids, match_and_sign, run_matching_round,
}
use shade.Mpc.Round.Outcome.{run-match_and_sign, match_and_sign-done}

abbrev pub IsDropped : Assoc NodeShareEntry → Type 0
IsDropped = All (λ e. e.1.decrypted_share ≡ none)

-- The coordinator holds no decrypted share of this node.
abbrev pub HoldsNone : Shares → String → Type 0
HoldsNone shares node =
    (entries : Assoc NodeShareEntry) → get node shares ≡ some entries → IsDropped entries

clear_entries-IsDropped : (entries : Assoc NodeShareEntry) → IsDropped (clear_entries entries)
clear_entries-IsDropped [] = tt
clear_entries-IsDropped (e ∷ entries) = (refl, clear_entries-IsDropped entries)

put-HoldsNone :
    (shares : Shares) (node other : String) (entries : Assoc NodeShareEntry)
    → IsDropped entries
    → (node ≢ other → HoldsNone shares other)
    → HoldsNone (put node entries shares) other
put-HoldsNone shares node other entries dropped h found e = elim (Bool-cases (node == other)) [
  | inl same ↦
      let given : entries ≡ found = ground (arith, get-put node other entries shares) in
      subst IsDropped given dropped
  | inr differs ↦
      h (λ p. ground (arith, eq_iff node other)) found
        (ground (arith, get-put node other entries shares))
]

clear_nodes-keeps :
    (nodes : List String) (shares : Shares) (node : String)
    → HoldsNone shares node
    → HoldsNone (clear_nodes nodes shares) node
unfolding clear_nodes
clear_nodes-keeps [] shares node h = h
clear_nodes-keeps (n ∷ nodes) shares node h = elim (Option-cases (get n shares)) [
  | inl e ↦ rw (e, clear_nodes) (clear_nodes-keeps nodes shares node h)
  | inr (entries, e) ↦
      rw (e, clear_nodes)
        (clear_nodes-keeps nodes (put n (clear_entries entries) shares) node
          (put-HoldsNone shares n node _ (clear_entries-IsDropped entries) (λ _. h)))
]

clear_nodes-step :
    (n : String) (nodes : List String) (shares : Shares)
    → (after : Shares) × (clear_nodes (n ∷ nodes) shares ≡ clear_nodes nodes after)
      × HoldsNone after n
unfolding clear_nodes
clear_nodes-step n nodes shares = elim (Option-cases (get n shares)) [
  | inl e ↦ (shares, rw (e, clear_nodes), λ found k. absurd (ground arith))
  | inr (entries, e) ↦ (
    put n (clear_entries entries) shares,
    rw (e, clear_nodes),
    put-HoldsNone shares n n (clear_entries entries) (clear_entries-IsDropped entries)
        (λ ne. absurd (ne refl)),
  )
]

clear_nodes-All :
    (nodes : List String) (shares : Shares) → All (HoldsNone (clear_nodes nodes shares)) nodes
clear_nodes-All [] shares = tt
clear_nodes-All (n ∷ nodes) shares =
    let (after, e, h) = clear_nodes-step n nodes shares in
    subst (λ r. HoldsNone r n × All (HoldsNone r) nodes) (sym e)
      (clear_nodes-keeps nodes after n h, clear_nodes-All nodes after)

-- After a round that returns a batch, the session holds no decrypted share of any node that ran it.
pub run_matching_round-drops :
    (c : Crypto) (sorts : AmountSort) (batch_id : String) (box_open : BoxOpen) (s : SessionState)
    (nodes : List NodeKeyPair) (batch : SignedMatchBatch)
    → (run_matching_round c sorts batch_id box_open s nodes).1 ≡ done batch
    → All
        (HoldsNone (run_matching_round c sorts batch_id box_open s nodes).0.shares)
        (node_ids nodes)
run_matching_round-drops c sorts batch_id box_open s nodes batch e =
    let (t, same) = run-match_and_sign c sorts batch_id box_open s nodes batch e in
    let cleared =
      (match_and_sign-done c sorts batch_id nodes t batch
        (ap (λ (r : SessionState × CoordinatorResult). r.1) (sym same) ∙ e)).1 in
    rw (same, cleared) (clear_nodes-All (node_ids nodes) t.shares)

-- A round that is refused for want of shares keeps all the shares that its first step decrypted.
pub run_matching_round-keeps_decrypted :
    (c : Crypto) (sorts : AmountSort) (batch_id : String) (box_open : BoxOpen) (s : SessionState)
    (nodes : List NodeKeyPair) (intent_id : String)
    → (run_matching_round c sorts batch_id box_open s nodes).1
      ≡ refused (not_enough_shares intent_id)
    → (run_matching_round c sorts batch_id box_open s nodes).0.shares
      ≡ (decrypt_nodes box_open nodes s.shares).0
unfolding run_matching_round match_and_sign
run_matching_round-keeps_decrypted c sorts batch_id box_open s nodes intent_id e = ground arith
