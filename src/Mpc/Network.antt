-- ===== src/Mpc/Network.antt =====
-- apps/mpc-committee: the coordinator of coordinator-server.ts with the nodes of node-server.ts. A node
-- that cannot be reached answers nothing.
use shade.Shared.{
  ◌≤◌, String, ◌≡◌, refl, sym, ap, subst, ◌∙◌, inl, inr, Bool, true, false, ◌&&◌, List, [], ◌∷◌,
  map, Option, none, some, Mem, Nodup, arith, length, All, if◌then◌else◌, Bool-cases,
}
use mathlib.Core.List.{Nodup-cons, Mem-prop, mem-cons, mem-cons_self, mem-cons_of_mem}
use mathlib.Core.Logic.Or
use shade.Api.Vaults.{Reply, ok, error}
use shade.Mpc.Matching.{AmountSort, MatchResult, netted}
use shade.Mpc.Matching.Disjoint.{match_intents-Nodup}
use shade.Mpc.Batch.{
  SignedMatchBatch, NodeSignature, NodeKeyPair, Crypto, node_public_info, sign_batch, threshold,
  verify_signed_batch,
}
use shade.Mpc.Batch.Signing.{
  IsPaired, publics, length-sign, verify-sign_batch, keys-public_info, length-public_info,
  publics-known,
}
use shade.Mpc.Batch.Verify.{keys}
use shade.Mpc.Session.{SessionState}
use shade.Mpc.Round.{
  CoordinatorResult, BoxOpen, DecryptReply, answers, done, sign_round, run_matching_round_remote,
}
use shade.Mpc.Round.Outcome.{Agrees}
use shade.Mpc.Round.Remote.{remote-Agrees, remote-done}
use shade.Mpc.Node.{NodeServer, require_internal_auth, decrypt, sign}

pub record Endpoint : Type 0 where
  pub server : NodeServer
  pub reachable : Bool

-- `postJson`: null unless the node answers with code 200.
abbrev pub answer : {A : Type 0} → Bool → Reply A → Option A
answer reachable (error code) = none
answer false (ok a) = none
answer true (ok a) = some a

abbrev pub endpoint_ids : List Endpoint → List String
endpoint_ids = map (λ e. e.server.node.node_id)

abbrev pub endpoint_keys : List Endpoint → List NodeKeyPair
endpoint_keys = map (λ e. e.server.node)

unfoldable pub ask_decrypt :
    BoxOpen → String → List String → List Endpoint → List (Option DecryptReply)
unfolding decrypt
ask_decrypt box_open token ids [] = []
ask_decrypt box_open token ids (e ∷ es) =
    answer e.reachable (decrypt box_open (some token) ids e.server)
    ∷ ask_decrypt box_open token ids es

unfoldable pub ask_sign :
    Crypto → String → String → List Endpoint → List MatchResult → List (Option NodeSignature)
unfolding sign
ask_sign c batch_id token [] matches = []
ask_sign c batch_id token (e ∷ es) matches =
    answer e.reachable (sign c (some token) batch_id matches e.server)
    ∷ ask_sign c batch_id token es matches

-- The round that the coordinator runs on a session.
unfoldable pub run_network_round :
    Crypto
    → AmountSort
    → String
    → BoxOpen
    → String
    → List Endpoint
    → SessionState
    → SessionState × CoordinatorResult
unfolding ask_decrypt ask_sign run_matching_round_remote
run_network_round c sorts batch_id box_open token es s =
    run_matching_round_remote c sorts batch_id
      (ask_decrypt box_open token (map (λ i. i.0) s.intents) es) (ask_sign c batch_id token es) s
      (endpoint_ids es)

abbrev accepted : Option Bool → Bool
accepted none = false
accepted (some known) = known

-- Whether a node answers the coordinator: it can be reached, and takes its token.
abbrev pub answering : String → Endpoint → Bool
answering token e = e.reachable && accepted (require_internal_auth e.server.token (some token))

length-ids : (es : List Endpoint) → length (endpoint_ids es) ≡ length (endpoint_keys es)
length-ids [] = refl
length-ids (e ∷ es) = omega (arith, length-ids es)

-- The keys of the nodes that answer.
abbrev pub signers : String → List Endpoint → List NodeKeyPair
signers token [] = []
signers token (e ∷ es) =
    let rest = signers token es in if answering token e then e.server.node ∷ rest else rest

-- Whatever holds of all nodes holds of those that answer.
signers-All :
    (P : NodeKeyPair → Type 0) (token : String) (es : List Endpoint)
    → All P (endpoint_keys es)
    → All P (signers token es)
signers-All P token [] h = tt
signers-All P token (e ∷ es) (h, hs) = elim (Bool-cases (answering token e)) [
  | inl up ↦ rw up (h, signers-All P token es hs)
  | inr down ↦ rw down (signers-All P token es hs)
]

signers-Mem :
    (token : String) (es : List Endpoint) (k : String)
    → Mem k (publics (signers token es))
    → Mem k (publics (endpoint_keys es))
signers-Mem token [] k m = m
signers-Mem token (e ∷ es) k m = elim (Bool-cases (answering token e)) [
  | inr down ↦ mem-cons_of_mem _ (signers-Mem token es k (rw down at m))
  | inl up ↦
      Or.elim (λ a b. Mem-prop a b) (mem-cons.0 (rw up at m))
        (λ same. subst (λ x. Mem x (publics (endpoint_keys (e ∷ es)))) (sym same) mem-cons_self)
        (λ later. mem-cons_of_mem _ (signers-Mem token es k later))
]

signers-Nodup :
    (token : String) (es : List Endpoint)
    → Nodup (publics (endpoint_keys es))
    → Nodup (publics (signers token es))
signers-Nodup token [] distinct = distinct
signers-Nodup token (e ∷ es) distinct =
    let (new, rest) = Nodup-cons.0 distinct in
    elim (Bool-cases (answering token e)) [
      | inr down ↦ rw down (signers-Nodup token es rest)
      | inl up ↦
          rw up (Nodup-cons.1 (λ m. new (signers-Mem token es _ m), signers-Nodup token es rest))
    ]

module _ (c : Crypto) (batch_id : String) where
  answer-sign :
      (token : String) (e : Endpoint) (matches : List MatchResult)
      → answer e.reachable (sign c (some token) batch_id matches e.server)
        ≡ (if answering token e then some (sign_batch c batch_id matches e.server.node) else none)
  unfolding sign
  answer-sign token e matches = ground arith

  -- The signatures that come in are those of the nodes that answer.
  answers-ask_sign :
      (token : String) (es : List Endpoint) (matches : List MatchResult)
      → answers (ask_sign c batch_id token es matches)
        ≡ map (sign_batch c batch_id matches) (signers token es)
  unfolding ask_sign
  answers-ask_sign token [] matches = refl
  answers-ask_sign token (e ∷ es) matches =
      let ih = answers-ask_sign token es matches in
      let head = answer-sign token e matches in
      elim (Bool-cases (answering token e)) [
        | inl up ↦ rw (head, up) (ap (◌∷◌ (sign_batch c batch_id matches e.server.node)) ih)
        | inr down ↦ rw (head, down) ih
      ]

  -- Enough signatures of those that answer pass for all nodes.
  collected-verifies :
      (token session_id : String) (es : List Endpoint) (matches : List MatchResult)
      (batch : SignedMatchBatch)
      → batch
        ≡ sign_round c batch_id session_id matches (answers (ask_sign c batch_id token es matches))
      → threshold (length (endpoint_ids es))
        ≤ length (answers (ask_sign c batch_id token es matches))
      → All (IsPaired c) (endpoint_keys es)
      → Nodup (publics (endpoint_keys es))
      → verify_signed_batch c batch (map node_public_info (endpoint_keys es)) ≡ true
  collected-verifies token session_id es matches batch made many paired distinct =
      let come = answers-ask_sign token es matches in
      let counted =
        ap (λ (l : List NodeSignature). length l) come
        ∙ length-sign c batch_id matches (signers token es) in
      rw (made, come)
        (verify-sign_batch c batch_id matches session_id _ (signers token es)
          (map node_public_info (endpoint_keys es)) (signers-All (IsPaired c) token es paired)
          (signers-Nodup token es distinct)
          (signers-All (λ k. Mem k.signing_public (keys (map node_public_info (endpoint_keys es))))
            token es (rw keys-public_info (publics-known (endpoint_keys es))))
          (rw (length-public_info, sym (length-ids es), sym counted) many))

-- Whatever nodes are down or refuse the coordinator's token, a batch that a round over the network returns
-- passes `verifySignedBatch` for the whole committee and settles no intent twice, if the keys of each
-- node belong together and no two nodes have the same public key.
pub run_network_round-verifies :
    (c : Crypto) (sorts : AmountSort) (batch_id : String) (box_open : BoxOpen) (token : String)
    (es : List Endpoint) (s : SessionState) (batch : SignedMatchBatch)
    → (run_network_round c sorts batch_id box_open token es s).1 ≡ done batch
    → All (IsPaired c) (endpoint_keys es)
    → Nodup (publics (endpoint_keys es))
    → (verify_signed_batch c batch (map node_public_info (endpoint_keys es)) ≡ true)
      × Nodup (netted batch.matches)
unfolding run_network_round
run_network_round-verifies c sorts batch_id box_open token es s batch e paired distinct =
    let decrypted = ask_decrypt box_open token (map (λ i. i.0) s.intents) es in
    let asked = ask_sign c batch_id token es in
    let (made, many) = remote-done c sorts batch_id asked decrypted s (endpoint_ids es) batch e in
    (
      collected-verifies c batch_id token s.session_id es _ batch made many paired distinct,
      subst (λ (b : SignedMatchBatch). Nodup (netted b.matches)) (sym made)
          (match_intents-Nodup sorts _),
    )

-- A round over the network ends as `Agrees` says, on every branch.
pub network-Agrees :
    (c : Crypto) (sorts : AmountSort) (batch_id : String) (box_open : BoxOpen) (token : String)
    (es : List Endpoint) (s : SessionState)
    → Agrees s (run_network_round c sorts batch_id box_open token es s)
unfolding run_network_round
network-Agrees c sorts batch_id box_open token es s =
    remote-Agrees c sorts batch_id (ask_sign c batch_id token es)
      (ask_decrypt box_open token (map (λ i. i.0) s.intents) es) s (endpoint_ids es)
