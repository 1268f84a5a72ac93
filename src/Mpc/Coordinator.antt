-- ===== src/Mpc/Coordinator.antt =====
-- apps/mpc-committee/src/coordinator-server.ts: the handlers of the coordinator, which holds the sessions
-- and no secret of a node. Handlers run one after another; the clock and the batch id are arguments.
use shade.Shared.{
  String, Bool, not, List, [], ◌∷◌, map, Option, none, some, ◌==◌, nat_eq, ltb, length,
  if◌then◌else◌,
}
use shade.Shared.Maps.{get, put}
use shade.Api.Vaults.{Reply, ok, error}
use shade.Mpc.Matching.{AmountSort}
use shade.Mpc.Batch.{SignedMatchBatch, Crypto, node_public_info, verify_signed_batch}
use shade.Mpc.Session.{
  EncryptedShare, MpcIntent, SessionState, CommitteeState, Now, Status, is_open, add_intent,
}
use shade.Mpc.Round.{CoordinatorResult, BoxOpen, done, refused}
use shade.Mpc.Node.{receive_share}
use shade.Mpc.Network.{Endpoint, endpoint_keys, run_network_round}

pub record Coordinator : Type 0 where
  pub committee : CommitteeState
  pub endpoints : List Endpoint
  pub token : String

abbrev received : String → String → EncryptedShare → Endpoint → Endpoint
received token intent_id share e = record e {
  server = (receive_share (some token) intent_id share e.server).1;
}

-- One share goes to the first endpoint of its node, and is lost where that is not configured or down.
unfoldable pub forward : String → String → EncryptedShare → List Endpoint → List Endpoint
unfolding receive_share
forward token intent_id share [] = []
forward token intent_id share (e ∷ es) =
    let rest = forward token intent_id share es in
    if not (e.server.node.node_id == share.node_id)
    then e ∷ rest
    else (if e.reachable then received token intent_id share e else e) ∷ es

-- `distributeShares`
unfoldable pub distribute_shares :
    String → String → List EncryptedShare → List Endpoint → List Endpoint
unfolding forward
distribute_shares token intent_id [] es = es
distribute_shares token intent_id (share ∷ shares) es =
    distribute_shares token intent_id shares (forward token intent_id share es)

-- POST /v1/mpc/intents; the reply is the id of the session.
unfoldable pub submit_intent : Now → Option MpcIntent → Coordinator → Reply String × Coordinator
unfolding add_intent distribute_shares
submit_intent now none co = (error 400, co)
submit_intent now (some i) co =
    let (session_id, committee) = add_intent co.committee now i in
    if i.intent_id == ""
    then (error 400, co)
    else if not (nat_eq (length i.encrypted_shares) (length co.endpoints))
    then (error 400, co)
    else (
      ok session_id,
      record co {
        committee = committee;
        endpoints = distribute_shares co.token i.intent_id i.encrypted_shares co.endpoints;
      },
    )

pub data MatchReply : Type 0 where
  batch : SignedMatchBatch → MatchReply
  not_open : Status → MatchReply
  no_match : MatchReply

abbrev pub reply_of : CoordinatorResult → MatchReply
reply_of (done b) = batch b
reply_of (refused reason) = no_match

-- POST /v1/mpc/verify
unfoldable pub verify : Crypto → SignedMatchBatch → Coordinator → Bool
unfolding verify_signed_batch
verify c b co = verify_signed_batch c b (map node_public_info (endpoint_keys co.endpoints))

module _ (c : Crypto) (sorts : AmountSort) (batch_id : String) (box_open : BoxOpen) where
  unfoldable pub match_open : String → SessionState → Coordinator → Reply MatchReply × Coordinator
  unfolding run_network_round
  match_open session_id s co =
      let (s', result) = run_network_round c sorts batch_id box_open co.token co.endpoints s in
      (
        ok (reply_of result),
        record co {
          committee = record (co.committee) { sessions = put session_id s' co.committee.sessions };
        },
      )

  -- POST /v1/mpc/sessions/:sessionId/match
  unfoldable pub match_session : String → Coordinator → Reply MatchReply × Coordinator
  unfolding match_open get
  match_session session_id co = elim (get session_id co.committee.sessions) [
    | none ↦ (error 404, co)
    | some s ↦ if is_open s.status then match_open session_id s co else (ok (not_open s.status), co)
  ]

  -- The timer's turn for one open session.
  unfoldable pub auto_match : String → SessionState → Coordinator → Coordinator
  unfolding match_open
  auto_match session_id s co =
      if ltb (length s.intents) 2 then co else (match_open session_id s co).1
