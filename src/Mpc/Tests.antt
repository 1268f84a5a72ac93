-- ===== src/Mpc/Tests.antt =====
-- A coordinator with three nodes, one of which is down, and two intents that meet.
use shade.Shared.{String, Bool, true, false, [], ◌∷◌, map, some}
use shade.Mpc.Batch.{SignedMatchBatch, sign_batch}
use shade.Mpc.Batch.Tests.{toy, node}
use shade.Mpc.Session.Tests.{intent, now}
use shade.Mpc.Round.{sign_round}
use shade.Mpc.Round.Tests.{matches}
use shade.Mpc.Node.{NodeServer}
use shade.Mpc.Network.{Endpoint}
use shade.Mpc.Coordinator.{Coordinator, submit_intent}

abbrev server : String → NodeServer
server id = record { node = node id; token = "secret"; shares = [] }

abbrev up : Bool → String → Endpoint
up reachable id = record { server = server id; reachable = reachable }

abbrev empty : Coordinator
empty = record {
  committee = record { sessions = []; intent_to_session = [] };
  endpoints = up true "n1" ∷ up true "n2" ∷ up false "n3" ∷ [];
  token = "secret";
}

abbrev loaded : Coordinator
loaded =
    (submit_intent now (some (intent "i2" "XLM" "USDC"))
      (submit_intent now (some (intent "i1" "USDC" "XLM")) empty).1).1

abbrev signed_by_two : SignedMatchBatch
signed_by_two =
    sign_round toy "b" "session-3" matches
      (map (sign_batch toy "b" matches) (node "n1" ∷ node "n2" ∷ []))
