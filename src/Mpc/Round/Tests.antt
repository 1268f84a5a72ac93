-- ===== src/Mpc/Round/Tests.antt =====
-- A round of three nodes on two intents that meet, and one with a share too few.
use shade.Shared.{◌≡◌, refl, true, List, [], ◌∷◌, map, some, Nodup, ◌==◌, if◌then◌else◌}
use shade.Shared.Int.{◌-ℤ◌, ◌*ℤ◌}
use shade.Shared.Maps.{get, put}
use shade.Mpc.Matching.{MatchResult, match_intents, netted}
use shade.Mpc.Matching.Tests.{by_insertion}
use shade.Mpc.Shamir.{shamir_reconstruct}
use shade.Mpc.Batch.{SignedMatchBatch, node_public_info, sign_batch, verify_signed_batch}
use shade.Mpc.Batch.Tests.{toy, node, committee, publics-Nodup}
use shade.Mpc.Session.{SessionState, new_session, with_intent, store_shares, store_share}
use shade.Mpc.Session.Tests.{intent}
use shade.Mpc.Round.Defs.{BoxOpen, not_enough_shares, done, refused, sign_round, run_matching_round}
use shade.Mpc.Round.Outcome.{run_matching_round-verifies}

-- Shares of 7 by the line 7 + 5 x.
abbrev pub box_open : BoxOpen
box_open enc secret =
    if secret == "n1"
    then some (record { x = 1; y = 12 })
    else if secret == "n2"
    then some (record { x = 2; y = 17 })
    else some (record { x = 3; y = 22 })

abbrev session : SessionState
session =
    with_intent (intent "i2" "XLM" "USDC")
      (with_intent (intent "i1" "USDC" "XLM") (new_session "s" 1))

abbrev pub matches : List MatchResult
matches = match_intents by_insertion (
    record { intent_id = "i1"; amount7dp = 7; input_asset = "USDC"; output_asset = "XLM" }
    ∷ record { intent_id = "i2"; amount7dp = 7; input_asset = "XLM"; output_asset = "USDC" }
    ∷ [])

abbrev batch : SignedMatchBatch
batch = sign_round toy "b" "s" matches (map (sign_batch toy "b" matches) committee)

signs : (run_matching_round toy by_insertion "b" box_open session committee).1 ≡ done batch
unfolding run_matching_round put get store_shares store_share shamir_reconstruct ◌-ℤ◌ ◌*ℤ◌
signs = refl

short :
    (run_matching_round toy by_insertion "b" box_open session (node "n1" ∷ [])).1
    ≡ refused (not_enough_shares "i1")
unfolding run_matching_round put get store_shares store_share
short = refl

run_matching_round-verifies_example :
    (verify_signed_batch toy batch (map node_public_info committee) ≡ true)
    × Nodup (netted batch.matches)
run_matching_round-verifies_example =
    run_matching_round-verifies toy by_insertion "b" box_open session committee batch signs
      (refl, (refl, (refl, tt))) publics-Nodup
