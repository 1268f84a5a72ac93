-- ===== src/Api/Rfq/Tests.antt =====
-- An RFQ from the intent to its settlement, by its owner, with another user and a second quote.
use Prim.Native.String.{◌++◌}
use shade.Shared.{String, ◌≡◌, refl, [], ◌∷◌, Option, none, some, All}
use shade.Api.Vaults.{ok, error}
use shade.Api.Rfq.Tables.{IntentBody, MpcIntentRow, Tables, is_nullifier_spent}
use shade.Api.Rfq.Intents.{Committee, session}
use shade.Api.Rfq.Quotes.{QuoteBody, Solver, AcceptBody}
use shade.Api.Rfq.Settle.{FillBody, SettleBody, settle}
use shade.Api.Rfq.Allows.{Allows}
use shade.Api.Rfq.Gate.{Settles, settle-Settles}
use shade.Api.Rfq.Lifecycle.{
  Request, create, quote, accept, fill, execute, finish, match, handle, Reachable, start, after,
  Reachable-Backed, handle-Owned,
}
use shade.Api.Rfq.Backed.{Backed}
use shade.Api.Rfq.Owned.{Owned}

abbrev hash : IntentBody → String
hash b = b.amount_commitment

abbrev committee : String → IntentBody → Committee
committee h b = session (some "s")

abbrev id_of : String → String → String → String
id_of a b c = a ++ b ++ c

abbrev fill_id_of : String → String → String
fill_id_of a b = a ++ b

abbrev no_solver : Option (String → String → Solver)
no_solver = none

abbrev run : Request → Tables → Tables
run = handle hash committee no_solver id_of fill_id_of

abbrev empty : Tables
empty = record {
  intents = [];
  mpc_sessions = [];
  mpc_intents = [];
  mpc_shares = [];
  quotes = [];
  acceptances = [];
  locks = [];
  fills = [];
  settlements = [];
  proof_jobs = record { proof_job_id = "p"; status = "ready" } ∷ [];
  nullifier_spends = "spent" ∷ [];
  transitions = [];
  activity = [];
  critical_findings = 0;
}

abbrev intent : IntentBody
intent = record {
  input_asset = "USDC";
  output_asset = "EURC";
  amount_commitment = "h";
  min_output_commitment = "m";
  expiry_ledger = 100;
  compliance_policy_id = "policy";
  signature = "sig";
  note_nullifier = some "n";
  note_commitment = some "c";
  recipient_commitment = none;
  encrypted_shares =
      record { node_id = "1"; ciphertext = "x"; nonce = "y"; sender_pubkey = "z" } ∷ [];
}

abbrev quoted : String → QuoteBody
quoted id = record {
  quote_id = id;
  intent_hash = "h";
  quote_hash = id;
  solver_id = "solver";
  quote_signature = "sig";
  valid_until_ledger = 90;
}

abbrev acceptance : AcceptBody
acceptance = record { intent_hash = "h"; user_signature_hash = "u" }

abbrev fill_body : FillBody
fill_body = record {
  quote_id = "q";
  fill_receipt_hash = "r";
  destination_tx_hash = none;
  amount = "5";
  recipient = "0x1";
}

abbrev matched_row : MpcIntentRow
matched_row = record {
  intent_id = "h";
  session_id = "s";
  user_id = "alice";
  note_nullifier = "n";
  note_commitment = "c";
  recipient_commitment = "";
  status = "matched";
}

abbrev settlement : SettleBody
settlement = record {
  intent_hash = "h";
  quote_id = "q";
  fill_id = some "qr";
  fill_receipt_hash = none;
  proof_job_id = "p";
  nullifier = "n";
}

abbrev with_receipt : SettleBody
with_receipt = record settlement { fill_receipt_hash = some "r" }

-- Two quotes for the intent of a user.
abbrev asked : Tables
asked =
    run (quote (some (quoted "k"))) (
      run (quote (some (quoted "q")))
        (run (create (some "alice") (some intent) (some "key")) empty))

-- One of them is accepted, filled and executed, and the committee has matched the intent.
abbrev ready : Tables
ready = run (match (matched_row ∷ [])) (
    run (execute "qr" (some "0xtx"))
      (run (fill (some fill_body)) (run (accept (some "alice") "q" (some acceptance)) asked)))

settled : (settle id_of (some "alice") (some settlement) ready).0 ≡ ok "hqn"
unfolding handle settle is_nullifier_spent
settled = refl

not_theirs : (settle id_of (some "bob") (some settlement) ready).0 ≡ error 403
unfolding handle settle
not_theirs = refl

abbrev done : Tables
done = run (finish (some "alice") (some settlement)) ready

done-Reachable : Reachable hash committee no_solver id_of fill_id_of done
done-Reachable = after ready (finish (some "alice") (some settlement)) (
    after _ (match (matched_row ∷ [])) (
      after _ (execute "qr" (some "0xtx")) (
        after _ (fill (some fill_body)) (
          after asked (accept (some "alice") "q" (some acceptance)) (
            after _ (quote (some (quoted "k"))) (
              after _ (quote (some (quoted "q"))) (
                after empty (create (some "alice") (some intent) (some "key"))
                  (start empty refl))))))))

Reachable-Backed_example : All (Backed done) done.settlements
Reachable-Backed_example =
    Reachable-Backed hash committee no_solver id_of fill_id_of done done-Reachable

handle-Owned_example : Owned ready.intents done.intents
handle-Owned_example =
    handle-Owned hash committee no_solver id_of fill_id_of (finish (some "alice") (some settlement))
      ready

settle-Settles_example :
    Settles id_of "alice" settlement ready (settle id_of (some "alice") (some settlement) ready)
settle-Settles_example = settle-Settles id_of "alice" settlement ready
