-- ===== src/Mpc/Session/Tests.antt =====
-- An intent that comes in while one session is open and another is signed.
use shade.Shared.{String, ◌≡◌, refl, [], ◌∷◌}
use shade.Mpc.Session.{
  EncryptedShare, MpcIntent, CommitteeState, Now, signed, new_session, add_intent, find_open,
  get_or_create_open_session,
}

abbrev pub sealed : String → EncryptedShare
sealed node = record { node_id = node; ciphertext = "c"; nonce = "n"; sender_pubkey = "k" }

abbrev pub intent : String → String → String → MpcIntent
intent id input output = record {
  intent_id = id;
  user_id = "u";
  input_asset = input;
  output_asset = output;
  expiry_ledger = 9;
  policy_id = "p";
  note_nullifier = "nf";
  note_commitment = "nc";
  recipient_commitment = "rc";
  encrypted_shares = sealed "n1" ∷ sealed "n2" ∷ sealed "n3" ∷ [];
  submitted_at = 1;
}

abbrev two_sessions : CommitteeState
two_sessions = record {
  sessions =
      ("session-1", record (new_session "session-1" 1) { status = signed })
      ∷ ("session-2", new_session "session-2" 2)
      ∷ [];
  intent_to_session = [];
}

abbrev pub now : Now
now = record { printed = "3"; started_at = 3 }

joins : (add_intent two_sessions now (intent "i1" "USDC" "XLM")).0 ≡ "session-2"
unfolding add_intent get_or_create_open_session find_open
joins = refl
