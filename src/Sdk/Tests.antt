-- ===== src/Sdk/Tests.antt =====
-- A client's amount, shared among three nodes with a toy box that writes numbers in strokes.
use shade.Shared.{ℕ, zero, suc, String, List, [], ◌∷◌, none, some, ◌==◌, if◌then◌else◌}
use shade.Mpc.Session.{EncryptedShare}
use shade.Mpc.Batch.{NodeKeyPair}
use shade.Mpc.Round.{BoxOpen}
use shade.Sdk.{Seal}

strokes : ℕ → String
strokes zero = ""
strokes (suc n) = String.◌∷◌ "|" (strokes n)

counted : String → ℕ
counted String.[] = 0
counted (String.◌∷◌ c s) = suc (counted s)

abbrev seal : Seal
seal p pubkey seed node_id = record {
  node_id = node_id;
  ciphertext = strokes p.x;
  nonce = strokes p.y;
  sender_pubkey = pubkey;
}

abbrev box_open : BoxOpen
box_open e secret =
    if e.sender_pubkey == secret
    then some (record { x = counted e.ciphertext; y = counted e.nonce })
    else none

abbrev key : String → NodeKeyPair
key id = record {
  node_id = id;
  encryption_secret = id;
  encryption_public = id;
  signing_secret = id;
  signing_public = id;
}

abbrev nodes : List NodeKeyPair
nodes = key "n1" ∷ key "n2" ∷ key "n3" ∷ []

abbrev first_sent : EncryptedShare
first_sent = seal (record { x = 1; y = 12 }) "n1" "a" "n1"

abbrev third_sent : EncryptedShare
third_sent = seal (record { x = 3; y = 22 }) "n3" "c" "n3"
