-- ===== src/Mpc/Batch/Tests.antt =====
-- A committee of three over a toy signature scheme, and a batch that it signs.
use Prim.Native.String.{◌++◌}
use shade.Shared.{
  ◌≤◌, String, ◌≡◌, ◌↔◌, refl, true, List, [], ◌∷◌, map, Mem, Nodup, ◌==◌, eq_refl, length, eq_iff,
  false,
}
use mathlib.Core.List.{Nodup-nil, Nodup-cons, not-mem-nil, mem-cons}
use mathlib.Core.Logic.Or
use shade.Mpc.Batch.Defs.{
  Crypto, NodeKeyPair, SignedMatchBatch, node_public_info, sign_batch, threshold,
  verify_signed_batch,
}
use shade.Mpc.Batch.Verify.{Sound, keys, verify_signed_batch_iff}
use shade.Mpc.Batch.Signing.{publics}

pub sign-verifies : (msg secret : String) → (secret ++ msg == secret ++ msg) ≡ true
sign-verifies msg secret = eq_refl (secret ++ msg)

-- A signature is the key in front of the message, and a public key is its secret key.
abbrev pub toy : Crypto
toy = record {
  hash_json = λ id rows. id;
  sign_detached = λ msg secret. secret ++ msg;
  verify_detached = λ msg sig key. sig == key ++ msg;
  public_of = λ secret. secret;
  verify-sign = sign-verifies;
}

abbrev pub node : String → NodeKeyPair
node id = record {
  node_id = id;
  encryption_secret = id;
  encryption_public = id;
  signing_secret = id;
  signing_public = id;
}

abbrev pub committee : List NodeKeyPair
committee = node "n1" ∷ node "n2" ∷ node "n3" ∷ []

abbrev batch : List NodeKeyPair → SignedMatchBatch
batch signing = record {
  batch_id = "b";
  session_id = "s";
  matches = [];
  batch_hash = "h";
  signatures = map (sign_batch toy "b" []) signing;
}

not_in_one : {a b : String} → (a == b) ≡ false → ¬ (Mem a (b ∷ []))
not_in_one {a} {b} ne m =
    Or.elim (λ p q. absurd p) (mem-cons.0 m) (λ e. cc (ne, (eq_iff a b).1 e)) not-mem-nil

pub publics-Nodup : Nodup (publics committee)
publics-Nodup = Nodup-cons.1 (
  λ m.
      Or.elim (λ p q. absurd p) (mem-cons.0 m) (λ e. cc ((eq_iff "n1" "n2").1 e)) (not_in_one refl),
  Nodup-cons.1 (not_in_one refl, Nodup-cons.1 (not-mem-nil, Nodup-nil)),
)

verify_signed_batch_iff_example :
    (verify_signed_batch toy (batch committee) (map node_public_info committee) ≡ true) ↔ (
      Sound toy
        (keys (map node_public_info committee))
        (batch committee)
        (batch committee).signatures
      × (threshold (length (map node_public_info committee)) ≤ length (batch committee).signatures))
verify_signed_batch_iff_example =
    verify_signed_batch_iff toy (batch committee) (map node_public_info committee)
