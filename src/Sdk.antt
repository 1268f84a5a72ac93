-- ===== src/Sdk.antt =====
-- packages/sdk/src/mpc.ts: the shares of an amount that a client makes for the committee. The box of
-- tweetnacl and the random bytes are arguments.
pub mod Shares
mod Tests
use shade.Shared.{ℕ, zero, suc, ◌+◌, ◌*◌, String, List, [], ◌∷◌, map, length}
use shade.Shared.Int.{ℤ, pos}
use shade.Shared.Texts.{printed, joined}
use shade.Mpc.Session.{EncryptedShare}
use shade.Mpc.Batch.{CommitteeNodeInfo}
use shade.Mpc.Shamir.{Share, modp}

-- `randomFieldElement`: 32 random bytes, reduced.
unfoldable pub random_field_element : ℕ → ℕ
unfolding modp
random_field_element raw = modp (pos raw)

-- The inner loop from the highest coefficient down, `y` being what the higher ones make.
unfoldable pub horner : List ℕ → ℕ → ℕ
unfolding modp
horner [] x = 0
horner (c ∷ coeffs) x = modp (pos (horner coeffs x * x + c))

-- `Array.from({ length })`, from the index `i` on.
unfoldable pub points : List ℕ → ℕ → ℕ → List Share
unfolding horner
points coeffs zero i = []
points coeffs (suc left) i =
    record { x = i + 1; y = horner coeffs (i + 1) } ∷ points coeffs left (i + 1)

-- `draws` are the `threshold - 1` random numbers of 32 bytes.
unfoldable pub shamir_split : ℤ → List ℕ → ℕ → List Share
unfolding points random_field_element modp
shamir_split secret draws total = points (modp secret ∷ map random_field_element draws) total 0

-- `nacl.box` with a fresh key pair and nonce, which the seed stands for; the share is sent as JSON.
abbrev pub Seal : Type 0
Seal = Share → String → String → String → EncryptedShare

module _ (seal : Seal) where
  -- `encryptShareForNode`: the share, the node's key, its id and the seed.
  abbrev pub encrypt_share_for_node : Share → String → String → String → EncryptedShare
  encrypt_share_for_node share pubkey node_id seed = seal share pubkey seed node_id

  -- `nodes.map((node, i) => …)`; there are as many shares as nodes.
  unfoldable pub encrypt_shares :
      List CommitteeNodeInfo → List Share → List String → List EncryptedShare
  encrypt_shares [] shares seeds = []
  encrypt_shares (n ∷ nodes) [] seeds = []
  encrypt_shares (n ∷ nodes) (s ∷ shares) [] = []
  encrypt_shares (n ∷ nodes) (s ∷ shares) (seed ∷ seeds) =
      encrypt_share_for_node s n.encryption_pubkey n.node_id seed
      ∷ encrypt_shares nodes shares seeds

  unfoldable pub split_and_encrypt_amount :
      ℕ → List CommitteeNodeInfo → List ℕ → List String → List EncryptedShare
  unfolding shamir_split encrypt_shares
  split_and_encrypt_amount amount7dp nodes draws seeds =
      encrypt_shares nodes (shamir_split (pos amount7dp) draws (length nodes)) seeds

-- What `buildAmountCommitment` and `buildValueCommitment` hash.
unfoldable pub amount_preimage : ℕ → String → String
amount_preimage amount7dp blinding = joined (printed amount7dp ∷ ":" ∷ blinding ∷ [])

unfoldable pub value_preimage : String → String → String
value_preimage value blinding = joined (value ∷ ":" ∷ blinding ∷ [])
