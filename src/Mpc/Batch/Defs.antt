-- ===== src/Mpc/Batch/Defs.antt =====
-- Rows, their canonical order, and what the committee signs and checks.
use shade.Shared.{
  ℕ, ◌+◌, ◌*◌, ◌/◌, String, ◌≡◌, Bool, true, false, not, List, [], ◌∷◌, ◌++◌, map, Option, none,
  some, leb, if◌then◌else◌, length, member,
}
use shade.Shared.Texts.{codes, text_lt, decimal}
use shade.Mpc.Matching.{MatchResult}

pub record Row : Type 0 where
  pub a : String
  pub b : String
  pub amt : ℕ
  pub input : String
  pub output : String
  pub price : String
  pub asset_in : String
  pub asset_out : String

-- A `MatchResult` has no `priceScaled`, `assetIn` or `assetOut`: each is read as `""`.
unfoldable pub to_row : MatchResult → Row
to_row m = record {
  a = m.intent_a_id;
  b = m.intent_b_id;
  amt = m.matched_amount7dp;
  input = m.input_asset;
  output = m.output_asset;
  price = "";
  asset_in = "";
  asset_out = "";
}

-- `${r.a} ${r.b} ${r.amt} ${r.in} ${r.out} ${r.price} ${r.assetIn} ${r.assetOut}`
unfoldable pub row_key : Row → List ℕ
row_key r =
    codes r.a
    ++ (32 ∷ codes r.b
        ++ (32 ∷ decimal r.amt
            ++ (32 ∷ codes r.input
                ++ (32 ∷ codes r.output
                    ++ (32 ∷ codes r.price ++ (32 ∷ codes r.asset_in ++ 32 ∷ codes r.asset_out))))))

-- `rows.sort(cmp)` is stable, and its comparator is the order of the keys.
unfoldable pub insert_row : Row → List Row → List Row
insert_row r [] = r ∷ []
insert_row r (s ∷ rows) =
    if text_lt (row_key s) (row_key r) then s ∷ insert_row r rows else r ∷ s ∷ rows

unfoldable pub sort_rows : List Row → List Row
unfolding insert_row
sort_rows [] = []
sort_rows (r ∷ rows) = insert_row r (sort_rows rows)

pub record NodeSignature : Type 0 where
  pub node_id : String
  pub signing_pubkey : String
  pub signature : String

pub record SignedMatchBatch : Type 0 where
  pub batch_id : String
  pub session_id : String
  pub matches : List MatchResult
  pub batch_hash : String
  pub signatures : List NodeSignature

pub record CommitteeNodeInfo : Type 0 where
  pub node_id : String
  pub encryption_pubkey : String
  pub signing_pubkey : String

pub record NodeKeyPair : Type 0 where
  pub node_id : String
  pub encryption_secret : String
  pub encryption_public : String
  pub signing_secret : String
  pub signing_public : String

-- `hash_json` is sha256 over `JSON.stringify({ batchId, matches: rows })`; the others are
-- `nacl.sign.detached`, its `verify`, and the public half of a signing key.
pub record Crypto : Type 0 where
  pub hash_json : String → List Row → String
  pub sign_detached : String → String → String
  pub verify_detached : String → String → String → Bool
  pub public_of : String → String
  pub verify-sign :
      (msg secret : String)
      → verify_detached msg (sign_detached msg secret) (public_of secret) ≡ true

unfoldable pub node_public_info : NodeKeyPair → CommitteeNodeInfo
node_public_info k = record {
  node_id = k.node_id;
  encryption_pubkey = k.encryption_public;
  signing_pubkey = k.signing_public;
}

module _ (c : Crypto) where
  open c use {hash_json, sign_detached, verify_detached}

  unfoldable pub compute_batch_hash : String → List MatchResult → String
  compute_batch_hash batch_id matches = hash_json batch_id (sort_rows (map to_row matches))

  unfoldable pub sign_batch : String → List MatchResult → NodeKeyPair → NodeSignature
  sign_batch batch_id matches k = record {
    node_id = k.node_id;
    signing_pubkey = k.signing_public;
    signature = sign_detached (compute_batch_hash batch_id matches) k.signing_secret;
  }

  unfoldable pub verify_node_signature : String → List MatchResult → NodeSignature → Bool
  verify_node_signature batch_id matches sig =
      verify_detached (compute_batch_hash batch_id matches) sig.signature sig.signing_pubkey

  -- The loop over `batch.signatures`: `none` is a `return false`, `some` the signers seen.
  unfoldable pub check_signatures :
      List String → SignedMatchBatch → List String → List NodeSignature → Option (List String)
  check_signatures expected batch seen [] = some seen
  check_signatures expected batch seen (sig ∷ sigs) =
      let rest = check_signatures expected batch (sig.signing_pubkey ∷ seen) sigs in
      if not (member sig.signing_pubkey expected)
      then none
      else if member sig.signing_pubkey seen
      then none
      else if not (verify_node_signature batch.batch_id batch.matches sig)
      then none
      else rest

-- `Math.ceil(n * 2 / 3)`
unfoldable pub threshold : ℕ → ℕ
threshold n = (n * 2 + 2) / 3

abbrev pub enough : List CommitteeNodeInfo → Option (List String) → Bool
enough committee none = false
enough committee (some seen) = leb (threshold (length committee)) (length seen)

unfoldable pub verify_signed_batch : Crypto → SignedMatchBatch → List CommitteeNodeInfo → Bool
unfolding threshold
verify_signed_batch c batch committee =
    enough committee
      (check_signatures c (map (λ n. n.signing_pubkey) committee) batch [] batch.signatures)
