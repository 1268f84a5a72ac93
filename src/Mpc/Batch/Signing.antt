-- ===== src/Mpc/Batch/Signing.antt =====
-- A batch that nodes of the committee sign by `signBatch` passes `verifySignedBatch`.
use mathlib.Core.List.{mem-cons_self, mem-cons_of_mem}
use shade.Shared.{
  ℕ, ◌≤◌, String, ◌≡◌, refl, ap, subst, sym, true, List, [], ◌∷◌, map, Mem, Nodup, arith, length,
  All, All-map,
}
use shade.Mpc.Matching.{MatchResult}
use shade.Mpc.Batch.Defs.{
  CommitteeNodeInfo, NodeKeyPair, Crypto, node_public_info, sign_batch, verify_node_signature,
  threshold, verify_signed_batch,
}
use shade.Mpc.Batch.Verify.{signers, keys, verify_signed_batch_iff}

-- The two halves of the node's signing key belong together.
abbrev pub IsPaired : Crypto → NodeKeyPair → Type 0
IsPaired c k = k.signing_public ≡ c.public_of k.signing_secret

abbrev pub publics : List NodeKeyPair → List String
publics = map (λ k. k.signing_public)

module _ (c : Crypto) (batch_id : String) (matches : List MatchResult) where
  sign_batch-valid :
      (k : NodeKeyPair)
      → IsPaired c k
      → verify_node_signature c batch_id matches (sign_batch c batch_id matches k) ≡ true
  unfolding verify_node_signature sign_batch
  sign_batch-valid k paired = rw paired (c.verify-sign _ k.signing_secret)

  signers-sign :
      (nodes : List NodeKeyPair)
      → signers (map (sign_batch c batch_id matches) nodes) ≡ publics nodes
  unfolding sign_batch
  signers-sign [] = refl
  signers-sign (k ∷ nodes) = ap (◌∷◌ k.signing_public) (signers-sign nodes)

  pub length-sign :
      (nodes : List NodeKeyPair) → length (map (sign_batch c batch_id matches) nodes) ≡ length nodes
  length-sign [] = refl
  length-sign (k ∷ nodes) = omega (arith, length-sign nodes)

  sign_batch-All :
      (expected : List String) (nodes : List NodeKeyPair)
      → All (IsPaired c) nodes
      → All (λ k. Mem k.signing_public expected) nodes
      → All
          (λ s. Mem s.signing_pubkey expected × (verify_node_signature c batch_id matches s ≡ true))
          (map (sign_batch c batch_id matches) nodes)
  unfolding sign_batch
  sign_batch-All expected [] paired known = tt
  sign_batch-All expected (k ∷ nodes) paired known = (
    (known.0, unfold sign_batch in sign_batch-valid k paired.0),
    sign_batch-All expected nodes paired.1 known.1,
  )

  -- A batch whose signatures are those of the given nodes passes for every committee that has
  -- the keys of these nodes and needs no more signatures, if no two nodes have one key.
  pub verify-sign_batch :
      (session_id batch_hash : String) (nodes : List NodeKeyPair)
      (committee : List CommitteeNodeInfo)
      → All (IsPaired c) nodes
      → Nodup (publics nodes)
      → All (λ k. Mem k.signing_public (keys committee)) nodes
      → threshold (length committee) ≤ length nodes
      → verify_signed_batch c
          (record {
            batch_id = batch_id;
            session_id = session_id;
            matches = matches;
            batch_hash = batch_hash;
            signatures = map (sign_batch c batch_id matches) nodes;
          })
          committee
        ≡ true
  verify-sign_batch session_id batch_hash nodes committee paired distinct known many =
      (verify_signed_batch_iff c _ committee).1 (
        (
          sign_batch-All (keys committee) nodes paired known,
          subst Nodup (sym (signers-sign nodes)) distinct,
        ),
        omega (arith, length-sign nodes),
      )

pub keys-public_info :
    (nodes : List NodeKeyPair) → keys (map node_public_info nodes) ≡ publics nodes
unfolding node_public_info
keys-public_info [] = refl
keys-public_info (k ∷ nodes) = ap (◌∷◌ k.signing_public) (keys-public_info nodes)

pub length-public_info :
    (nodes : List NodeKeyPair) → length (map node_public_info nodes) ≡ length nodes
length-public_info [] = refl
length-public_info (k ∷ nodes) = omega (arith, length-public_info nodes)

pub publics-known :
    (nodes : List NodeKeyPair) → All (λ k. Mem k.signing_public (publics nodes)) nodes
publics-known [] = tt
publics-known (k ∷ nodes) = (
  mem-cons_self,
  All-map (λ n. Mem n.signing_public (publics nodes))
      (λ n. Mem n.signing_public (publics (k ∷ nodes))) (λ n m. mem-cons_of_mem _ m) nodes
      (publics-known nodes),
)

threshold-le : (n : ℕ) → threshold n ≤ n
unfolding threshold
threshold-le n = omega arith

-- A batch that all nodes sign passes for the committee of just these nodes.
pub verify-sign_committee :
    (c : Crypto) (batch_id session_id batch_hash : String) (matches : List MatchResult)
    (nodes : List NodeKeyPair)
    → All (IsPaired c) nodes
    → Nodup (publics nodes)
    → verify_signed_batch c
        (record {
          batch_id = batch_id;
          session_id = session_id;
          matches = matches;
          batch_hash = batch_hash;
          signatures = map (sign_batch c batch_id matches) nodes;
        })
        (map node_public_info nodes)
      ≡ true
verify-sign_committee c batch_id session_id batch_hash matches nodes paired distinct =
    verify-sign_batch c batch_id matches session_id batch_hash nodes (map node_public_info nodes)
      paired distinct (rw keys-public_info (publics-known nodes))
      (rw length-public_info (threshold-le (length nodes)))
