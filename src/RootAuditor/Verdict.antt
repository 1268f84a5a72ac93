-- ===== src/RootAuditor/Verdict.antt =====
-- When an audit passes.
use shade.Shared.{◌≡◌, ◌⊎◌, String, List, [], ◌∷◌, Option, some, ℕ}
use shade.Shared.Results.{Result, ok}
use shade.RootAuditor.{DepositLeaf, norm, last_leaf, sort_leaves, recompute_root, commitments}

module _ (compute_root : List String → Result ℕ) where
  -- Without regard to case and prefix, the root is that of all leaves in the order of their indexes, or
  -- that of the leaf of the largest index alone.
  abbrev pub Recomputed : List DepositLeaf → String → Type 0
  Recomputed leaves root =
      ((all : String) × (recompute_root compute_root (commitments compute_root (sort_leaves leaves))
          ≡ ok all)
        × (norm root ≡ norm all))
      ⊎ ((d : DepositLeaf) × (alone : String) × (last_leaf (sort_leaves leaves) ≡ some d)
          × (recompute_root compute_root (d.commitment_decimal ∷ []) ≡ ok alone)
          × (norm root ≡ norm alone))

  abbrev Alone : Option DepositLeaf → String → Type 0
  Alone o root =
      (d : DepositLeaf) × (alone : String) × (o ≡ some d)
      × (recompute_root compute_root (d.commitment_decimal ∷ []) ≡ ok alone)
      × (root ≡ norm alone)
