-- ===== src/RootAuditor.antt =====
-- apps/root-auditor/src/audit.ts: the leaves that the pool's events give, and the comparison of the root
-- that they make with the one on the chain. Soroban's answers and the program coinutils are arguments.
pub mod Blocks
pub mod Order
pub mod Run
pub mod Verdict
mod Tests
use Prim.Native.String.{◌++◌}
use text.Mathlib.Text.{starts_with}
use shade.Shared.{
  ℕ, zero, suc, ◌-◌, String, Bool, true, false, not, ◌&&◌, ◌||◌, List, [], ◌∷◌, map, Option, none,
  some, leb, ltb, nat_eq, ◌==◌, if◌then◌else◌, length,
}
use shade.Shared.Texts.{lower, hex_digits, printed, joined}
use shade.Shared.Results.{Result, ok, err, running, ◌>>=◌}

pub record DepositLeaf : Type 0 where
  pub leaf_index : ℕ
  pub commitment_decimal : String
  pub commitment_hex : String

pub record AuditResult : Type 0 where
  pub pool_contract : String
  pub leaf_count : ℕ
  pub source : String
  pub recomputed_root : String
  pub onchain_root : String
  pub status : String
  pub detail : String

-- An event of the pool: a deposit that can be read, or any other.
pub data Event : Type 0 where
  other : Event
  deposit : DepositLeaf → Event

-- A page of events, and whether a cursor to the next one came with it.
pub record Page : Type 0 where
  pub events : List Event
  pub more : Bool

-- The pages from one start on; where they end, a request fails. A start that the server refuses has
-- no page.
abbrev pub Window : Type 0
Window = List Page

-- `byIndex.set`: a leaf replaces the one of its index.
unfoldable pub set_leaf : DepositLeaf → List DepositLeaf → List DepositLeaf
set_leaf d [] = d ∷ []
set_leaf d (e ∷ leaves) =
    if nat_eq e.leaf_index d.leaf_index then d ∷ leaves else e ∷ set_leaf d leaves

unfoldable pub read_events : List Event → List DepositLeaf × ℕ → List DepositLeaf × ℕ
unfolding set_leaf
read_events [] acc = acc
read_events (other ∷ events) acc = read_events events acc
read_events (deposit d ∷ events) acc = read_events events (set_leaf d acc.0, suc acc.1)

abbrev is_nil : {A : Type 0} → List A → Bool
is_nil [] = true
is_nil (x ∷ xs) = false

-- At most `left` pages. Whether the window was read to its end comes last: a request that fails is
-- caught, and keeps the leaves.
unfoldable pub read_pages : ℕ → Window → List DepositLeaf × ℕ → List DepositLeaf × ℕ × Bool
unfolding read_events
read_pages zero pages acc = (acc.0, acc.1, true)
read_pages (suc left) [] acc = (acc.0, acc.1, false)
read_pages (suc left) (p ∷ pages) acc =
    let read = read_events p.events acc in
    let rest = read_pages left pages read in
    if not p.more || is_nil p.events then (read.0, read.1, true) else rest

-- The windows by their lookback; the first one that is read to its end and has a deposit is the last.
unfoldable pub read_windows : List Window → List DepositLeaf → List DepositLeaf
unfolding read_pages
read_windows [] leaves = leaves
read_windows (w ∷ windows) leaves =
    let (found, got, done) = read_pages 50 w (leaves, 0) in
    let rest = read_windows windows found in if done && ltb 0 got then found else rest

-- `sort((a, b) => a.leafIndex - b.leafIndex)`, which is stable.
unfoldable pub insert_leaf : DepositLeaf → List DepositLeaf → List DepositLeaf
insert_leaf d [] = d ∷ []
insert_leaf d (e ∷ leaves) =
    if leb d.leaf_index e.leaf_index then d ∷ e ∷ leaves else e ∷ insert_leaf d leaves

unfoldable pub sort_leaves : List DepositLeaf → List DepositLeaf
unfolding insert_leaf
sort_leaves [] = []
sort_leaves (d ∷ leaves) = insert_leaf d (sort_leaves leaves)

unfoldable pub read_deposit_leaves : List Window → List DepositLeaf
unfolding read_windows sort_leaves
read_deposit_leaves windows = sort_leaves (read_windows windows [])

abbrev pub norm : String → String
norm h = lower (if starts_with h "0x" then h else "0x" ++ h)

abbrev pub last_leaf : List DepositLeaf → Option DepositLeaf
last_leaf [] = none
last_leaf (d ∷ []) = some d
last_leaf (d ∷ e ∷ leaves) = last_leaf (e ∷ leaves)

-- `compute_root` is what coinutils prints for a list of commitments, a number below 2 ^ 256.
module _ (compute_root : List String → Result ℕ) where
  unfoldable pub recompute_root : List String → Result String
  recompute_root [] = ok ("0x" ++ hex_digits 64 0)
  recompute_root (c ∷ commitments) =
      compute_root (c ∷ commitments) >>= λ root. ok ("0x" ++ hex_digits 64 root)

  -- The root over the last leaf alone.
  unfoldable pub latest_only : Option DepositLeaf → String → Result String
  unfolding recompute_root
  latest_only none cumulative = ok cumulative
  latest_only (some d) cumulative =
      recompute_root (d.commitment_decimal ∷ []) >>= λ root. ok (norm root)

  abbrev pub commitments : List DepositLeaf → List String
  commitments leaves = map (λ (d : DepositLeaf). d.commitment_decimal) leaves

  abbrev pub convention : String → String → String → String
  convention onchain cumulative latest =
      if onchain == cumulative
      then "cumulative"
      else if onchain == latest
      then "per-deposit (latest leaf)"
      else "none"

  unfoldable pub verdict :
      String → List DepositLeaf → String → String → String → String → AuditResult
  verdict pool ordered source onchain cumulative latest =
      let match = onchain == cumulative || onchain == latest in
      record {
        pool_contract = pool;
        leaf_count = length ordered;
        source = source;
        recomputed_root = cumulative;
        onchain_root = onchain;
        status = if match then "OK" else "ROOT_MISMATCH_CRITICAL";
        detail =
            if match
            then joined (
                "on-chain root matches recomputed root ("
                ∷ convention onchain cumulative latest
                ∷ ") over "
                ∷ printed (length ordered)
                ∷ " leaf/leaves"
                ∷ [])
            else joined (
                "on-chain root "
                ∷ onchain
                ∷ " matches neither cumulative ("
                ∷ cumulative
                ∷ ") nor latest-leaf ("
                ∷ latest
                ∷ ") recomputation over "
                ∷ printed (length ordered)
                ∷ " leaves"
                ∷ []);
      }

  unfoldable pub compare_roots : String → List DepositLeaf → String → String → Result AuditResult
  unfolding sort_leaves latest_only verdict
  compare_roots pool leaves onchain_root source =
      let ordered = sort_leaves leaves in
      do
        root ← recompute_root (commitments ordered)
        let cumulative = norm root
        latest ← latest_only (last_leaf ordered) cumulative
        ok (verdict pool ordered source (norm onchain_root) cumulative latest)
