-- ===== src/Mpc/Matching.antt =====
-- apps/mpc-committee/src/coordinator.ts: `matchIntents`, the netting of complementary intents.
-- `Array.prototype.sort` with the source's comparator (which never returns 0) is a parameter.
mod AssetKey
mod Defs
pub mod Disjoint
pub mod Sound
pub mod Tests
pub use AssetKey.{has_bar, split_key-pair_key}
pub use Defs.{Intent, MatchResult, AmountSort, netted}
unfoldable pub use AssetKey.{pair_key, split_key}
unfoldable pub use Defs.{pair_up, group_by_pair, match_groups, match_intents}
