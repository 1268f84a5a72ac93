-- ===== src/RootAuditor/Tests.antt =====
-- Audits of two leaves: a root that agrees, and one that does not.
use Prim.Native.String.{◌++◌}
use mathlib.Core.List.{Nodup-cons, Nodup-nil, not-mem-nil, mem-cons}
use mathlib.Core.Logic.Or
use shade.Shared.{
  true, false, ℕ, String, ◌≡◌, refl, List, [], ◌∷◌, some, Nodup, Mem, arith, ◌*◌, length,
}
use shade.Shared.Results.{Result, ok}
use shade.Api.Spend.{Spends}
use shade.RootAuditor.{DepositLeaf, deposit, other, AuditResult, read_deposit_leaves}
use shade.RootAuditor.Run.{Audit, AuditTables, run_audits, critical_root_mismatch_count}
use shade.RootAuditor.Order.{indexes}

abbrev leaf : ℕ → String → DepositLeaf
leaf i c = record { leaf_index = i; commitment_decimal = c; commitment_hex = c }

-- A stand-in for coinutils.
abbrev compute_root : List String → Result ℕ
compute_root cs = ok (length cs * 17)

abbrev two : List DepositLeaf
two = leaf 1 "b" ∷ leaf 0 "a" ∷ []

abbrev two_in_order : List DepositLeaf
two_in_order = leaf 0 "a" ∷ leaf 1 "b" ∷ []

abbrev root_of_two : String
root_of_two = "0000000000000000000000000000000000000000000000000000000000000022"

abbrev passed : AuditResult
passed = record {
  pool_contract = "C";
  leaf_count = 2;
  source = "events";
  recomputed_root = "0x0000000000000000000000000000000000000000000000000000000000000022";
  onchain_root = "0x0000000000000000000000000000000000000000000000000000000000000022";
  status = "OK";
  detail = "on-chain root matches recomputed root (cumulative) over 2 leaf/leaves";
}

one_absent : ¬ (Mem {A = ℕ} 1 (0 ∷ []))
one_absent m = Or.elim (λ a b. absurd a) (mem-cons.0 m) (λ e. omega arith) not-mem-nil

two-Nodup : Nodup (indexes two)
two-Nodup = Nodup-cons.1 (λ m. one_absent m, Nodup-cons.1 (not-mem-nil, Nodup-nil))

-- A window that fails after its first page keeps that page's leaves, and the next one replaces them.
windows_test :
    read_deposit_leaves (
      (record { events = deposit (leaf 1 "x") ∷ other ∷ []; more = true } ∷ [])
      ∷ (record { events = deposit (leaf 1 "b") ∷ deposit (leaf 0 "a") ∷ []; more = false } ∷ [])
      ∷ [])
    ≡ two_in_order
unfolding read_deposit_leaves
windows_test = refl

abbrev audit_of : String → Audit
audit_of root = record {
  env = record {
    shielded_pool_contract = some "C";
    stellar_relayer_secret = some "S";
    database_url = some "postgres";
  };
  windows =
      (record { events = deposit (leaf 1 "b") ∷ deposit (leaf 0 "a") ∷ []; more = false } ∷ [])
      ∷ [];
  rows = [];
  onchain = ok root;
  run_id = "run";
}

abbrev forged : AuditResult
forged = record passed {
  onchain_root = "0xff";
  status = "ROOT_MISMATCH_CRITICAL";
  detail =
      "on-chain root 0xff matches neither cumulative (0x0000000000000000000000000000000000000000000000000000000000000022) nor latest-leaf (0x0000000000000000000000000000000000000000000000000000000000000011) recomputation over 2 leaves";
}

abbrev none_yet : AuditTables
none_yet = record { root_audit_runs = []; root_audit_findings = [] }

abbrev spends : Spends String
spends = record {
  withdrawals = [];
  exits = [];
  tables = record { jobs = []; events = [] };
  transitions = [];
  activity = [];
  critical_findings =
      critical_root_mismatch_count
        (run_audits compute_root (audit_of "ff" ∷ audit_of root_of_two ∷ []) none_yet);
}

abbrev id_of : String → String → String → String
id_of a b c = a ++ b ++ c
