-- ===== src/RootAuditor/Run.antt =====
-- apps/root-auditor/src/run.ts: one pass of the audit, and what it stores. The leaves of the database,
-- the pages of events and the answer of the pool's contract are arguments.
use Prim.Native.String.{◌++◌}
use text.Mathlib.Text.{starts_with}
use shade.Shared.{
  ℕ, suc, String, Bool, true, not, ◌||◌, List, [], ◌∷◌, Option, none, some, ◌==◌, if◌then◌else◌,
}
use shade.Shared.Texts.{strip_hex, parse_hex, printed}
use shade.Shared.Results.{Result, ok, err, running, ◌>>=◌, ◌>>◌, guard, or_throw}
use shade.RootAuditor.{
  DepositLeaf, AuditResult, Window, read_deposit_leaves, sort_leaves, compare_roots,
}

pub record EnvMap : Type 0 where
  pub shielded_pool_contract : Option String
  pub stellar_relayer_secret : Option String
  pub database_url : Option String

-- A row of the table note_commitments, with the columns that are read.
pub record NoteRow : Type 0 where
  pub commitment : String
  pub leaf_index : Option ℕ

pub record RunRow : Type 0 where
  pub run_id : String
  pub status : String
  pub recomputed_root : String
  pub onchain_root : String

pub record Finding : Type 0 where
  pub run_id : String
  pub code : String
  pub detail : String

pub record AuditTables : Type 0 where
  pub root_audit_runs : List RunRow
  pub root_audit_findings : List Finding

-- `!env[k]`
abbrev pub is_unset : Option String → Bool
is_unset none = true
is_unset (some v) = v == ""

abbrev pub value : Option String → String
value none = ""
value (some v) = v

unfoldable pub with_prefix : String → String
with_prefix h = if starts_with h "0x" then h else "0x" ++ h

-- A commitment that is no hexadecimal number makes `BigInt` throw.
unfoldable pub db_leaf : String → ℕ → Result DepositLeaf
unfolding with_prefix
db_leaf commitment leaf_index = do
  n ← or_throw (parse_hex (strip_hex commitment)) "Cannot convert to a BigInt"
  ok (record {
    leaf_index = leaf_index;
    commitment_decimal = printed n;
    commitment_hex = with_prefix commitment;
  })

-- The rows with an index, in the order of the table; they are sorted next.
unfoldable pub db_leaves : List NoteRow → Result (List DepositLeaf)
unfolding db_leaf
db_leaves [] = ok []
db_leaves (r ∷ rows) =
    let rest = db_leaves rows in
    elim r.leaf_index [
      | none ↦ rest
      | some i ↦ db_leaf r.commitment i >>= λ d. rest >>= λ leaves. ok (d ∷ leaves)
    ]

unfoldable pub read_leaves_from_db : List NoteRow → Result (List DepositLeaf)
unfolding db_leaves sort_leaves
read_leaves_from_db rows = db_leaves rows >>= λ leaves. ok (sort_leaves leaves)

-- What a pass finds outside: the pages of events by lookback, the rows of the database, and what
-- `get_root` answers.
pub record Audit : Type 0 where
  pub env : EnvMap
  pub windows : List Window
  pub rows : List NoteRow
  pub onchain : Result String
  pub run_id : String

-- The events' leaves, or the database's where the events give none.
unfoldable pub leaves_of : Audit → Result (List DepositLeaf × String)
unfolding read_leaves_from_db read_deposit_leaves
leaves_of a = elim (read_deposit_leaves a.windows) [
  | d ∷ leaves ↦ ok (d ∷ leaves, "events")
  | [] ↦
      if is_unset a.env.database_url
      then ok ([], "events")
      else (read_leaves_from_db a.rows >>= λ leaves. ok (leaves, "db"))
]

module _ (compute_root : List String → Result ℕ) where
  unfoldable pub audit_result : Audit → Result AuditResult
  unfolding leaves_of with_prefix
  audit_result a = do
    guard (not (is_unset a.env.shielded_pool_contract || is_unset a.env.stellar_relayer_secret))
        "root-auditor missing env"
    (leaves, source) ← leaves_of a
    raw ← a.onchain
    compare_roots compute_root (value a.env.shielded_pool_contract) leaves (with_prefix raw) source

  abbrev pub run_row : String → AuditResult → RunRow
  run_row run_id r = record {
    run_id = run_id;
    status = r.status;
    recomputed_root = r.recomputed_root;
    onchain_root = r.onchain_root;
  }

  unfoldable pub persist : Audit → AuditResult → AuditTables → AuditTables
  persist a r t = if is_unset a.env.database_url then t else record {
    root_audit_runs = run_row a.run_id r ∷ t.root_audit_runs;
    root_audit_findings =
        if r.status == "OK"
        then t.root_audit_findings
        else record { run_id = a.run_id; code = "ROOT_MISMATCH_CRITICAL"; detail = r.detail }
          ∷ t.root_audit_findings;
  }

  abbrev pub persisted : Audit → Result AuditResult → AuditTables → AuditTables
  persisted a (ok r) t = persist a r t
  persisted a (err e) t = t
  persisted a running t = t

  unfoldable pub run_audit : Audit → AuditTables → Result AuditResult × AuditTables
  unfolding persist audit_result
  run_audit a t = (audit_result a, persisted a (audit_result a) t)

  -- Passes one after another.
  unfoldable pub run_audits : List Audit → AuditTables → AuditTables
  unfolding run_audit
  run_audits [] t = t
  run_audits (a ∷ audits) t = run_audits audits (run_audit a t).1

-- `criticalRootMismatchCount` of the API, where the query does not fail.
unfoldable pub count_critical : List Finding → ℕ
count_critical [] = 0
count_critical (f ∷ findings) =
    let rest = count_critical findings in
    if f.code == "ROOT_MISMATCH_CRITICAL" then suc rest else rest

unfoldable pub critical_root_mismatch_count : AuditTables → ℕ
unfolding count_critical
critical_root_mismatch_count t = count_critical t.root_audit_findings
