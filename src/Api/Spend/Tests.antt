-- ===== src/Api/Spend/Tests.antt =====
-- Two users with an exit each, and a critical finding on the root.
use Prim.Native.String.{◌++◌}
use shade.Shared.{ℕ, String, ◌≡◌, refl, [], ◌∷◌, some, arith}
use shade.Shared.Maps.{Assoc, get}
use shade.Queue.{ServiceJob, find_by_key}
use shade.Api.Sql.{first}
use shade.Api.Vaults.{ok, error}
use shade.Api.Spend.{ExitRow, Spends, require_owned_exit, step_exit}
use shade.Api.Spend.Guard.{submit, handle, handle-blocked, step_key, step_exit-overrides}

abbrev exit_of : String → String → ExitRow
exit_of id user = record {
  exit_id = id;
  idempotency_key = id;
  nullifier = "n";
  destination_domain = 3;
  destination_recipient = "0x1";
  amount_usdc_7dp = 50;
  relayer_fee = 1;
  user_id = some user;
  state = "prepared";
}

abbrev spends : ℕ → Spends String
spends findings = record {
  withdrawals = [];
  exits = exit_of "e" "alice" ∷ exit_of "f" "bob" ∷ [];
  tables = record { jobs = []; events = [] };
  transitions = [];
  activity = [];
  critical_findings = findings;
}

abbrev id_of : String → String → String → String
id_of a b c = a ++ b ++ c

abbrev names : String → Assoc String
names exit_id = ("exit_id", exit_id) ∷ ("proof", "p") ∷ []

handle-blocked_example :
    handle id_of "j" 1 (submit (names "e")) (some "alice") (spends 1) ≡ (error 409, spends 1)
handle-blocked_example =
    handle-blocked id_of "j" 1 (submit (names "e")) "alice" (spends 1) (omega arith)

step_exit-overrides_example :
    let (reply, after) =
      step_exit id_of "j" 1 "CCTP_OUTBOUND_MINT" (some "alice") "e" (names "f") (spends 0) in
    (reply ≡ ok "j")
    × (job : ServiceJob (Assoc String) String) × (find_by_key (step_key "e") after.tables.jobs
        ≡ some job)
    × (job.job_type ≡ "CCTP_OUTBOUND_MINT")
    × (get "exit_id" job.payload ≡ some "f")
unfolding require_owned_exit first get find_by_key
step_exit-overrides_example =
    step_exit-overrides id_of "j" 1 "alice" "e" "f" (names "f") (spends 0) refl (refl, (refl, tt))
      refl refl
