-- ===== src/Settler/Tests.antt =====
-- A batch of one match that the settler takes and one that belongs to an RFQ intent.
use shade.Shared.{ℕ, String, ◌⊎◌, [], ◌∷◌, none, Mem, All}
use shade.Mpc.Matching.{match_intents}
use shade.Mpc.Matching.Tests.{by_insertion, offers}
use shade.Mpc.Batch.{SignedMatchBatch}
use shade.Settler.{MatchRow, BatchRow, IntentRow, Database, queue_settlement_jobs}
use shade.Settler.Routing.{ForMatch, queue_settlement_jobs-All}
use shade.Settler.Persist.{MpcTables, StatusRow}

abbrev pub crossing : String → String → MatchRow
crossing a b = record {
  intent_a_id = a;
  intent_b_id = b;
  matched_amount7dp = 50;
  input_asset = "USDC";
  output_asset = "XLM";
}

abbrev pub stored : BatchRow
stored = record {
  batch_id = "b";
  session_id = "s";
  batch_hash = "h";
  matches_json = crossing "i1" "i2" ∷ crossing "i3" "r1" ∷ [];
  signatures_json = [];
  settlement_status = "pending";
}

abbrev pub note : String → IntentRow
note id = record {
  intent_id = id;
  note_nullifier = "nf";
  note_commitment = "nc";
  recipient_commitment = "rc";
}

abbrev pub database : Database ℕ
database = record {
  batches = stored ∷ [];
  mpc_intents = note "i1" ∷ note "i2" ∷ note "i3" ∷ note "r1" ∷ [];
  intent_hashes = "r1" ∷ [];
  tables = record { jobs = []; events = [] };
}

queue_settlement_jobs-All_example :
    All
      (λ j.
        Mem j database.tables.jobs
        ⊎ ForMatch (λ key. key) 1 database.intent_hashes database.mpc_intents stored j)
      (queue_settlement_jobs (λ key. key) 1 stored database).tables.jobs
queue_settlement_jobs-All_example = queue_settlement_jobs-All (λ key. key) 1 stored database

abbrev row : String → StatusRow
row id = record { intent_id = id; status = "pending"; matched_with = none }

abbrev mpc_tables : MpcTables
mpc_tables = record {
  batches = [];
  signatures = [];
  sessions = [];
  intents = row "i2" ∷ row "i3" ∷ row "i9" ∷ [];
}

abbrev signed_batch : SignedMatchBatch
signed_batch = record {
  batch_id = "b";
  session_id = "s";
  matches = match_intents by_insertion offers;
  batch_hash = "h";
  signatures = [];
}
