-- ===== src/Prover/Leftover.antt =====
-- What a finished job of the withdrawal circuit leaves in the scratch directory.
use shade.Shared.{String, ◌≡◌, some}
use shade.Shared.Maps.{get}
use shade.Proving.{Input, secret_input, Files, Tools, file}
use shade.Prover.{World}

module _ (tools : Tools) (scratch tag : String) where
  abbrev input_file : String
  input_file = file scratch tag "_input.json"

  -- The file with the opening of the note is there.
  abbrev pub HasOpening : Files → Type 0
  HasOpening files = (input : Input) × (get input_file files ≡ some (secret_input input))

  abbrev Has : Input → Files → Type 0
  Has input files = get input_file files ≡ some (secret_input input)

  abbrev Leaves : {A : Type 0} → A → Files → Type 0
  Leaves a files = HasOpening files

  abbrev LeavesIn : {A : Type 0} → A → World → Type 0
  LeavesIn a w = HasOpening w.files

  abbrev HasIn : World → Type 0
  HasIn w = HasOpening w.files
