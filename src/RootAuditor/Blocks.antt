-- ===== src/RootAuditor/Blocks.antt =====
-- What a mismatch does to the spends of the API.
use shade.Shared.{◌≡◌, false}
use shade.RootAuditor.Run.{Audit, is_unset}

-- Whether a pass stores what it finds.
abbrev Stores : Audit → Type 0
Stores a = is_unset a.env.database_url ≡ false
