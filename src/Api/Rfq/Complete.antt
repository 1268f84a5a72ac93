-- ===== src/Api/Rfq/Complete.antt =====
-- When a settlement of an RFQ goes through, and when it cannot.
use shade.Api.Rfq.Tables.{Tables}
use shade.Api.Rfq.Allows.{Allows}
