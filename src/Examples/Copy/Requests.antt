-- ===== src/Examples/Copy/Requests.antt =====
-- Examples for a request of the kept copy, in memory.
use bxp_core.Schema.Action
use bxp_core.Schema.Request.Builder
use bxp_core.Schema.Request.Reader
