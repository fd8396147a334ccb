-- ===== src/Api/ByWallet.antt =====
-- What `recomputeEpoch` of clients/api/src/points.ts leaves of every wallet in the ledger.
use Prim.Native.String.{String}
