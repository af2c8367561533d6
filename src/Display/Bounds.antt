-- ===== src/Display/Bounds.antt =====
-- The array `pairs[8]` of src/ui/validate_transaction_nbgl.c.
use app_exchange.Common.{◌≤◌, length, arith}
use app_exchange.Context.{Context}
use app_exchange.Platform.{Platform}
use app_exchange.Display.{prepare_pairs_list}

-- The pairs of a review are between four and eight, whatever the flow, the device and the warning:
-- the array of eight pairs is never left.
pub prepare_pairs_list_bounds :
    (p : Platform) (ctx : Context)
    → (4 ≤ length (prepare_pairs_list p ctx)) × (length (prepare_pairs_list p ctx) ≤ 8)
unfolding prepare_pairs_list
prepare_pairs_list_bounds p ctx = ground arith
