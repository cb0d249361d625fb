-- ===== src/Meter/Samples.antt =====
-- internal/lpmeter/snapshot.go: SampleBytes, which is written as a JSON array of numbers.
pub mod Json
use lp_700_server.Prelude.{ℕ, List, [], ◌∷◌, ◌++◌, Option, none, some, codes}
use lp_700_server.Prelude.Decimal.{print_decimal}
use lp_700_server.Meter.Snapshot.{Bytes}

-- The loop, after the first byte.
append_rest : Bytes → Bytes
append_rest [] = []
append_rest (b ∷ bs) = b',' ∷ (print_decimal b ++ append_rest bs)

append_all : Bytes → Bytes
unfolding append_rest
append_all [] = []
append_all (b ∷ bs) = print_decimal b ++ append_rest bs

-- `none` is a nil slice.
unfoldable pub marshal_json : Option Bytes → Bytes
unfolding append_all append_rest
marshal_json none = codes "null"
marshal_json (some s) = b'[' ∷ (append_all s ++ b']' ∷ [])
