-- ===== src/Model/Value/Bytes.antt =====
-- `Value::to_bytes` of src/model/value.rs.
pub mod Injective
use incubator_horaedb_client.Prelude.{ℕ, Bool, List, [], ◌∷◌}
use incubator_horaedb_client.Prelude.Int.{as_unsigned, le_bytes}
use incubator_horaedb_client.Model.Value.{Value}
use incubator_horaedb_client.Model.Value.Value.{
  null, timestamp, double, float, varbinary, string, uint64, uint32, uint16, uint8, int64, int32,
  int16, int8, boolean,
}
use incubator_horaedb_client.Model.Value.Cast.{bit}

unfoldable pub to_bytes : Value → List ℕ
unfolding as_unsigned le_bytes
to_bytes null = []
to_bytes (timestamp v) = le_bytes 8 (as_unsigned 64 v)
to_bytes (double v) = le_bytes 8 v
to_bytes (float v) = le_bytes 4 v
to_bytes (varbinary v) = v
to_bytes (string v) = v
to_bytes (uint64 v) = le_bytes 8 v
to_bytes (uint32 v) = le_bytes 4 v
to_bytes (uint16 v) = le_bytes 2 v
to_bytes (uint8 v) = le_bytes 1 v
to_bytes (int64 v) = le_bytes 8 (as_unsigned 64 v)
to_bytes (int32 v) = le_bytes 4 (as_unsigned 32 v)
to_bytes (int16 v) = le_bytes 2 (as_unsigned 16 v)
to_bytes (int8 v) = le_bytes 1 (as_unsigned 8 v)
to_bytes (boolean v) = le_bytes 1 (bit v)
