-- ===== src/Model/Value/Proto.antt =====
-- The conversions of src/model/value.rs to and from the protobuf `Value`.
pub mod RoundTrip
use incubator_horaedb_client.Prelude.{ℕ, ◌%◌, ◌^◌, Bool, Option, some, none, List, Text}
use incubator_horaedb_client.Prelude.Int.{ℤ, wrap_signed}
use incubator_horaedb_client.Model.Value.{Value}
use incubator_horaedb_client.Model.Value.Value.{
  null, timestamp, double, float, varbinary, string, uint64, uint32, uint16, uint8, int64, int32,
  int16, int8, boolean,
}

-- `storage::value::Value`; the narrow integers travel as 32-bit ones.
pub data ProtoValue : Type 0 where
  float64_value float32_value : ℕ → ProtoValue
  string_value : Text → ProtoValue
  int64_value int32_value int16_value int8_value : ℤ → ProtoValue
  bool_value : Bool → ProtoValue
  uint64_value uint32_value uint16_value uint8_value : ℕ → ProtoValue
  timestamp_value : ℤ → ProtoValue
  varbinary_value : List ℕ → ProtoValue

-- `storage::Value`.
pub record ValuePb : Type 0 where
  pub value : Option ProtoValue

abbrev proto_value : Value → Option ProtoValue
proto_value null = none
proto_value (timestamp v) = some (timestamp_value v)
proto_value (double v) = some (float64_value v)
proto_value (float v) = some (float32_value v)
proto_value (varbinary v) = some (varbinary_value v)
proto_value (string v) = some (string_value v)
proto_value (uint64 v) = some (uint64_value v)
proto_value (uint32 v) = some (uint32_value v)
proto_value (uint16 v) = some (uint16_value v)
proto_value (uint8 v) = some (uint8_value v)
proto_value (int64 v) = some (int64_value v)
proto_value (int32 v) = some (int32_value v)
proto_value (int16 v) = some (int16_value v)
proto_value (int8 v) = some (int8_value v)
proto_value (boolean v) = some (bool_value v)

-- `From<Value> for ValuePb`.
unfoldable pub to_pb : Value → ValuePb
to_pb v = record { value = proto_value v }

abbrev from_proto_value : ProtoValue → Value
from_proto_value (float64_value v) = double v
from_proto_value (string_value v) = string v
from_proto_value (int64_value v) = int64 v
from_proto_value (float32_value v) = float v
from_proto_value (int32_value v) = int32 v
from_proto_value (int16_value v) = int16 (wrap_signed 16 v)
from_proto_value (int8_value v) = int8 (wrap_signed 8 v)
from_proto_value (bool_value v) = boolean v
from_proto_value (uint64_value v) = uint64 v
from_proto_value (uint32_value v) = uint32 v
from_proto_value (uint16_value v) = uint16 (v % 2 ^ 16)
from_proto_value (uint8_value v) = uint8 (v % 2 ^ 8)
from_proto_value (timestamp_value v) = timestamp v
from_proto_value (varbinary_value v) = varbinary v

-- `From<ValuePb> for Value`.
unfoldable pub from_pb : ValuePb → Value
unfolding wrap_signed
from_pb pb = elim pb.value [ none ↦ null | some v ↦ from_proto_value v ]
