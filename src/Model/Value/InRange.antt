-- ===== src/Model/Value/InRange.antt =====
-- What the Rust types of a `Value` can hold, and the integer that a value stands for.
use incubator_horaedb_client.Prelude.{◌^◌, ◌<◌, true, false, Option, some, none, All}
use incubator_horaedb_client.Prelude.Int.{ℤ, pos, FitsSigned}
use incubator_horaedb_client.Model.Value.{Value}
use incubator_horaedb_client.Model.Value.Value.{
  timestamp, double, float, varbinary, string, uint64, uint32, uint16, uint8, int64, int32, int16,
  int8, boolean,
}

abbrev pub InRange : Value → Type 0
InRange (timestamp v) = FitsSigned 64 v
InRange (double v) = v < 2 ^ 64
InRange (float v) = v < 2 ^ 32
InRange (varbinary v) = All (λ b. b < 256) v
InRange (string v) = All (λ b. b < 256) v
InRange (uint64 v) = v < 2 ^ 64
InRange (uint32 v) = v < 2 ^ 32
InRange (uint16 v) = v < 2 ^ 16
InRange (uint8 v) = v < 2 ^ 8
InRange (int64 v) = FitsSigned 64 v
InRange (int32 v) = FitsSigned 32 v
InRange (int16 v) = FitsSigned 16 v
InRange (int8 v) = FitsSigned 8 v
InRange _ = Unit

-- Rust's reading of a Boolean or an integer as a mathematical integer.
abbrev pub integer_value : Value → Option ℤ
integer_value (boolean true) = some (pos 1)
integer_value (boolean false) = some (pos 0)
integer_value (uint64 v) = some (pos v)
integer_value (uint32 v) = some (pos v)
integer_value (uint16 v) = some (pos v)
integer_value (uint8 v) = some (pos v)
integer_value (int64 v) = some v
integer_value (int32 v) = some v
integer_value (int16 v) = some v
integer_value (int8 v) = some v
integer_value _ = none
