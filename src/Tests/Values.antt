-- ===== src/Tests/Values.antt =====
-- Tests of src/model/value.rs and src/model/route.rs.
use incubator_horaedb_client.Prelude.{
  ◌≡◌, ◌≢◌, refl, some, [], ◌∷◌, ◌++◌, Text, text, ◌≤◌, All, arith,
}
use incubator_horaedb_client.Prelude.Int.{pos, negsuc}
use incubator_horaedb_client.Prelude.Decimal.{parsed, parse_u32}
use incubator_horaedb_client.Model.Value.Value.{int8, int16, uint8}
use incubator_horaedb_client.Model.Value.Cast.{
  as_i8, as_i16, as_i32, as_i64, as_u8, as_u16, as_u32, as_u64,
}
use incubator_horaedb_client.Model.Value.Cast.Widening.{
  IsExact, IsResidue, as_signed-IsExact, as_unsigned-IsResidue,
}
use incubator_horaedb_client.Model.Value.Bytes.Injective.{to_bytes-injective}
use incubator_horaedb_client.Model.Value.Proto.{to_pb, from_pb}
use incubator_horaedb_client.Model.Value.Proto.RoundTrip.{from_pb-to_pb}
use incubator_horaedb_client.Model.Route.{Endpoint, endpoint, to_string, from_str, rsplit_once}
use incubator_horaedb_client.Model.Route.RoundTrip.{from_str-to_string, from_str_sound}

from_pb-to_pb_example : from_pb (to_pb (int8 (negsuc 127))) ≡ int8 (negsuc 127)
from_pb-to_pb_example = from_pb-to_pb (int8 (negsuc 127)) (ground arith)

to_bytes-injective_example : int16 (pos 258) ≡ int16 (pos 258)
to_bytes-injective_example =
    to_bytes-injective (int16 (pos 258)) (int16 (pos 258)) refl (ground arith) (ground arith) refl

as_signed-IsExact_example :
    (as_i8 (uint8 200) ≡ some (pos 200) → IsExact 8 (uint8 200) (pos 200))
    × (as_i16 (uint8 200) ≡ some (pos 200) → IsExact 16 (uint8 200) (pos 200))
    × (as_i32 (uint8 200) ≡ some (pos 200) → IsExact 32 (uint8 200) (pos 200))
    × (as_i64 (uint8 200) ≡ some (pos 200) → IsExact 64 (uint8 200) (pos 200))
as_signed-IsExact_example = as_signed-IsExact (uint8 200) (pos 200) (omega arith)

as_unsigned-IsResidue_example :
    (as_u8 (int8 (negsuc 0)) ≡ some 255 → IsResidue 8 (int8 (negsuc 0)) 255)
    × (as_u16 (int8 (negsuc 0)) ≡ some 255 → IsResidue 16 (int8 (negsuc 0)) 255)
    × (as_u32 (int8 (negsuc 0)) ≡ some 255 → IsResidue 32 (int8 (negsuc 0)) 255)
    × (as_u64 (int8 (negsuc 0)) ≡ some 255 → IsResidue 64 (int8 (negsuc 0)) 255)
as_unsigned-IsResidue_example = as_unsigned-IsResidue (int8 (negsuc 0)) 255 (ground arith)

abbrev localhost : Endpoint
localhost = record { addr = text "127.0.0.1"; port = 8831 }

from_str-to_string_example : from_str (to_string localhost) ≡ endpoint localhost
from_str-to_string_example = from_str-to_string localhost (λ e. cc) (omega arith)

parses : from_str (text "127.0.0.1:8831") ≡ endpoint localhost
unfolding from_str rsplit_once parse_u32
parses = refl

from_str_sound_example :
    (raw_port : Text) × (text "127.0.0.1:8831" ≡ localhost.addr ++ b':' ∷ raw_port)
    × All (λ d. d ≢ b':') raw_port
    × (parse_u32 raw_port ≡ parsed 8831)
    × (localhost.addr ≢ [])
    × (8831 ≤ 65535)
from_str_sound_example = from_str_sound (text "127.0.0.1:8831") localhost parses
