-- ===== src/Model/Value/Proto/RoundTrip.antt =====
-- A value that is sent to the server and read back is the same value.
use incubator_horaedb_client.Prelude.{◌≡◌, refl, ap, arith}
use incubator_horaedb_client.Prelude.Int.Words.{wrap_signed-8_fits, wrap_signed-16_fits}
use incubator_horaedb_client.Model.Value.{Value}
use incubator_horaedb_client.Model.Value.Value.{uint16, uint8, int16, int8}
use incubator_horaedb_client.Model.Value.InRange.{InRange}
use incubator_horaedb_client.Model.Value.Proto.{to_pb, from_pb}

-- Decoding an encoded value gives the value back, if its number is one that its Rust type holds.
pub from_pb-to_pb : (v : Value) → InRange v → from_pb (to_pb v) ≡ v
unfolding to_pb from_pb
from_pb-to_pb (int16 v) h = ap int16 (wrap_signed-16_fits v h)
from_pb-to_pb (int8 v) h = ap int8 (wrap_signed-8_fits v h)
from_pb-to_pb (uint16 v) h = ap uint16 (omega arith)
from_pb-to_pb (uint8 v) h = ap uint8 (omega arith)
from_pb-to_pb v h = refl
