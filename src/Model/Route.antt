-- ===== src/Model/Route.antt =====
-- src/model/route.rs: the address of a server, printed and parsed as `addr:port`.
pub mod RoundTrip
use incubator_horaedb_client.Prelude.{
  ℕ, ◌-◌, ◌^◌, Bool, Option, some, none, [], ◌∷◌, ◌++◌, ◌==◌, ltb, if◌then◌else◌, Text, text,
  text_beq, is_empty, ◌≡◌, ◌↔◌, ◌&&◌, true, arith, text_beq_iff,
}
use incubator_horaedb_client.Prelude.Order.{Eq}
use incubator_horaedb_client.Prelude.Decimal.{
  show_u32, ParseIntError, parsed, rejected, Parsed, parse_u32,
}
use incubator_horaedb_client.Prelude.Decimal

pub record Endpoint : Type 0 where
  pub addr : Text
  pub port : ℕ

-- Derived `PartialEq` and `Hash`, as a key of maps.
unfoldable pub endpoint_beq : Endpoint → Endpoint → Bool
endpoint_beq a b = text_beq a.addr b.addr && (a.port == b.port)

pub endpoint_beq_iff : (a b : Endpoint) → (endpoint_beq a b ≡ true) ↔ (a ≡ b)
unfolding endpoint_beq
endpoint_beq_iff a b = (
  λ h. ground (arith, text_beq_iff a.addr b.addr),
  λ h. ground (arith, text_beq_iff a.addr b.addr),
)

instance abbrev pub endpoint_eq : Eq Endpoint
endpoint_eq = record { beq = endpoint_beq; beq_iff = endpoint_beq_iff }

-- `storage::Endpoint` of the protocol.
pub record EndpointPb : Type 0 where
  pub ip : Text
  pub port : ℕ

-- `Display for Endpoint`, and `to_string` through it.
unfoldable pub to_string : Endpoint → Text
to_string e = e.addr ++ b':' ∷ show_u32 e.port

-- `From<EndPointPb> for Endpoint`.
unfoldable pub from_pb : EndpointPb → Endpoint
from_pb pb = record { addr = pb.ip; port = pb.port }

-- `str::rsplit_once` at a character: what stands before and after its last occurrence.
unfoldable pub rsplit_once : ℕ → Text → Option (Text × Text)
rsplit_once c [] = none
rsplit_once c (d ∷ s) = elim (rsplit_once c s) [
  | some (a, b) ↦ some (d ∷ a, b)
  | none ↦ if d == c then some ([], s) else none
]

-- The text of a `ParseIntError`.
abbrev pub describe : ParseIntError → Text
describe ParseIntError.empty = text "cannot parse integer from empty string"
describe ParseIntError.invalid_digit = text "invalid digit found in string"
describe ParseIntError.pos_overflow = text "number too large to fit in target type"

-- The result of `from_str`; its error is a boxed text.
pub data FromStr : Type 0 where
  endpoint : Endpoint → FromStr
  failed : Text → FromStr

abbrev with_port : Text → Text → Parsed → FromStr
with_port addr raw_port (rejected e) =
    failed (text "Fail to parse port:" ++ raw_port ++ text ", err:" ++ describe e)
with_port addr raw_port (parsed port) =
    if ltb (2 ^ 16 - 1) port
    then failed (text "Too large port (<=65536)")
    else endpoint (record { addr = addr; port = port })

abbrev from_parts : Option (Text × Text) → FromStr
from_parts none = failed (text "Can't find ':' in the source string")
from_parts (some (addr, raw_port)) =
    if is_empty addr
    then failed (text "Empty addr in the source string")
    else with_port addr raw_port (parse_u32 raw_port)

-- `FromStr for Endpoint`.
unfoldable pub from_str : Text → FromStr
from_str s = from_parts (rsplit_once b':' s)
