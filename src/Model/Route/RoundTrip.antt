-- ===== src/Model/Route/RoundTrip.antt =====
-- Printing and parsing of endpoints are inverse where the port is a TCP port.
use incubator_horaedb_client.Prelude.{
  ℕ, ◌≤◌, ◌≡◌, ◌≢◌, ◌∙◌, refl, ap, inl, inr, Option, some, none, [], ◌∷◌, ◌++◌, Text, All, arith,
  Option-cases,
}
use incubator_horaedb_client.Prelude.Decimal.{show_u32, Parsed, parsed, rejected, parse_u32}
use incubator_horaedb_client.Prelude.Decimal.RoundTrip.{show_u32-IsDigit, parse-show_u32, IsDigit}
use incubator_horaedb_client.Model.Route.{
  Endpoint, to_string, rsplit_once, endpoint, from_parts, with_port, from_str,
}

module _ (c : ℕ) where
  rsplit_once-none : (s : Text) → All (λ d. d ≢ c) s → rsplit_once c s ≡ none
  unfolding rsplit_once
  rsplit_once-none [] h = refl
  rsplit_once-none (d ∷ s) (ne, h) = ground (arith, rsplit_once-none s h)

  rsplit_once-append : (a s : Text) → All (λ d. d ≢ c) s → rsplit_once c (a ++ c ∷ s) ≡ some (a, s)
  unfolding rsplit_once
  rsplit_once-append [] s h = ground (arith, rsplit_once-none s h)
  rsplit_once-append (d ∷ a) s h = ground (arith, rsplit_once-append a s h)

  rsplit_once_absent : (s : Text) → rsplit_once c s ≡ none → All (λ d. d ≢ c) s
  unfolding rsplit_once
  rsplit_once_absent [] h = tt
  rsplit_once_absent (d ∷ s) h = elim (Option-cases (rsplit_once c s)) [
    | inl last ↦ (ground (arith, last), rsplit_once_absent s last)
    | inr ((a', b'), found) ↦ absurd (ground (arith, found))
  ]

  rsplit_once_sound :
      (s : Text) {a b : Text}
      → rsplit_once c s ≡ some (a, b)
      → (s ≡ a ++ c ∷ b) × All (λ d. d ≢ c) b
  unfolding rsplit_once
  rsplit_once_sound [] h = cc
  rsplit_once_sound (d ∷ s) h = elim (Option-cases (rsplit_once c s)) [
    | inl last ↦ ground (arith, last, rsplit_once_absent s last)
    | inr ((a', b'), found) ↦ ground (arith, found, rsplit_once_sound s found)
  ]

no_colon : (s : Text) → All IsDigit s → All (λ d. d ≢ b':') s
no_colon [] h = tt
no_colon (d ∷ s) (p, h) = (omega arith, no_colon s h)

from_parts_printed :
    (e : Endpoint)
    → e.addr ≢ []
    → e.port ≤ 65535
    → from_parts (some (e.addr, show_u32 e.port)) ≡ endpoint e
from_parts_printed e ne h = ground (arith, parse-show_u32 e.port (omega arith))

-- Parsing what was printed gives the endpoint back, if its address is not empty and its port is at
-- most 65535. The address may itself hold colons.
pub from_str-to_string :
    (e : Endpoint) → e.addr ≢ [] → e.port ≤ 65535 → from_str (to_string e) ≡ endpoint e
unfolding from_str to_string
from_str-to_string e ne h =
    ap from_parts
      (rsplit_once-append b':' e.addr (show_u32 e.port) (no_colon _ (show_u32-IsDigit e.port)))
    ∙ from_parts_printed e ne h

with_port_sound :
    (a raw : Text) (p : Parsed) (e : Endpoint)
    → with_port a raw p ≡ endpoint e
    → (a ≡ e.addr) × (p ≡ parsed e.port) × (e.port ≤ 65535)
with_port_sound a raw (rejected x) e h = cc
with_port_sound a raw (parsed port) e h = ground arith

from_parts_sound :
    (o : Option (Text × Text)) (e : Endpoint)
    → from_parts o ≡ endpoint e
    → (raw : Text) × (o ≡ some (e.addr, raw))
      × (parse_u32 raw ≡ parsed e.port)
      × (e.addr ≢ [])
      × (e.port ≤ 65535)
from_parts_sound none e h = cc
from_parts_sound (some ([], raw)) e h = cc
from_parts_sound (some (c ∷ a, raw)) e h =
    let (same, port, small) = with_port_sound (c ∷ a) raw (parse_u32 raw) e h in
    (raw, ap (λ x. some (x, raw)) same, port, rw (← same) (λ nil. cc), small)

-- A text that parses is an address that is not empty, a colon and a u32 of at most 65535, which is
-- the port; the colon is the last one of the text.
pub from_str_sound :
    (s : Text) (e : Endpoint)
    → from_str s ≡ endpoint e
    → (raw_port : Text) × (s ≡ e.addr ++ b':' ∷ raw_port)
      × All (λ d. d ≢ b':') raw_port
      × (parse_u32 raw_port ≡ parsed e.port)
      × (e.addr ≢ [])
      × (e.port ≤ 65535)
unfolding from_str
from_str_sound s e h =
    let (raw, split, port, ne, small) = from_parts_sound (rsplit_once b':' s) e h in
    let (whole, clean) = rsplit_once_sound b':' s split in (raw, whole, clean, port, ne, small)
