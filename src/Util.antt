-- ===== src/Util.antt =====
-- src/util.rs: the status codes of the server, and when a cached route is to be refreshed.
use incubator_horaedb_client.Prelude.{ℕ, Bool, ◌&&◌, ◌==◌, Text, text, contains}

pub data StatusCode : Type 0 where
  ok invalid_argument not_found too_many_requests internal_error : StatusCode

unfoldable pub as_u32 : StatusCode → ℕ
as_u32 ok = 200
as_u32 invalid_argument = 400
as_u32 not_found = 404
as_u32 too_many_requests = 429
as_u32 internal_error = 500

unfoldable pub is_ok : ℕ → Bool
unfolding as_u32
is_ok code = code == as_u32 ok

unfoldable pub should_refresh : ℕ → Text → Bool
unfolding as_u32 contains
should_refresh code msg =
    (code == as_u32 invalid_argument)
    && contains msg (text "Table")
    && contains msg (text "not found")
