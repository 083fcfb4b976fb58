-- ===== src/Config.antt =====
-- src/config.rs: the settings of the gRPC client and their defaults.
use incubator_horaedb_client.Prelude.{ℕ, ◌*◌, ◌^◌, Bool, true, Option, none, Text}
use incubator_horaedb_client.Prelude.Int.{ℤ, pos}

-- A `Duration` is its number of nanoseconds.
abbrev pub Duration : Type 0
Duration = ℕ

abbrev pub from_secs : ℕ → Duration
from_secs n = n * 10 ^ 9

pub record RpcConfig : Type 0 where
  pub thread_num : Option ℕ
  pub max_send_msg_len : ℤ
  pub max_recv_msg_len : ℤ
  pub keep_alive_interval : Duration
  pub keep_alive_timeout : Duration
  pub keep_alive_while_idle : Bool
  pub default_write_timeout : Duration
  pub default_sql_query_timeout : Duration
  pub connect_timeout : Duration

pub record Authorization : Type 0 where
  pub username : Text
  pub password : Text

abbrev pub default_config : RpcConfig
default_config = record {
  thread_num = none;
  max_send_msg_len = pos (20 * 2 ^ 20);
  max_recv_msg_len = pos (2 ^ 30);
  keep_alive_interval = from_secs (60 * 10);
  keep_alive_timeout = from_secs 3;
  keep_alive_while_idle = true;
  default_write_timeout = from_secs 5;
  default_sql_query_timeout = from_secs 60;
  connect_timeout = from_secs 3;
}
