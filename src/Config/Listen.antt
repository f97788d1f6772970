-- ===== src/Config/Listen.antt =====
-- MTDD_LISTEN in src/config.cpp: parsing the listen target, and printing it for gRPC and the log.
pub mod RoundTrip
use mtdd_server.Base.{
  ℕ, suc, Bytes, codes, Bool, true, false, not, ◌||◌, ◌&&◌, Option, none, some, [], ◌∷◌, ◌++◌, ◌==◌,
  if◌then◌else◌, ◌≡◌, refl, starts_with, rfind, take, drop, is_empty,
}
use mtdd_server.Base.Int.{ℤ, pos, negsuc}
use mtdd_server.Base.Decimal.{to_string, to_string_ℤ}
use mtdd_server.Base.Results.{Result, ok, throw, throw_if, ◌>>=◌, ◌>>◌}
use mtdd_server.Config.{ServerConfig, unix, tcp, ListenMode}
use mtdd_server.Config.Parse.{set_value, parse_positive_int}

-- The loop: a slash goes as long as another one stands behind it.
unfoldable pub strip_slashes : Bytes → Bytes
strip_slashes [] = []
strip_slashes (a ∷ []) = a ∷ []
strip_slashes (a ∷ b ∷ s) =
    let rest = strip_slashes (b ∷ s) in if a == b'/' && b == b'/' then rest else a ∷ b ∷ s

-- path[0] == '/'
abbrev is_absolute : Bytes → Bool
is_absolute [] = false
is_absolute (c ∷ s) = c == b'/'

unfoldable pub normalize_unix_path : Bytes → Result Bytes
unfolding strip_slashes
normalize_unix_path path = do
  throw_if (is_empty path) (codes "MTDD_LISTEN unix path must not be empty")
  let stripped = strip_slashes path
  throw_if (not (is_absolute stripped)) (codes "MTDD_LISTEN unix path must be absolute")
  ok stripped

-- `listen` behind the test for `unix:`, cut at its last colon.
unfoldable pub parse_host_port : Bytes → Option ℕ → ServerConfig → Result ServerConfig
parse_host_port listen none config = throw (codes "MTDD_LISTEN must be unix:/path or host:port")
parse_host_port listen (some colon) config = do
  port ←
      parse_positive_int (codes "MTDD_LISTEN port") (some (drop (suc colon) listen))
        config.listen_port
  ok (record config { listen_mode = tcp; listen_address = take colon listen; listen_port = port })

unfoldable pub parse_listen : Option Bytes → ServerConfig → Result ServerConfig
parse_listen value config = elim (set_value value) [
  | none ↦ ok (record config { listen_mode = unix; unix_socket_path = codes "/run/mtdd/grpc.sock" })
  | some listen ↦
      if starts_with (codes "unix:") listen
      then (do
        path ← normalize_unix_path (drop 5 listen)
        ok (record config { listen_mode = unix; unix_socket_path = path }))
      else parse_host_port listen (rfind b':' listen) config
]

abbrev listen_text : ListenMode → ServerConfig → Bytes
listen_text unix config = codes "unix:" ++ config.unix_socket_path
listen_text tcp config = config.listen_address ++ b':' ∷ to_string_ℤ config.listen_port

unfoldable pub format_listen_target : ServerConfig → Bytes
format_listen_target config = listen_text config.listen_mode config

-- FormatListenLogLabel has the body of FormatListenTarget.
unfoldable pub format_listen_log_label : ServerConfig → Bytes
format_listen_log_label config = listen_text config.listen_mode config
