-- ===== src/Config/Listen/RoundTrip.antt =====
-- The printed listen target, parsed again, gives back the mode, the path, the address and the port.
use mtdd_server.Base.{◌⊎◌, inl, inr, sym, ap, ◌∙◌}
use mtdd_server.Config.{ListenMode}
use mtdd_server.Base.{
  ℕ, suc, ◌^◌, ◌<◌, Bytes, codes, false, none, some, [], ◌∷◌, ◌++◌, ◌≡◌, ◌≢◌, refl, starts_with,
  rfind, drop, length, arith, take_of-append, All,
}
use mtdd_server.Base.Int.{pos}
use mtdd_server.Base.Decimal.{to_string}
use mtdd_server.Base.Decimal.RoundTrip.{IsDigit, to_string-IsDigit}
use mtdd_server.Base.Results.{ok}
use mtdd_server.Config.{ServerConfig, unix, tcp}
use mtdd_server.Config.Parse.{set_value}
use mtdd_server.Config.Parse.Numbers.{parse_positive_int-to_string}
use mtdd_server.Config.Listen.{
  normalize_unix_path, parse_host_port, parse_listen, format_listen_target,
}

rfind-digits : (t : Bytes) → All IsDigit t → rfind b':' t ≡ none
unfolding rfind
rfind-digits [] d = refl
rfind-digits (c ∷ t) d = ground (arith, rfind-digits t d.1)

rfind-append : (s t : Bytes) → All IsDigit t → rfind b':' (s ++ b':' ∷ t) ≡ some (length s)
unfolding rfind
rfind-append [] t d = ground (arith, rfind-digits t d)
rfind-append (x ∷ s) t d = ground (arith, rfind-append s t d)

drop_past : (s t : Bytes) (c : ℕ) → drop (suc (length s)) (s ++ c ∷ t) ≡ t
drop_past [] t c = refl
drop_past (x ∷ s) t c = drop_past s t c

set_value-append : (s t : Bytes) (c : ℕ) → set_value (some (s ++ c ∷ t)) ≡ some (s ++ c ∷ t)
set_value-append [] t c = refl
set_value-append (x ∷ s) t c = refl

parse_host_port_text :
    (address : Bytes) (port : ℕ) (base : ServerConfig)
    → 0 < port
    → port < 2 ^ 31
    → parse_host_port
        (address ++ b':' ∷ to_string port)
        (rfind b':' (address ++ b':' ∷ to_string port))
        base
      ≡ ok (record base { listen_mode = tcp; listen_address = address; listen_port = pos port })
unfolding parse_host_port
parse_host_port_text address port base lo hi = rw (
  rfind-append address (to_string port) (to_string-IsDigit port),
  drop_past address (to_string port) b':',
  parse_positive_int-to_string (codes "MTDD_LISTEN port") port base.listen_port lo hi,
  take_of-append address (b':' ∷ to_string port),
)

-- A TCP listen target whose text does not begin with `unix:`, with a port from 1 up to the largest
-- int, is parsed back to its address and port, whatever the configuration that it is parsed into.
parse_listen-format_tcp :
    (config base : ServerConfig) (port : ℕ)
    → config.listen_mode ≡ tcp
    → config.listen_port ≡ pos port
    → 0 < port
    → port < 2 ^ 31
    → starts_with (codes "unix:") (format_listen_target config) ≡ false
    → parse_listen (some (format_listen_target config)) base
      ≡ ok (record base {
        listen_mode = tcp;
        listen_address = config.listen_address;
        listen_port = pos port;
      })
unfolding parse_listen format_listen_target
parse_listen-format_tcp config base port m p lo hi u = ground (
  arith,
  set_value-append config.listen_address (to_string port) b':',
  parse_host_port_text config.listen_address port base lo hi,
)

-- A unix listen target with an absolute path of more than one byte that does not begin with two
-- slashes is parsed back to its path.
parse_listen-format_unix :
    (config base : ServerConfig) (c : ℕ) (rest : Bytes)
    → config.listen_mode ≡ unix
    → config.unix_socket_path ≡ b'/' ∷ c ∷ rest
    → c ≢ b'/'
    → parse_listen (some (format_listen_target config)) base
      ≡ ok (record base { listen_mode = unix; unix_socket_path = config.unix_socket_path })
unfolding parse_listen format_listen_target normalize_unix_path starts_with
parse_listen-format_unix config base c rest m p h = ground arith

-- A target that is parsed back.
abbrev pub IsListenable : ServerConfig → Type 0
IsListenable config =
    ((config.listen_mode ≡ unix)
      × (c : ℕ) × (rest : Bytes) × (config.unix_socket_path ≡ b'/' ∷ c ∷ rest)
      × (c ≢ b'/'))
    ⊎ ((config.listen_mode ≡ tcp)
        × (port : ℕ) × (config.listen_port ≡ pos port)
        × (0 < port)
        × (port < 2 ^ 31)
        × (starts_with (codes "unix:") (format_listen_target config) ≡ false))

-- A configuration with another's target.
abbrev pub with_target : ListenMode → ServerConfig → ServerConfig → ServerConfig
with_target unix config base = record base {
  listen_mode = unix;
  unix_socket_path = config.unix_socket_path;
}
with_target tcp config base = record base {
  listen_mode = tcp;
  listen_address = config.listen_address;
  listen_port = config.listen_port;
}

-- A listen target is parsed back to what it was made of, whatever the configuration that it is
-- parsed into: a unix target to its path, if that is absolute, longer than one byte, and does not
-- begin with two slashes; a TCP target to its address and port, if the port is from 1 up to the
-- largest int and the text does not begin with `unix:`.
pub parse_listen-format_listen_target :
    (config base : ServerConfig)
    → IsListenable config
    → parse_listen (some (format_listen_target config)) base
      ≡ ok (with_target config.listen_mode config base)
parse_listen-format_listen_target config base (inl (m, c, rest, p, h)) =
    parse_listen-format_unix config base c rest m p h
    ∙ ap (λ mode. ok (with_target mode config base)) (sym m)
parse_listen-format_listen_target config base (inr (m, port, p, lo, hi, u)) =
    parse_listen-format_tcp config base port m p lo hi u
    ∙ ap
        (λ n. ok (record base {
          listen_mode = tcp;
          listen_address = config.listen_address;
          listen_port = n;
        }))
        (sym p)
    ∙ ap (λ mode. ok (with_target mode config base)) (sym m)
