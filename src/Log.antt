-- ===== src/Log.antt =====
-- src/logging.h: the lines that the server logs. A line is what is written to std::cerr; the mutex
-- around it and the clock are left out, and a timer's duration is a number.
pub mod Lines
mod Tests
use mtdd_server.Base.{
  ℕ, Bytes, codes, Bool, true, false, List, [], ◌∷◌, ◌++◌, ◌==◌, if◌then◌else◌, is_empty, ◌≡◌, refl,
}
use mtdd_server.Base.Int.{ℤ}
use mtdd_server.Base.Decimal.{to_string_ℤ}

-- The cases of the switch.
unfoldable pub escape : ℕ → Bytes
escape c =
    if c == b'\\'
    then b'\\' ∷ b'\\' ∷ []
    else if c == b'"'
    then b'\\' ∷ b'"' ∷ []
    else if c == b'\n'
    then b'\\' ∷ b'n' ∷ []
    else if c == b'\r'
    then b'\\' ∷ b'r' ∷ []
    else if c == b'\t'
    then b'\\' ∷ b't' ∷ []
    else c ∷ []

unfoldable pub json_escape : Bytes → Bytes
unfolding escape
json_escape [] = []
json_escape (c ∷ value) = escape c ++ json_escape value

-- What Info, Warn and Error write before the event.
abbrev pub info : Bytes
info = codes "info"

abbrev pub warn : Bytes
warn = codes "warn"

abbrev pub error : Bytes
error = codes "error"

-- What all lines begin with, before `rest`.
abbrev pub head : Bytes → Bytes → Bytes → Bytes
head level event rest =
    codes "{\"level\":\""
    ++ (level ++ (codes "\",\"event\":\"" ++ (json_escape event ++ (codes "\"" ++ rest))))

-- Info, Warn and Error, by the level.
unfoldable pub log_line : Bytes → Bytes → Bytes → Bytes
unfolding json_escape
log_line level event detail = head level event (
    (if is_empty detail then [] else codes ",\"detail\":\"" ++ (json_escape detail ++ codes "\""))
    ++ codes "}\n")

-- What the destructor of ScopedTimer writes.
unfoldable pub timer_line : Bytes → ℤ → Bytes
unfolding json_escape
timer_line event ms = head info event (codes ",\"duration_ms\":" ++ (to_string_ℤ ms ++ codes "}\n"))

test_line : log_line info (codes "a\"b") [] ≡ codes "{\"level\":\"info\",\"event\":\"a\\\"b\"}\n"
unfolding log_line json_escape escape
test_line = refl
