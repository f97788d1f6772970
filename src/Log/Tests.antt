-- ===== src/Log/Tests.antt =====
-- The theorems on the lines of the log at a concrete line.
use mtdd_server.Base.{Bytes, codes, none, some, [], ◌∷◌, refl, ◌≡◌}
use mtdd_server.Log.{warn, log_line, json_escape, escape}
use mtdd_server.Log.Lines.{read_line, read_string, behind, read_line-log_line}

abbrev detail : Bytes
detail = codes "a \"b\"\n"

-- A control character that the server does not escape cannot be read.
test_control : read_line warn (log_line warn (codes "unix_socket") (7 ∷ [])) ≡ none
unfolding read_line log_line json_escape escape behind read_string
test_control = refl

read_line-log_line_example :
    read_line warn (log_line warn (codes "unix_socket") detail) ≡ some (codes "unix_socket", detail)
read_line-log_line_example = read_line-log_line warn (codes "unix_socket") detail
