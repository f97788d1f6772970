-- ===== src/Log/Lines.antt =====
-- What can be read back from a line of the log (src/logging.h).
use mathlib.Core.List.{append_assoc}
use mtdd_server.Base.{
  ℕ, Bytes, codes, Bool, true, false, not, ◌||◌, ◌&&◌, ltb, Option, none, some, [], ◌∷◌, ◌++◌, ◌==◌,
  if◌then◌else◌, is_empty, equal, ◌≡◌, refl, ap, ◌∙◌, sym, arith,
}
use mtdd_server.Log.{escape, json_escape, log_line}

-- The byte that a JSON escape with this letter stands for. The escapes by a code point, which the
-- server does not write, are not read.
abbrev unescape : ℕ → Option ℕ
unescape c =
    if c == b'"' || c == b'\\' || c == b'/'
    then some c
    else if c == b'b'
    then some 8
    else if c == b'f'
    then some 12
    else if c == b'n'
    then some b'\n'
    else if c == b'r'
    then some b'\r'
    else if c == b't'
    then some b'\t'
    else none

abbrev with_byte : ℕ → Option (Bytes × Bytes) → Option (Bytes × Bytes)
with_byte c none = none
with_byte c (some (s, rest)) = some (c ∷ s, rest)

abbrev with_escape : Option ℕ → Option (Bytes × Bytes) → Option (Bytes × Bytes)
with_escape none r = none
with_escape (some c) r = with_byte c r

-- A JSON string from behind its opening quote, and what stands behind its closing quote. A control
-- character may not stand in it as it is.
unfoldable mutual
  pub read_string : Bytes → Option (Bytes × Bytes)
  read_string [] = none
  read_string (c ∷ s) =
      let plain = read_string s in
      let special = read_escaped s in
      if c == b'"'
      then some ([], s)
      else if c == b'\\'
      then special
      else if ltb c 32
      then none
      else with_byte c plain

  read_escaped : Bytes → Option (Bytes × Bytes)
  read_escaped [] = none
  read_escaped (c ∷ s) = with_escape (unescape c) (read_string s)

-- The text behind a prefix.
unfoldable pub behind : Bytes → Bytes → Option Bytes
behind [] text = some text
behind (c ∷ prefix) [] = none
behind (c ∷ prefix) (d ∷ text) = let rest = behind prefix text in if c == d then rest else none

abbrev at_end : Bytes → Bytes → Bytes → Option (Bytes × Bytes)
at_end event detail rest = if equal rest (codes "}\n") then some (event, detail) else none

abbrev with_detail : Bytes → Option (Bytes × Bytes) → Option (Bytes × Bytes)
with_detail event none = none
with_detail event (some (detail, rest)) = at_end event detail rest

abbrev at_detail : Bytes → Bytes → Option Bytes → Option (Bytes × Bytes)
at_detail event rest none = at_end event [] rest
at_detail event rest (some text) = with_detail event (read_string text)

abbrev with_event : Option (Bytes × Bytes) → Option (Bytes × Bytes)
with_event none = none
with_event (some (event, rest)) = at_detail event rest (behind (codes ",\"detail\":\"") rest)

abbrev at_event : Option Bytes → Option (Bytes × Bytes)
at_event none = none
at_event (some text) = with_event (read_string text)

-- The event and the detail of a line with this level.
unfoldable pub read_line : Bytes → Bytes → Option (Bytes × Bytes)
unfolding read_string behind equal
read_line level line =
    at_event (behind (codes "{\"level\":\"" ++ (level ++ codes "\",\"event\":\"")) line)

-- No control characters but newline, carriage return and tab, which the server escapes.
abbrev pub is_clean : Bytes → Bool
is_clean [] = true
is_clean (c ∷ s) = (not (ltb c 32) || c == b'\n' || c == b'\r' || c == b'\t') && is_clean s

read-escape :
    (c : ℕ) (s : Bytes)
    → read_string (escape c ++ s) ≡ (
        if not (ltb c 32) || c == b'\n' || c == b'\r' || c == b'\t'
        then with_byte c (read_string s)
        else none)
unfolding read_string escape
read-escape c s = ground arith

-- What is read where a text is clean.
abbrev if_clean : {A : Type 0} → Bool → A → Option A
if_clean true a = some a
if_clean false a = none

if_clean-if :
    {A : Type 0} (clean : Bool) (a : A) → if_clean clean a ≡ (if clean then some a else none)
if_clean-if true a = refl
if_clean-if false a = refl

if_clean-with_byte :
    (test clean : Bool) (c : ℕ) (s rest : Bytes)
    → (if test then with_byte c (if_clean clean (s, rest)) else none)
      ≡ if_clean (test && clean) (c ∷ s, rest)
if_clean-with_byte true true c s rest = refl
if_clean-with_byte true false c s rest = refl
if_clean-with_byte false clean c s rest = refl

pub read_string-json_escape :
    (s rest : Bytes) → read_string (json_escape s ++ b'"' ∷ rest) ≡ if_clean (is_clean s) (s, rest)
unfolding json_escape
read_string-json_escape [] rest = unfold read_string in refl
read_string-json_escape (c ∷ s) rest =
    let test = not (ltb c 32) || c == b'\n' || c == b'\r' || c == b'\t' in
    ap read_string (append_assoc (escape c) (json_escape s) (b'"' ∷ rest))
    ∙ read-escape c (json_escape s ++ b'"' ∷ rest)
    ∙ ap (λ r. if test then with_byte c r else none) (read_string-json_escape s rest)
    ∙ if_clean-with_byte test (is_clean s) c s rest

behind-append : (prefix text : Bytes) → behind prefix (prefix ++ text) ≡ some text
unfolding behind
behind-append [] text = refl
behind-append (c ∷ prefix) text = ground (arith, behind-append prefix text)

-- What stands behind the event, and the whole line.
read_detail :
    (clean : Bool) (event detail : Bytes)
    → with_detail event (if_clean clean (detail, codes "}\n")) ≡ if_clean clean (event, detail)
unfolding equal
read_detail true event detail = refl
read_detail false event detail = refl

read_tail :
    (clean : Bool) (event detail : Bytes)
    → with_event (
        if_clean clean (
          event,
          (if is_empty detail
                then []
                else codes ",\"detail\":\"" ++ (json_escape detail ++ codes "\""))
              ++ codes "}\n",
        ))
      ≡ if_clean (clean && is_clean detail) (event, detail)
unfolding behind equal
read_tail false event detail = refl
read_tail true event [] = refl
read_tail true event (c ∷ detail) =
    ap (with_detail event) (
      ap read_string (append_assoc (json_escape (c ∷ detail)) (codes "\"") (codes "}\n"))
      ∙ read_string-json_escape (c ∷ detail) (codes "}\n"))
    ∙ read_detail (is_clean (c ∷ detail)) event (c ∷ detail)

-- From a line of the log at a given level, a strict reader of JSON strings, which refuses control
-- characters as they are and escapes that JSON does not have, gets back the event and the detail
-- exactly if they hold no control characters but newline, carriage return and tab; otherwise it
-- refuses the line.
pub read_line-log_line :
    (level event detail : Bytes)
    → read_line level (log_line level event detail)
      ≡ (if is_clean event && is_clean detail then some (event, detail) else none)
unfolding read_line log_line
read_line-log_line level event detail =
    let prefix = codes "{\"level\":\"" ++ (level ++ codes "\",\"event\":\"") in
    let tail =
      (if is_empty detail then [] else codes ",\"detail\":\"" ++ (json_escape detail ++ codes "\""))
      ++ codes "}\n" in
    let text = json_escape event ++ b'"' ∷ tail in
    ap (λ t. at_event (behind prefix t))
      (ap (λ t. codes "{\"level\":\"" ++ t)
        (sym (append_assoc level (codes "\",\"event\":\"") text)))
    ∙ ap at_event (behind-append prefix text)
    ∙ ap with_event (read_string-json_escape event tail)
    ∙ read_tail (is_clean event) event detail
    ∙ if_clean-if (is_clean event && is_clean detail) (event, detail)
