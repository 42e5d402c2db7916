-- ===== src/Json/Reader.antt =====
-- What a JSON reader makes of an escaped string: the string grammar of JSON, read independently of
-- the escaper. (`\u` and `\/` escapes, which the escaper never writes, are refused.)
use parser_framework.Base.{
  ℕ, Bool, true, false, ◌&&◌, ◌||◌, not, [], ◌∷◌, ◌++◌, ◌≡◌, refl, Option, none, some, arith, ltb,
  ◌==◌, if◌then◌else◌, Str, append_assoc,
}
use parser_framework.Json.{escape_byte, escape_json_string}

-- The byte that stands behind a backslash, and what it means.
abbrev pub unescape : ℕ → Option ℕ
unescape d =
    if d == b'\\'
    then some b'\\'
    else if d == b'"'
    then some b'"'
    else if d == b'b'
    then some 8
    else if d == b'f'
    then some 12
    else if d == b'n'
    then some 10
    else if d == b'r'
    then some 13
    else if d == b't'
    then some 9
    else none

abbrev pub put : Option ℕ → Option (Str × Str) → Option (Str × Str)
put (some c) (some (s, rest)) = some (c ∷ s, rest)
put _ _ = none

-- Reads up to the closing quote, and returns the string and what follows. The flag tells that the
-- byte before was a backslash. A control byte cannot stand in a string.
unfoldable pub read_string : Bool → Str → Option (Str × Str)
read_string escaped [] = none
read_string true (c ∷ cs) = put (unescape c) (read_string false cs)
read_string false (c ∷ cs) =
    let later = read_string false cs in
    let unescaped = read_string true cs in
    if c == b'"'
    then some ([], cs)
    else if c == b'\\'
    then unescaped
    else if ltb c 32
    then none
    else put (some c) later

-- The control bytes that the escaper knows.
abbrev has_escape : ℕ → Bool
has_escape c = c == 8 || c == 9 || c == 10 || c == 12 || c == 13

abbrev pub is_renderable : Str → Bool
is_renderable [] = true
is_renderable (c ∷ cs) = (not (ltb c 32) || has_escape c) && is_renderable cs

read-escape_byte :
    (c : ℕ) (rest : Str)
    → read_string false (escape_byte c ++ rest)
      ≡ (if not (ltb c 32) || has_escape c then put (some c) (read_string false rest) else none)
unfolding read_string escape_byte
read-escape_byte c rest = ground arith

-- A reader gets back exactly the string that was escaped, and leaves what follows the closing quote,
-- if every control byte of the string has a short escape; if not, it refuses what was written.
pub read-escape :
    (s rest : Str)
    → read_string false (escape_json_string s ++ (b'"' ∷ rest))
      ≡ (if is_renderable s then some (s, rest) else none)
unfolding read_string escape_json_string
read-escape [] rest = refl
read-escape (c ∷ cs) rest =
    rw (append_assoc, read-escape_byte c (escape_json_string cs ++ (b'"' ∷ rest)))
      (rw (read-escape cs rest) (ground arith))
