-- ===== src/Libraries.antt =====
-- What the program takes from libraries that stand beside it: the regex library and the dynamic
-- property compiler of subprojects/regex-parser, and the JSON parser of subprojects/jsmn.
use parser_framework.Base.{ℕ, Bool, Option, List, Str, Map, ℤ, Result}

-- `Match::Type`
pub data MatchType : Type 0 where
  sequential random : MatchType

-- The members of `jsmntok_t` that the program reads.
pub record JsonToken : Type 0 where
  pub is_string : Bool
  pub start : ℤ
  pub end : ℤ

-- `ValueType::INT` and `ValueType::STRING`
pub data ValueType : Type 0 where
  int string : ValueType

-- A `::Token(name, pattern, type, 0)` after its `match` with a `Match(value)`.
pub record BoundToken : Type 0 where
  pub name : Str
  pub pattern : Str
  pub type : ValueType
  pub value : Str

pub record Libraries : Type 0 where
  -- `Regex(pattern).match(m)` for `Match m(text)` of that type and offset: the exception thrown, no
  -- match, or `as_string()` and the offset that the match leaves in `m`.
  pub regex_match : Str → MatchType → Str → ℕ → Result (Option (Str × ℕ))
  -- `jsmn_parser(text, 2).parse()`
  pub json_parse : Str → ℤ
  -- Whether `jsonpath_parse_string(path)` returns a path.
  pub json_path : Str → Bool
  -- `get_path(path)` on the parsed text, and the token of what it finds.
  pub json_get : Str → Str → Result (Option JsonToken)
  -- `what()` of the exception of `std::string::substr` behind the end of a string.
  pub substr_error : ℕ → ℕ → Str
  -- `compile(expression, tokens)->evaluate()`, then `get_results()`: names and values.
  pub evaluate_expression : Str → Map BoundToken → Result (List (Str × Str))
