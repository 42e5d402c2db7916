-- ===== src/Engines/Json.antt =====
-- src/JSONParsingEngine.cpp, over a JSON parser.
use parser_framework.Base.{
  ℕ, ◌-◌, Bool, true, false, not, ◌&&◌, ◌||◌, List, [], ◌∷◌, ◌++◌, Option, none, some, leb, ltb,
  ◌==◌, if◌then◌else◌, length, take, drop, Str, codes, str_eq, add_size, ℤ, is_negative, ltb_ℤ,
  to_size, int_to_string, Map, assign, Result, ok, err, ◌>>=◌, ◌>>◌, throw_if,
}
use parser_framework.Libraries.{Libraries, JsonToken}
use parser_framework.Types.{
  ParseResult, JsonMatchRule, JsonTokenRule, SectionSettings, SectionSlice,
}

-- `s.front() == c`, `s.back() == c` on a string that is not empty.
unfoldable pub front_is : ℕ → Str → Bool
front_is c [] = false
front_is c (x ∷ xs) = x == c

unfoldable pub back_is : ℕ → Str → Bool
back_is c [] = false
back_is c (x ∷ []) = x == c
back_is c (x ∷ y ∷ ys) = back_is c (y ∷ ys)

abbrev quote_mark : ℕ
quote_mark = b'"'

module _ (lib : Libraries) where
  -- `s.substr(start, count)`, which throws where `start` lies behind the end.
  unfoldable pub substr : Str → ℕ → ℕ → Result Str
  substr s start count =
      if ltb (length s) start
      then err (lib.substr_error start (length s))
      else ok (take count (drop start s))

  -- The value without its quotes, where it has them.
  unfoldable pub unquote : Bool → Str → Result Str
  unfolding substr front_is back_is
  unquote is_string value =
      if is_string && leb 2 (length value) && front_is quote_mark value && back_is quote_mark value
      then substr value 1 (length value - 2)
      else ok value

  unfoldable pub json_token_to_string : Str → JsonToken → Result Str
  unfolding unquote
  json_token_to_string json token =
      if is_negative token.start || ltb_ℤ token.end token.start then ok [] else do
        value ← substr json (to_size token.start) (to_size token.end - to_size token.start)
        unquote token.is_string value

  abbrev pub bad_path : Str → Str
  bad_path path = codes "Failed to parse JSONPath [" ++ (path ++ codes "]")

  abbrev pub render_found : Str → Option JsonToken → Result (Option Str)
  render_found json none = ok none
  render_found json (some token) = do value ← json_token_to_string json token; ok (some value)

  unfoldable pub lookup_json_value : Str → Str → Result (Option Str)
  unfolding json_token_to_string
  lookup_json_value json path_expression = do
    throw_if (not (lib.json_path path_expression)) (bad_path path_expression)
    found ← lib.json_get json path_expression
    render_found json found

  -- `match_rule.equals.has_value() && *value != *match_rule.equals`
  unfoldable pub differs : Option Str → Str → Bool
  differs none value = false
  differs (some expected) value = not (str_eq value expected)

  -- What the value that one rule looks up makes of the loop; `later` is what the rules behind it do.
  unfoldable pub match_outcome :
      JsonMatchRule → Result (Option Str) → Bool × List Str → List Str → Bool × List Str
  unfolding differs
  match_outcome rule (err what) later errors = (false, errors ++ what ∷ [])
  match_outcome rule (ok none) later errors = (false, errors)
  match_outcome rule (ok (some value)) later errors =
      if differs rule.equals value then (false, errors) else later

  -- Whether all rules match, and `errors` behind the call.
  unfoldable pub json_match_succeeds : List JsonMatchRule → Str → List Str → Bool × List Str
  unfolding lookup_json_value match_outcome
  json_match_succeeds [] json errors = (true, errors)
  json_match_succeeds (rule ∷ rest) json errors =
      match_outcome rule (lookup_json_value json rule.path) (json_match_succeeds rest json errors)
        errors

  abbrev pub parse_error : Str → ℤ → Str
  parse_error id parse_ret =
      codes "JSON parse failed in section ["
      ++ (id ++ (codes "] with error " ++ int_to_string parse_ret))

  abbrev pub add_error : ParseResult → Str → ParseResult
  add_error result what = record result { errors = result.errors ++ what ∷ [] }

  -- The token that one rule gives, from its text.
  unfoldable pub add_value :
      SectionSettings
      → SectionSlice
      → JsonTokenRule
      → JsonToken
      → Result Str
      → ParseResult
      → Bool × ParseResult
  add_value section slice rule token (err what) result = (false, add_error result what)
  add_value section slice rule token (ok value) result = (
    true,
    record result {
      tokens =
          result.tokens
          ++ record {
            name = rule.name;
            value = value;
            section = section.id;
            source_engine = codes "jsonpath";
            path = rule.path;
            start = add_size slice.start (to_size token.start);
            end = add_size slice.start (to_size token.end);
          }
            ∷ [];
    },
  )

  -- The same, from what `get_path` found.
  unfoldable pub add_token :
      SectionSettings
      → SectionSlice
      → JsonTokenRule
      → Result (Option JsonToken)
      → ParseResult
      → Bool × ParseResult
  unfolding add_value json_token_to_string
  add_token section slice rule (err what) result = (false, add_error result what)
  add_token section slice rule (ok none) result = (false, result)
  add_token section slice rule (ok (some token)) result =
      add_value section slice rule token (json_token_to_string slice.text token) result

  -- One round of the loop over `section.json_tokens`.
  unfoldable pub extract_token :
      SectionSettings → SectionSlice → JsonTokenRule → ParseResult → Bool × ParseResult
  unfolding add_token
  extract_token section slice rule result =
      if not (lib.json_path rule.path)
      then (false, add_error result (bad_path rule.path))
      else add_token section slice rule (lib.json_get slice.text rule.path) result

  unfoldable pub extract_tokens :
      SectionSettings → SectionSlice → List JsonTokenRule → ParseResult → Bool × ParseResult
  unfolding extract_token
  extract_tokens section slice [] result = (false, result)
  extract_tokens section slice (rule ∷ rest) result =
      let (matched, result') = extract_token section slice rule result in
      let (later, result'') = extract_tokens section slice rest result' in
      (matched || later, result'')

  unfoldable pub parse_section : SectionSettings → SectionSlice → ParseResult → Bool × ParseResult
  unfolding json_match_succeeds extract_tokens
  parse_section section slice result =
      let parse_ret = lib.json_parse slice.text in
      if is_negative parse_ret
      then (false, add_error result (parse_error section.id parse_ret))
      else let (matches, errors) =
          json_match_succeeds section.json_matches slice.text result.errors in
        let result' = record result { errors = errors } in
        if not matches
        then (false, result')
        else extract_tokens section slice section.json_tokens result'

  unfoldable pub extract_values : List JsonTokenRule → Str → Map Str → List Str → Map Str × List Str
  unfolding lookup_json_value
  extract_values [] message values errors = (values, errors)
  extract_values (rule ∷ rest) message values errors = elim (lookup_json_value message rule.path) [
    | err what ↦ extract_values rest message values (errors ++ what ∷ [])
    | ok none ↦ extract_values rest message values errors
    | ok (some value) ↦ extract_values rest message (assign rule.name value values) errors
  ]

  unfoldable pub parse_values : SectionSettings → Str → List Str → Map Str × List Str
  unfolding json_match_succeeds extract_values
  parse_values section message errors =
      if is_negative (lib.json_parse message)
      then ([], errors ++ codes "JSON example failed to parse" ∷ [])
      else let (matches, errors') = json_match_succeeds section.json_matches message errors in
        if not matches then ([], errors') else extract_values section.json_tokens message [] errors'
