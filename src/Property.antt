-- ===== src/Property.antt =====
-- src/DynamicPropertyEngine.cpp, over the compiler of dynamic properties. The storage that keeps the
-- matches alive has no other use and is not modelled.
use parser_framework.Base.{
  Bool, ◌&&◌, true, List, [], ◌∷◌, ◌++◌, leb, not, is_empty, if◌then◌else◌, Str, codes, Map, assign,
  Result, ok, err,
}
use parser_framework.Libraries.{Libraries, BoundToken, int, string}
use parser_framework.Types.{Token, ParseResult}

unfoldable pub all_digits : Str → Bool
all_digits [] = true
all_digits (ch ∷ rest) = leb b'0' ch && leb ch b'9' && all_digits rest

unfoldable pub is_integer_string : Str → Bool
unfolding all_digits
is_integer_string value = not (is_empty value) && all_digits value

unfoldable pub bind_token : Str → Str → BoundToken
unfolding is_integer_string
bind_token name value = record {
  name = name;
  pattern = if is_integer_string value then codes "^([0-9]+)$" else codes "^(.*)$";
  type = if is_integer_string value then int else string;
  value = value;
}

-- `token_map[name] = bind_token(name, value)`
abbrev pub bind : Str → Str → Map BoundToken → Map BoundToken
bind name value token_map = assign name (bind_token name value) token_map

unfoldable pub bind_tokens : List Token → Map BoundToken → Map BoundToken
bind_tokens [] token_map = token_map
bind_tokens (token ∷ rest) token_map = bind_tokens rest (bind token.name token.value token_map)

unfoldable pub bind_all : List (Str × Str) → Map BoundToken → Map BoundToken
bind_all [] token_map = token_map
bind_all ((name, value) ∷ rest) token_map = bind_all rest (bind name value token_map)

abbrev pub metadata : ParseResult → List (Str × Str)
metadata result =
    (codes "message_rule_id", result.message_rule_id)
    ∷ (codes "message_rule_name", result.message_rule_name)
    ∷ (codes "event_name", result.event_name)
    ∷ (codes "event_pattern_id", result.event_pattern_id)
    ∷ []

unfoldable pub build_token_map : ParseResult → Map BoundToken
unfolding bind_tokens bind_all bind_token
build_token_map result =
    bind_all (metadata result) (bind_all result.properties (bind_tokens result.tokens []))

-- `properties[property.name] = property.value` for each result.
unfoldable pub assign_all : List (Str × Str) → Map Str → Map Str
assign_all [] properties = properties
assign_all ((name, value) ∷ rest) properties = assign_all rest (assign name value properties)

module _ (lib : Libraries) where
  abbrev pub evaluation_error : Str → Str → Str
  evaluation_error expression what =
      codes "Dynamic property evaluation failed [" ++ (expression ++ (codes "]: " ++ what))

  -- What the `try` block makes of one expression.
  unfoldable pub apply_outcome :
      Str → Result (List (Str × Str)) → Map Str × List Str → Map Str × List Str
  unfolding assign_all
  apply_outcome expression (ok results) (properties, errors) =
      (assign_all results properties, errors)
  apply_outcome expression (err what) (properties, errors) =
      (properties, errors ++ evaluation_error expression what ∷ [])

  unfoldable pub evaluate_from : List Str → Map BoundToken → Map Str × List Str → Map Str × List Str
  unfolding apply_outcome
  evaluate_from [] token_map state = state
  evaluate_from (expression ∷ rest) token_map state =
      evaluate_from rest token_map
        (apply_outcome expression (lib.evaluate_expression expression token_map) state)

  -- The properties, and `errors` behind the call.
  unfoldable pub evaluate : List Str → ParseResult → List Str → Map Str × List Str
  unfolding evaluate_from build_token_map
  evaluate expressions result errors =
      evaluate_from expressions (build_token_map result) ([], errors)
