-- ===== src/Render/Results.antt =====
-- `render_results_as_json` of src/ParserFramework.cpp.
use parser_framework.Base.{
  ℕ, List, [], ◌∷◌, ◌++◌, map, if◌then◌else◌, is_empty, Str, codes, contains, Map,
}
use parser_framework.Json.{append_indent}
use parser_framework.Render.{
  RenderNode, empty_node, insert_render_token, quote, string_entry, entry_lines,
  render_object_children,
}
use parser_framework.Types.{Token, ParseResult}

-- The tokens whose name is not in `emitted_names`, each once.
unfoldable pub first_tokens : List Str → List Token → List Token
first_tokens emitted_names [] = []
first_tokens emitted_names (token ∷ rest) =
    let old = first_tokens emitted_names rest in
    let new = first_tokens (token.name ∷ emitted_names) rest in
    if contains emitted_names token.name then old else token ∷ new

unfoldable pub insert_tokens : List Token → RenderNode → RenderNode
unfolding insert_render_token
insert_tokens [] root = root
insert_tokens (token ∷ rest) root =
    insert_tokens rest (insert_render_token root token.name token.value)

unfoldable pub build_render_tree : ParseResult → RenderNode
unfolding first_tokens insert_tokens
build_render_tree result = insert_tokens (first_tokens [] result.tokens) empty_node

-- The tree of the properties, in the order of the map.
unfoldable pub insert_values : Map Str → RenderNode → RenderNode
unfolding insert_render_token
insert_values [] root = root
insert_values ((name, value) ∷ rest) root = insert_values rest (insert_render_token root name value)

-- The strings of `token_extraction`, with commas between them.
unfoldable pub render_string_row : List Str → Str
unfolding quote
render_string_row [] = []
render_string_row (value ∷ []) = quote value
render_string_row (value ∷ next ∷ rest) =
    quote value ++ (codes ", " ++ render_string_row (next ∷ rest))

abbrev pub indent_entry : ℕ → Str → Str
unfolding append_indent
indent_entry depth entry = append_indent depth ++ entry

-- `"name": {` and the lines of an object, closed at the depth of its name.
unfoldable pub object_entry : ℕ → Str → Str → Str
unfolding append_indent
object_entry depth name body =
    append_indent depth
    ++ (b'"' ∷ (name ++ (codes "\": {\n" ++ (body ++ (append_indent depth ++ codes "}")))))

unfoldable pub string_line : ℕ → Str → Str → Str
unfolding append_indent string_entry
string_line depth name value = append_indent depth ++ string_entry name value

unfoldable pub rule_entry : ParseResult → Str
unfolding object_entry entry_lines string_line render_string_row
rule_entry result = object_entry 3 (codes "rule") (
    entry_lines (
      string_line 4 (codes "id") result.message_rule_id
      ∷ string_line 4 (codes "name") result.message_rule_name
      ∷ (append_indent 4
          ++ (codes "\"token_extraction\": ["
              ++ (render_string_row result.token_extraction ++ codes "]")))
      ∷ []))

unfoldable pub event_entry : ParseResult → Str
unfolding object_entry entry_lines string_line
event_entry result = object_entry 3 (codes "event") (
    entry_lines (
      string_line 4 (codes "name") result.event_name
      ∷ string_line 4 (codes "pattern_id") result.event_pattern_id
      ∷ []))

unfoldable pub tokens_entry : ParseResult → Str
unfolding object_entry build_render_tree render_object_children
tokens_entry result =
    object_entry 3 (codes "tokens") (render_object_children (build_render_tree result) 4)

unfoldable pub property_entry : ParseResult → List Str
unfolding object_entry insert_values render_object_children
property_entry result =
    if is_empty result.properties
    then []
    else object_entry 3 (codes "property")
        (render_object_children (insert_values result.properties empty_node) 4)
      ∷ []

-- What the two branches of `result.matched` render.
unfoldable pub matched_entries : ParseResult → List Str
unfolding rule_entry event_entry tokens_entry property_entry append_indent
matched_entries result =
    if result.matched
    then rule_entry result ∷ event_entry result ∷ tokens_entry result ∷ property_entry result
    else (append_indent 3 ++ codes "\"rule\": null") ∷ []

unfoldable pub error_lines : List Str → List Str
unfolding append_indent quote
error_lines errors = map (λ error. append_indent 4 ++ quote error) errors

unfoldable pub errors_entry : List Str → List Str
unfolding append_indent entry_lines error_lines
errors_entry errors =
    if is_empty errors
    then []
    else (append_indent 3
        ++ (codes "\"errors\": [\n"
            ++ (entry_lines (error_lines errors) ++ (append_indent 3 ++ codes "]"))))
      ∷ []

-- One round of the loop over the results, without the comma.
unfoldable pub render_result : ParseResult → Str
unfolding append_indent entry_lines matched_entries errors_entry
render_result result =
    append_indent 2
    ++ (codes "{\n"
        ++ (entry_lines (matched_entries result ++ errors_entry result.errors)
            ++ (append_indent 2 ++ codes "}")))

unfoldable pub render_results_as_json : List ParseResult → Str
unfolding append_indent entry_lines render_result
render_results_as_json results =
    codes "{\n"
    ++ (append_indent 1
        ++ (codes "\"parsed\": [\n"
            ++ (entry_lines (map render_result results) ++ (append_indent 1 ++ codes "]\n}"))))

unfoldable pub render_result_as_json : ParseResult → Str
unfolding render_results_as_json
render_result_as_json result = render_results_as_json (result ∷ [])
