-- ===== src/Render/Documents.antt =====
-- `render_results_as_json` of src/ParserFramework.cpp, read as JSON.
use parser_framework.Base.{
  List, [], ◌∷◌, if◌then◌else◌, if-cases, is_empty, Str, codes, contains, Map, All,
}
use parser_framework.Json.Grammar.{
  Json, string, null, array, object, Values, no_value, value, Fields, no_field, field,
}
use parser_framework.Render.Arrays.{strings}
use parser_framework.Render.Blocks.{Renderable, append_fields}
use parser_framework.Render.Ordered.{Ordered, empty-Ordered, insert_render_token-Ordered}
use parser_framework.Render.Results.{first_tokens, insert_tokens, build_render_tree, insert_values}
use parser_framework.Render.Trees.{node_fields}
use parser_framework.Render.{RenderNode, empty_node}
use parser_framework.Types.{Token, ParseResult}

abbrev pub TokenRenderable : Token → Type 0
TokenRenderable token = Renderable token.name × Renderable token.value

abbrev pub PairRenderable : Str × Str → Type 0
PairRenderable (name, text) = Renderable name × Renderable text

-- No string of the result has a control byte without a short escape.
pub record ResultRenderable (r : ParseResult) : Type 0 where
  pub message_rule_id : Renderable r.message_rule_id
  pub message_rule_name : Renderable r.message_rule_name
  pub token_extraction : All Renderable r.token_extraction
  pub event_name : Renderable r.event_name
  pub event_pattern_id : Renderable r.event_pattern_id
  pub tokens : All TokenRenderable r.tokens
  pub properties : All PairRenderable r.properties
  pub errors : All Renderable r.errors

-- What the text of a result is to denote.
abbrev pub rule_fields : ParseResult → Fields
rule_fields r = field (codes "id") (string r.message_rule_id) (
    field (codes "name") (string r.message_rule_name)
      (field (codes "token_extraction") (array (strings r.token_extraction)) no_field))

abbrev pub event_fields : ParseResult → Fields
event_fields r =
    field (codes "name") (string r.event_name)
      (field (codes "pattern_id") (string r.event_pattern_id) no_field)

unfoldable pub property_fields : Map Str → Fields
property_fields properties =
    if is_empty properties
    then no_field
    else field (codes "property") (object (node_fields (insert_values properties empty_node)))
        no_field

unfoldable pub matched_fields : ParseResult → Fields
unfolding property_fields
matched_fields r =
    if r.matched
    then field (codes "rule") (object (rule_fields r)) (
        field (codes "event") (object (event_fields r)) (
          field (codes "tokens") (object (node_fields (build_render_tree r)))
            (property_fields r.properties)))
    else field (codes "rule") null no_field

unfoldable pub errors_fields : List Str → Fields
errors_fields errors =
    if is_empty errors then no_field else field (codes "errors") (array (strings errors)) no_field

unfoldable pub result_doc : ParseResult → Json
unfolding matched_fields errors_fields
result_doc r = object (append_fields (matched_fields r) (errors_fields r.errors))

abbrev pub docs_of {ℓ} : {A : Type ℓ} → (A → Json) → List A → Values
docs_of doc [] = no_value
docs_of doc (x ∷ rest) = value (doc x) (docs_of doc rest)

unfoldable pub results_doc : List ParseResult → Json
unfolding result_doc
results_doc results = object (field (codes "parsed") (array (docs_of result_doc results)) no_field)

-- The trees that are printed.
first_tokens-All :
    (P : Token → Type 0) (emitted : List Str) (tokens : List Token)
    → All P tokens
    → All P (first_tokens emitted tokens)
unfolding first_tokens
first_tokens-All P emitted [] h = tt
first_tokens-All P emitted (token ∷ rest) h =
    if-cases (All P) (contains emitted token.name) (first_tokens emitted rest) _
      (λ _. first_tokens-All P emitted rest h.1)
      (λ _. (h.0, first_tokens-All P (token.name ∷ emitted) rest h.1))

insert_tokens-Ordered :
    (tokens : List Token) (root : RenderNode)
    → All TokenRenderable tokens
    → Ordered root
    → Ordered (insert_tokens tokens root)
unfolding insert_tokens
insert_tokens-Ordered [] root h o = o
insert_tokens-Ordered (token ∷ rest) root h o =
    insert_tokens-Ordered rest _ h.1
      (insert_render_token-Ordered root token.name token.value h.0.0 h.0.1 o)

pub insert_values-Ordered :
    (values : Map Str) (root : RenderNode)
    → All PairRenderable values
    → Ordered root
    → Ordered (insert_values values root)
unfolding insert_values
insert_values-Ordered [] root h o = o
insert_values-Ordered ((name, v) ∷ rest) root h o =
    insert_values-Ordered rest _ h.1 (insert_render_token-Ordered root name v h.0.0 h.0.1 o)

-- In the tree of a result, if all its tokens can be rendered, each node lists each of its children once.
pub build_render_tree-Ordered :
    (result : ParseResult) → All TokenRenderable result.tokens → Ordered (build_render_tree result)
unfolding build_render_tree
build_render_tree-Ordered result h =
    insert_tokens-Ordered _ empty_node (first_tokens-All TokenRenderable [] result.tokens h)
      empty-Ordered
