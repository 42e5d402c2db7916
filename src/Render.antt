-- ===== src/Render.antt =====
-- What the renderers of src/ParserFramework.cpp and src/ReportAnalyzer.cpp share: each file has its own
-- copy of the tree of dotted names and of its printer.
pub mod Results
pub mod Reports
pub mod Found
pub mod Blocks
pub mod Arrays
pub mod Ordered
pub mod Order
pub mod Trees
pub mod Documents
pub mod Readable
pub mod ReportDocuments
pub mod Bundles
pub mod BundleDocuments
pub mod BundleReads
pub mod Processing
pub mod ProcessingReads
use parser_framework.Base.{
  ℕ, zero, suc, Bool, List, [], ◌∷◌, ◌++◌, Option, none, some, if◌then◌else◌, ◌==◌, is_empty, Str,
  codes, str_eq, Map, lookup,
}
use parser_framework.Json.{escape_json_string, append_indent}

-- `RenderNode`: the value, the names of the children in the order of their insertion, and the children.
mutual
  pub data RenderNode : Type 0 where
    node : Option Str → List Str → Children → RenderNode

  -- The hash map of the children, of which the program only looks up names and tests the emptiness.
  pub data Children : Type 0 where
    no_child : Children
    child : Str → RenderNode → Children → Children

abbrev pub empty_node : RenderNode
empty_node = node none [] no_child

unfoldable pub find_child : Str → Children → Option RenderNode
find_child name no_child = none
find_child name (child key value rest) =
    if str_eq key name then some value else find_child name rest

abbrev pub remembered : Option RenderNode → Str → List Str → List Str
remembered none name order = order ++ name ∷ []
remembered (some found) name order = order

-- The order of the children, once `name` is among them.
unfoldable pub remember_child_order : Children → Str → List Str → List Str
unfolding find_child
remember_child_order children name order = remembered (find_child name children) name order

-- The child of that name, a new node if there is none, is changed.
unfoldable pub update_child : (RenderNode → RenderNode) → Str → Children → Children
update_child f name no_child = child name (f empty_node) no_child
update_child f name (child key value rest) =
    let later = update_child f name rest in
    if str_eq key name then child key (f value) rest else child key value later

abbrev pub onto_first : ℕ → List Str → List Str
onto_first c [] = (c ∷ []) ∷ []
onto_first c (segment ∷ rest) = (c ∷ segment) ∷ rest

-- The parts of a name between its dots: the values of `segment` in the loop over `start`.
unfoldable pub segments : Str → List Str
segments [] = [] ∷ []
segments (c ∷ rest) =
    let later = segments rest in if c == b'.' then [] ∷ later else onto_first c later

-- The rounds of the loop, from the node `current`.
unfoldable pub insert_segments : List Str → Str → RenderNode → RenderNode
unfolding remember_child_order update_child
insert_segments [] value (node old order children) = node (some value) order children
insert_segments (segment ∷ rest) value (node old order children) =
    node old (remember_child_order children segment order)
      (update_child (insert_segments rest value) segment children)

-- `insert_render_token`, and `insert_value` of the reports.
unfoldable pub insert_render_token : RenderNode → Str → Str → RenderNode
unfolding insert_segments segments
insert_render_token root name value = insert_segments (segments name) value root

-- A string with its quotes.
unfoldable pub quote : Str → Str
quote value = b'"' ∷ (escape_json_string value ++ b'"' ∷ [])

-- `"name": "value"`
unfoldable pub string_entry : Str → Str → Str
unfolding quote
string_entry name value = b'"' ∷ (name ++ (codes "\": " ++ quote value))

-- The entries on lines of their own, with commas between them.
unfoldable pub entry_lines : List Str → Str
entry_lines [] = []
entry_lines (entry ∷ []) = entry ++ codes "\n"
entry_lines (entry ∷ next ∷ rest) = entry ++ (codes ",\n" ++ entry_lines (next ∷ rest))

-- The entry `raw` of a node that has a value.
unfoldable pub raw_entry : Option Str → ℕ → List Str
unfolding append_indent string_entry
raw_entry none depth = []
raw_entry (some value) depth = (append_indent depth ++ string_entry (codes "raw") value) ∷ []

-- The loop over `child_order`, where `rendered` holds the text of each child.
unfoldable pub child_entries : List Str → Map Str → ℕ → List Str
unfolding append_indent quote
child_entries [] rendered depth = []
child_entries (name ∷ rest) rendered depth = elim (lookup name rendered) [
  | none ↦ child_entries rest rendered depth
  | some text ↦
      (append_indent depth ++ (quote name ++ (codes ": " ++ text)))
      ∷ child_entries rest rendered depth
]

abbrev pub value_or_empty : Option Str → Str
value_or_empty none = []
value_or_empty (some value) = value

-- `render_object_children`, given the texts of the children.
unfoldable pub object_children : Option Str → List Str → Map Str → ℕ → Str
unfolding child_entries entry_lines raw_entry
object_children value order rendered depth =
    entry_lines (raw_entry value depth ++ child_entries order rendered depth)

-- A call renders all children of a node, and then takes their texts in the order of the names.
unfoldable mutual
  unfolding object_children append_indent quote

  pub render_node_as_json : RenderNode → ℕ → Str
  render_node_as_json (node value order no_child) depth = quote (value_or_empty value)
  render_node_as_json (node value order (child key first rest)) depth =
      codes "{\n"
      ++ (object_children value order (render_children (child key first rest) (suc depth))
            (suc depth)
          ++ (append_indent depth ++ codes "}"))

  pub render_children : Children → ℕ → Map Str
  render_children no_child depth = []
  render_children (child key value rest) depth =
      (key, render_node_as_json value depth) ∷ render_children rest depth

-- `render_object_children`, and `render_children` of the reports.
unfoldable pub render_object_children : RenderNode → ℕ → Str
unfolding object_children render_node_as_json
render_object_children (node value order children) depth =
    object_children value order (render_children children depth) depth
