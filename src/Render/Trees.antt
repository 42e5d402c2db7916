-- ===== src/Render/Trees.antt =====
-- How the tree of dotted names that src/ParserFramework.cpp prints is read as JSON.
use parser_framework.Base.{
  ℕ, suc, false, List, [], ◌∷◌, ◌++◌, Option, none, some, ◌≡◌, refl, arith, Str, codes, str_eq_iff,
  str_eq_refl, contains, Distinct, Map, lookup,
}
use parser_framework.Json.Grammar.{Json, string, object, Fields, no_field, field}
use parser_framework.Json.{append_indent, escape_json_string}
use parser_framework.Render.Blocks.{
  Renderable, IsText, IsBlock, quote-IsText, IsField-Plain, IsField-quote, Entries, no_entry, entry,
  append_fields, Entries-append, entry_lines-IsBlock, object-IsText,
}
use parser_framework.Render.Ordered.{
  names, OptionRenderable, Ordered, ordered, AllOrdered, one_ordered,
}
use parser_framework.Render.{
  RenderNode, node, Children, no_child, child, quote, string_entry, raw_entry, child_entries,
  value_or_empty, object_children, render_node_as_json, render_children, render_object_children,
}

-- A value beside children stands under the name `raw`.
abbrev pub raw_field : Option Str → Fields
raw_field none = no_field
raw_field (some value) = field (codes "raw") (string value) no_field

-- The JSON value that a node stands for.
abbrev mutual
  pub doc_of : RenderNode → Json
  doc_of (node value order no_child) = string (value_or_empty value)
  doc_of (node value order (child key first rest)) =
      object (append_fields (raw_field value) (fields_of (child key first rest)))

  pub fields_of : Children → Fields
  fields_of no_child = no_field
  fields_of (child key value rest) = field key (doc_of value) (fields_of rest)

abbrev pub node_fields : RenderNode → Fields
node_fields (node value order children) = append_fields (raw_field value) (fields_of children)

child_entries_other :
    (order : List Str) (key text : Str) (rendered : Map Str) (depth : ℕ)
    → contains order key ≡ false
    → child_entries order ((key, text) ∷ rendered) depth ≡ child_entries order rendered depth
unfolding child_entries lookup contains
child_entries_other [] key text rendered depth h = refl
child_entries_other (name ∷ order) key text rendered depth h = ground (
  arith,
  child_entries_other order key text rendered depth,
  str_eq_iff name key,
  str_eq_iff key name,
  h,
)

-- The first child is the first entry, and is looked up by no other.
child_entries_first :
    (order : List Str) (key text : Str) (rendered : Map Str) (depth : ℕ)
    → contains order key ≡ false
    → child_entries (key ∷ order) ((key, text) ∷ rendered) depth
      ≡ (append_indent depth ++ (quote key ++ (codes ": " ++ text)))
        ∷ child_entries order rendered depth
unfolding child_entries lookup
child_entries_first order key text rendered depth h =
    ground (arith, str_eq_refl key, child_entries_other order key text rendered depth h)

raw-Entries :
    (value : Option Str) (depth : ℕ)
    → OptionRenderable value
    → Entries (raw_field value) (raw_entry value depth)
unfolding string_entry raw_entry escape_json_string
raw-Entries none depth h = no_entry
raw-Entries (some value) depth h =
    entry _ _ _ no_field []
      (IsField-Plain depth (codes "raw") (string value) (quote value) (refl, refl)
        (quote-IsText value h))
      no_entry

value-Renderable : (value : Option Str) → OptionRenderable value → Renderable (value_or_empty value)
value-Renderable none h = refl
value-Renderable (some value) h = h

mutual
  unfolding render_node_as_json render_children object_children

  pub node-IsText :
      (n : RenderNode) → Ordered n → (depth : ℕ) → IsText (doc_of n) (render_node_as_json n depth)
  node-IsText _ (ordered value no_child v d a) depth =
      quote-IsText (value_or_empty value) (value-Renderable value v)
  node-IsText _ (ordered value (child key first rest) v d a) depth = object-IsText depth _ _ (
      entry_lines-IsBlock _ _ (
        Entries-append _ _ _ _ (raw-Entries value (suc depth) v)
          (children-Entries (child key first rest) a d (suc depth))))

  pub children-Entries :
      (children : Children)
      → AllOrdered children
      → Distinct (names children)
      → (depth : ℕ)
      → Entries
          (fields_of children)
          (child_entries (names children) (render_children children depth) depth)
  children-Entries no_child a d depth = no_entry
  children-Entries (child key value rest) (one_ordered _ _ _ k v a) d depth =
      rw
        (child_entries_first (names rest) key (render_node_as_json value depth)
          (render_children rest depth) depth d.0)
        (entry key (doc_of value) _ (fields_of rest) _
          (IsField-quote depth key (doc_of value) (render_node_as_json value depth) k
            (node-IsText value v depth))
          (children-Entries rest a d.1 depth))

-- The lines of a tree are the fields of its root.
pub render_object_children-IsBlock :
    (n : RenderNode)
    → Ordered n
    → (depth : ℕ) → IsBlock (node_fields n) (render_object_children n depth)
unfolding render_object_children object_children
render_object_children-IsBlock _ (ordered value children v d a) depth =
    entry_lines-IsBlock _ _
      (Entries-append _ _ _ _ (raw-Entries value depth v) (children-Entries children a d depth))
