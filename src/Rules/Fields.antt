-- ===== src/Rules/Fields.antt =====
-- The readers of fields that the loaders of rules share.
use parser_framework.Base.{
  List, [], Option, none, some, if◌then◌else◌, Str, Result, ok, err, ◌>>=◌, collect,
}
use parser_framework.Yaml.{Yaml}

module _ {Node : Type 0} (yaml : Yaml Node) where
  abbrev pub or_invalid : Str → Option Node → Result Node
  or_invalid field none = err (yaml.invalid_node field)
  or_invalid field (some node) = ok node

  -- `node[field]`, where the node is used at once.
  unfoldable pub used : Node → Str → Result Node
  used node field = do found ← yaml.child node field; or_invalid field found

  -- `node[field].as<std::string>()`
  unfoldable pub text_at : Node → Str → Result Str
  unfolding used
  text_at node field = do found ← used node field; yaml.as_string found

  -- `node[outer][inner]`
  unfoldable pub nested : Node → Str → Str → Result (Option Node)
  unfolding used
  nested node outer inner = do found ← used node outer; yaml.child found inner

  abbrev pub when_there {ℓ} : {A : Type ℓ} → (Node → Result A) → A → Option Node → Result A
  when_there read def none = ok def
  when_there read def (some node) = read node

  -- `if (node[field]) variable = node[field].as<...>();`, where the variable holds `def`.
  unfoldable pub update_from : {A : Type 0} → (Node → Result A) → Node → Str → A → Result A
  update_from read node field def = do found ← yaml.child node field; when_there read def found

  -- Nothing, unless the node is there and is a sequence: `!node || !node.IsSequence()`.
  unfoldable pub sequence_of : {A : Type 0} → (Node → Result A) → Option Node → Result (List A)
  sequence_of read none = ok []
  sequence_of read (some node) =
      if yaml.is_sequence node then collect read (yaml.items node) else ok []

  -- Nothing, unless the node is there and is a map: `!node || !node.IsMap()`.
  unfoldable pub map_of : {A : Type 0} → (Str → Str → A) → Option Node → Result (List A)
  map_of make none = ok []
  map_of make (some node) =
      if yaml.is_map node
      then collect
          (λ (k, v). do key ← yaml.as_string k; value ← yaml.as_string v; ok (make key value))
          (yaml.entries node)
      else ok []
