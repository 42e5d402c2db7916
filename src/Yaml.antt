-- ===== src/Yaml.antt =====
-- What the program takes from the YAML library, over its type of nodes.
use parser_framework.Base.{ℕ, Bool, Option, List, Str, Result}

pub record Yaml (Node : Type 0) : Type 0 where
  -- `YAML::LoadFile(path)`
  pub load_file : Str → Result Node
  -- `node[field]` on a constant node: the node there, if it is defined.
  pub child : Node → Str → Result (Option Node)
  pub is_sequence : Node → Bool
  pub is_map : Node → Bool
  -- The nodes that a loop over the node goes through.
  pub items : Node → List Node
  -- `it->first` and `it->second` of a loop over the node, which is a map.
  pub entries : Node → List (Node × Node)
  -- `node.as<std::string>()`, `node.as<std::size_t>()`, `node.as<bool>()`
  pub as_string : Node → Result Str
  pub as_size : Node → Result ℕ
  pub as_bool : Node → Result Bool
  -- `what()` of the exception that the use of `node[field]` throws where nothing is defined.
  pub invalid_node : Str → Str
  -- What a variable of type `YAML::Node` refers to after `variable = node[field]`, or what that throws.
  pub assigned : Str → Option Node → Result (Option Node)
