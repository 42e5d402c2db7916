-- ===== src/Rules/Paths.antt =====
-- `resolve_message_path` and `load_example_message` of src/RuleLoader.cpp.
use parser_framework.Base.{
  ℕ, zero, suc, Option, none, some, if◌then◌else◌, is_empty, length, Str, codes, str_eq,
  is_absolute, join_path, parent_path, Result, err, ◌>>=◌,
}
use parser_framework.Messages.{Files, load_message_file}
use parser_framework.Yaml.{Yaml}

-- How the loop over the parents ends.
pub data Search : Type 0 where
  candidate : Str → Search
  not_found : Search
  out_of_fuel : Search

module _ (files : Files) where
  unfoldable pub resolve_loop : ℕ → Str → Str → Search
  resolve_loop zero input current = out_of_fuel
  resolve_loop (suc fuel) input current =
      let rest = resolve_loop fuel input (parent_path current) in
      if is_empty current
      then not_found
      else if files.exists (join_path current input)
      then candidate (join_path current input)
      else if str_eq (parent_path current) current
      then not_found
      else rest

  abbrev pub or_input : Str → Search → Str
  or_input input (candidate found) = found
  or_input input _ = input

  -- Each round takes a shorter path, so a round for each byte and one more are enough.
  unfoldable pub resolve_message_path : Str → Str → Str
  unfolding resolve_loop
  resolve_message_path base_dir reference =
      if is_absolute reference
      then reference
      else or_input reference (resolve_loop (suc (length base_dir)) reference base_dir)

  abbrev pub no_message : Str
  no_message = codes "Example is missing message or message_file"

  module _ {Node : Type 0} (yaml : Yaml Node) where
    -- What follows the test for a message.
    abbrev pub from_file : Str → Option Node → Result Str
    from_file base_dir none = err no_message
    from_file base_dir (some node) = do
      reference ← yaml.as_string node
      load_message_file files (resolve_message_path base_dir reference)

    abbrev pub message_or_file : Node → Str → Option Node → Result Str
    message_or_file node base_dir (some message) = yaml.as_string message
    message_or_file node base_dir none = do
      found ← yaml.child node (codes "message_file")
      from_file base_dir found

    unfoldable pub load_example_message : Node → Str → Result Str
    unfolding resolve_message_path
    load_example_message node base_dir = do
      found ← yaml.child node (codes "message")
      message_or_file node base_dir found
