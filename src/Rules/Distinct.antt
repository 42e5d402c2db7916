-- ===== src/Rules/Distinct.antt =====
-- The messages that `load_example_messages` of src/RuleLoader.cpp collects.
use parser_framework.Base.{
  not, List, [], ◌∷◌, ◌++◌, ◌≡◌, if-cases, Str, contains, Distinct, Distinct-concat, ok, Ensures,
  Ensures-ok, Ensures-bind, Ensures-check,
}
use parser_framework.Messages.{Files}
use parser_framework.Rules.Files.{
  rules_path, file_nodes, add_message, collect_example, collect_definition,
  collect_example_messages_from_file, load_example_messages,
}
use parser_framework.Rules.Loaded.{for_each-Ensures, for_each_rule_file-Ensures}
use parser_framework.Rules.Paths.{load_example_message}
use parser_framework.Yaml.{Yaml}

module _ {Node : Type 0} (yaml : Yaml Node) (files : Files) where
  add_message-Distinct :
      (message : Str) (messages : List Str)
      → Distinct messages
      → Distinct (add_message yaml files message messages)
  unfolding add_message
  add_message-Distinct message messages h =
      if-cases Distinct (contains messages message) messages (messages ++ message ∷ []) (λ _. h)
        (λ absent. Distinct-concat messages message h absent)

  collect_example-Distinct :
      (file : Str) (example : Node) (messages : List Str)
      → Distinct messages
      → Ensures Distinct (collect_example yaml files file example messages)
  unfolding collect_example
  collect_example-Distinct file example messages h =
      Ensures-bind (load_example_message files yaml example _) _
        λ message. Ensures-ok _ (add_message-Distinct message messages h)

  collect_definition-Distinct :
      (file : Str) (message_node : Node) (messages : List Str)
      → Distinct messages
      → Ensures Distinct (collect_definition yaml files file message_node messages)
  unfolding collect_definition
  collect_definition-Distinct file message_node messages h =
      Ensures-bind (yaml.child message_node _) _
        λ examples. for_each-Ensures Distinct _ (collect_example-Distinct file) _ messages h

  collect_file-Distinct :
      (file : Str) (messages : List Str)
      → Distinct messages
      → Ensures Distinct (collect_example_messages_from_file yaml files file messages)
  unfolding collect_example_messages_from_file
  collect_file-Distinct file messages h = Ensures-bind (file_nodes yaml file _) _ λ definitions.
      for_each-Ensures Distinct _ (collect_definition-Distinct file) definitions messages h

  messages-Distinct : (path : Str) → Ensures Distinct (load_example_messages yaml files path)
  unfolding load_example_messages
  messages-Distinct path =
      Ensures-check (not (files.exists path)) _ _
        λ _. for_each_rule_file-Ensures files Distinct rules_path _ collect_file-Distinct path [] tt

  -- No message of an example is collected twice, in all the files.
  pub load_example_messages-Distinct :
      (path : Str) (messages : List Str)
      → load_example_messages yaml files path ≡ ok messages
      → Distinct messages
  load_example_messages-Distinct path messages e = (messages-Distinct path).at messages e
