-- ===== src/Ingestion/Loader/Fields.antt =====
-- The readers of fields in src/IngestionBundle.cpp, from `require_node` to `parse_attribution`.
use parser_framework.Base.{
  not, List, [], ◌++◌, Option, none, some, Str, codes, Result, ok, err, ◌>>=◌, ◌>>◌, throw_if,
  collect,
}
use parser_framework.Ingestion.{Attribution, no_attribution}
use parser_framework.Yaml.{Yaml}

abbrev pub missing_field : Str → Str
missing_field field = codes "Missing required ingestion field [" ++ (field ++ codes "]")

abbrev pub no_field_sequence : Str → Str
no_field_sequence field =
    codes "Expected ingestion field [" ++ (field ++ codes "] to be a sequence")

module _ {Node : Type 0} (yaml : Yaml Node) where
  abbrev pub or_missing : Str → Option Node → Result Node
  or_missing field none = err (missing_field field)
  or_missing field (some child) = ok child

  unfoldable pub require_node : Node → Str → Result Node
  require_node node field = do found ← yaml.child node field; or_missing field found

  unfoldable pub require_string : Node → Str → Result Str
  unfolding require_node
  require_string node field = do child ← require_node node field; yaml.as_string child

  abbrev pub or_empty : Option Node → Result Str
  or_empty none = ok []
  or_empty (some child) = yaml.as_string child

  unfoldable pub optional_string : Node → Str → Result Str
  optional_string node field = do found ← yaml.child node field; or_empty found

  unfoldable pub strings_of : Str → Option Node → Result (List Str)
  unfolding collect
  strings_of field none = ok []
  strings_of field (some child) = do
    throw_if (not (yaml.is_sequence child)) (no_field_sequence field)
    collect yaml.as_string (yaml.items child)

  unfoldable pub parse_string_list : Node → Str → Result (List Str)
  unfolding strings_of
  parse_string_list node field = do found ← yaml.child node field; strings_of field found

  unfoldable pub attribution_of : Option Node → Result Attribution
  unfolding parse_string_list
  attribution_of none = ok no_attribution
  attribution_of (some attribution) = do
    owner_org_ids ← parse_string_list attribution (codes "owner_org_ids")
    operator_org_ids ← parse_string_list attribution (codes "operator_org_ids")
    tenant_org_ids ← parse_string_list attribution (codes "tenant_org_ids")
    provider_org_ids ← parse_string_list attribution (codes "provider_org_ids")
    ok (record {
      owner_org_ids = owner_org_ids;
      operator_org_ids = operator_org_ids;
      tenant_org_ids = tenant_org_ids;
      provider_org_ids = provider_org_ids;
    })

  unfoldable pub parse_attribution : Node → Result Attribution
  unfolding attribution_of
  parse_attribution node = do found ← yaml.child node (codes "attribution"); attribution_of found
