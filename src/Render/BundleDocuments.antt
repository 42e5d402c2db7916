-- ===== src/Render/BundleDocuments.antt =====
-- The parts of what `render_bundle_as_json` of src/IngestionBundle.cpp writes, read as JSON.
use parser_framework.Base.{
  ℕ, suc, Bool, true, ◌&&◌, List, [], ◌∷◌, ◌++◌, ◌≡◌, refl, append_assoc, and-eq-true, str_eq,
  str_eq_iff, Str, codes, All,
}
use parser_framework.Ingestion.{Attribution, OrganizationMetadata}
use parser_framework.Json.Grammar.{
  Json, string, array, object, Fields, no_field, field, stay, skip, ReadsField, reads_field,
}
use parser_framework.Json.Reader.{is_renderable}
use parser_framework.Json.{append_indent, escape_json_string}
use parser_framework.Render.Arrays.{ReadsElement, element, strings, row-IsText, IsElement}
use parser_framework.Render.Blocks.{
  Renderable, Plain, IsField, Entries, no_entry, entry, append_fields, Entries-append, indent-White,
  read-Plain, IsField-Plain, string_line-IsField, entry_lines-IsBlock, object-IsText,
}
use parser_framework.Render.Bundles.{
  string_lines, render_string_array, named_line, array_line, object_lines, render_attribution,
  render_tags, organization_strings, attribution_line, render_organization,
}

abbrev pub ValueRenderable : Str × Str → Type 0
ValueRenderable (name, text) = Renderable text

abbrev pub all_plain : List (Str × Str) → Bool
all_plain [] = true
all_plain ((name, text) ∷ rest) =
    (str_eq (escape_json_string name) name && is_renderable name) && all_plain rest

abbrev pub string_fields : List (Str × Str) → Fields
string_fields [] = no_field
string_fields ((name, text) ∷ rest) = field name (string text) (string_fields rest)

pub string_lines-Entries :
    (depth : ℕ) (pairs : List (Str × Str))
    → all_plain pairs ≡ true
    → All ValueRenderable pairs
    → Entries (string_fields pairs) (string_lines depth pairs)
unfolding string_lines
string_lines-Entries depth [] p h = no_entry
string_lines-Entries depth ((name, text) ∷ rest) p h =
    let plain = and-eq-true _ _ (and-eq-true _ _ p).0 in
    entry name _ _ _ _
      (string_line-IsField depth name text ((str_eq_iff _ name).0 plain.0, plain.1) h.0)
      (string_lines-Entries depth rest (and-eq-true _ _ p).1 h.1)

pub array_line-IsField :
    (depth : ℕ) (name : Str) (values : List Str)
    → Plain name
    → All Renderable values
    → IsField name (array (strings values)) (array_line (suc depth) name values)
unfolding array_line named_line render_string_array
array_line-IsField depth name values plain h =
    IsField-Plain (suc depth) name _ _ plain (row-IsText values h)

-- An object behind the spaces of its depth.
pub object_lines-IsElement :
    (depth : ℕ) (fields : Fields) (entries : List Str)
    → Entries fields entries
    → IsElement (object fields) (object_lines depth entries)
unfolding object_lines
object_lines-IsElement depth fields entries h = record {
  at = λ rest. rw (append_assoc (append_indent depth)) (
      element _ _ _ rest (indent-White depth _ _ (stay _))
        ((object-IsText depth fields _ (entry_lines-IsBlock fields entries h)).at rest));
}

pub record AttributionRenderable (a : Attribution) : Type 0 where
  pub owner_org_ids : All Renderable a.owner_org_ids
  pub operator_org_ids : All Renderable a.operator_org_ids
  pub tenant_org_ids : All Renderable a.tenant_org_ids
  pub provider_org_ids : All Renderable a.provider_org_ids

abbrev pub attribution_fields : Attribution → Fields
attribution_fields a = field (codes "owner_org_ids") (array (strings a.owner_org_ids)) (
    field (codes "operator_org_ids") (array (strings a.operator_org_ids)) (
      field (codes "tenant_org_ids") (array (strings a.tenant_org_ids))
        (field (codes "provider_org_ids") (array (strings a.provider_org_ids)) no_field)))

attribution-IsElement :
    (a : Attribution) (depth : ℕ)
    → AttributionRenderable a
    → IsElement (object (attribution_fields a)) (render_attribution a depth)
unfolding render_attribution escape_json_string
attribution-IsElement a depth h = object_lines-IsElement depth _ _ (
    entry _ _ _ _ _
      (array_line-IsField depth (codes "owner_org_ids") _ (refl, refl) h.owner_org_ids)
      (entry _ _ _ _ _
        (array_line-IsField depth (codes "operator_org_ids") _ (refl, refl) h.operator_org_ids)
        (entry _ _ _ _ _
          (array_line-IsField depth (codes "tenant_org_ids") _ (refl, refl) h.tenant_org_ids)
          (entry _ _ _ _ _
            (array_line-IsField depth (codes "provider_org_ids") _ (refl, refl) h.provider_org_ids)
            no_entry))))

named :
    (depth : ℕ) (name : Str) (j : Json) (t rest : Str)
    → Plain name
    → ReadsElement j t rest
    → ReadsField name j (append_indent depth ++ (b'"' ∷ (name ++ (codes "\": " ++ t)))) rest
named depth name j t rest plain (element _ _ t1 _ w h) =
    reads_field name j _ _ _ _ _ rest (indent-White depth _ _ (stay _)) (read-Plain name plain _)
      (stay _) (skip _ _ _ refl w) h

-- A name, and a value with white space before it.
element-IsField :
    (depth : ℕ) (name : Str) (j : Json) (text : Str)
    → Plain name
    → IsElement j text
    → IsField name j (named_line depth name text)
unfolding named_line
element-IsField depth name j text plain h = record {
  at = λ rest.
      rw (append_assoc (append_indent depth))
        (rw (append_assoc name) (named depth name j (text ++ rest) rest plain (h.at rest)));
}

pub attribution-IsField :
    (a : Attribution) (depth : ℕ)
    → AttributionRenderable a
    → IsField (codes "attribution") (object (attribution_fields a)) (attribution_line depth a)
unfolding escape_json_string
attribution-IsField a depth h =
    element-IsField depth (codes "attribution") _ _ (refl, refl) (attribution-IsElement a depth h)

pub tags-IsField :
    (tags : List Str)
    → All Renderable tags
    → IsField (codes "tags") (array (strings tags)) (render_tags tags 3)
unfolding render_tags escape_json_string
tags-IsField tags h = array_line-IsField 2 (codes "tags") tags (refl, refl) h

abbrev pub tags_field : List Str → Fields → Fields
tags_field tags more = field (codes "tags") (array (strings tags)) more

abbrev pub attribution_field : Attribution → Fields → Fields
attribution_field a more = field (codes "attribution") (object (attribution_fields a)) more

pub record OrganizationRenderable (o : OrganizationMetadata) : Type 0 where
  pub texts : All ValueRenderable (organization_strings o)
  pub tags : All Renderable o.tags

abbrev pub organization_doc : OrganizationMetadata → Json
organization_doc o =
    object (append_fields (string_fields (organization_strings o)) (tags_field o.tags no_field))

pub organization-IsElement :
    (o : OrganizationMetadata)
    → OrganizationRenderable o
    → IsElement (organization_doc o) (render_organization o)
unfolding render_organization escape_json_string str_eq
organization-IsElement o h = object_lines-IsElement 2 _ _ (
    Entries-append _ _ _ _ (string_lines-Entries 3 (organization_strings o) refl h.texts)
      (entry _ _ _ _ _ (tags-IsField o.tags h.tags) no_entry))
