-- ===== src/Tests/Render.antt =====
-- Small results, findings and bundles through the renderers.
use parser_framework.Base.{
  ◌≡◌, refl, List, [], ◌∷◌, ◌++◌, none, some, Str, str_eq, codes, true, contains, lookup,
}
use parser_framework.Ingestion.{LogCollection, IngestionBundle, no_attribution}
use parser_framework.Json.Embedded.{indent_embedded_json, indent_embedded_json-Reads}
use parser_framework.Json.Grammar.{Reads}
use parser_framework.Json.{escape_json_string}
use parser_framework.Pipeline.{BundleProcessingResult}
use parser_framework.Render.BundleReads.{CollectionRenderable, BundleRenderable}
use parser_framework.Render.Documents.{ResultRenderable, results_doc}
use parser_framework.Render.Found.{value_at, build_render_tree-first}
use parser_framework.Render.Order.{order_at, parts_below, build_render_tree-order_at}
use parser_framework.Render.Processing.{render_bundle_processing_result_as_json}
use parser_framework.Render.ProcessingReads.{
  ProcessingRenderable, processing_doc, render_bundle_processing_result_as_json-Reads,
}
use parser_framework.Render.Readable.{render_results_as_json-Reads}
use parser_framework.Render.ReportDocuments.{
  FindingRenderable, reports_doc, render_reports_as_json-Reads,
}
use parser_framework.Render.Reports.{render_reports_as_json}
use parser_framework.Render.Results.{build_render_tree, render_results_as_json}
use parser_framework.Render.{segments}
use parser_framework.Report.Types.{ReportFinding}
use parser_framework.Tests.Data.{finding_one, finding_two}
use parser_framework.Types.{Token, ParseResult, empty_result}

abbrev token : Str → Str → Token
token name value = record {
  name = name;
  value = value;
  section = codes "s";
  source_engine = codes "kv";
  path = name;
  start = 0;
  end = 0;
}

abbrev result : ParseResult
result = record empty_result {
  matched = true;
  message_rule_id = codes "r";
  message_rule_name = codes "R";
  token_extraction = codes "x" ∷ codes "y" ∷ [];
  event_name = codes "e";
  event_pattern_id = codes "p";
  tokens =
      token (codes "a.b") (codes "1")
      ∷ token (codes "a.b") (codes "2")
      ∷ token (codes "a.c") (codes "3")
      ∷ [];
  properties = (codes "q", codes "\"") ∷ [];
  errors = codes "oh\n" ∷ [];
}

result-Renderable : ResultRenderable result
result-Renderable = record {
  message_rule_id = refl;
  message_rule_name = refl;
  token_extraction = (refl, (refl, tt));
  event_name = refl;
  event_pattern_id = refl;
  tokens = ((refl, refl), ((refl, refl), ((refl, refl), tt)));
  properties = ((refl, refl), tt);
  errors = (refl, tt);
}

empty-Renderable : ResultRenderable empty_result
empty-Renderable = record {
  message_rule_id = refl;
  message_rule_name = refl;
  token_extraction = tt;
  event_name = refl;
  event_pattern_id = refl;
  tokens = tt;
  properties = tt;
  errors = tt;
}

build_render_tree-first_example :
    value_at (segments (codes "a.b")) (build_render_tree result) ≡ some (codes "1")
unfolding str_eq
build_render_tree-first_example = build_render_tree-first result (codes "a.b")

build_render_tree-order_at_example :
    order_at (codes "a" ∷ []) (build_render_tree result) ≡ codes "b" ∷ codes "c" ∷ []
unfolding parts_below segments str_eq contains
build_render_tree-order_at_example = build_render_tree-order_at result (codes "a" ∷ [])

render_results_as_json-Reads_example :
    Reads
      (results_doc (result ∷ empty_result ∷ []))
      (render_results_as_json (result ∷ empty_result ∷ []))
      []
render_results_as_json-Reads_example =
    render_results_as_json-Reads (result ∷ empty_result ∷ [])
      (result-Renderable, (empty-Renderable, tt))

-- A value beside a name below it, in the text.
raw_text :
    render_results_as_json (
      record empty_result {
        matched = true;
        tokens = token (codes "a") (codes "1") ∷ token (codes "a.raw") (codes "2") ∷ [];
      }
      ∷ [])
    ≡ codes
        "{\n  \"parsed\": [\n    {\n      \"rule\": {\n        \"id\": \"\",\n        \"name\": \"\",\n        \"token_extraction\": []\n      },\n      \"event\": {\n        \"name\": \"\",\n        \"pattern_id\": \"\"\n      },\n      \"tokens\": {\n        \"a\": {\n          \"raw\": \"1\",\n          \"raw\": \"2\"\n        }\n      }\n    }\n  ]\n}"
unfolding render_results_as_json str_eq contains escape_json_string lookup
raw_text = refl

abbrev findings : List ReportFinding
findings = finding_one ∷ finding_two ∷ []

one-Renderable : FindingRenderable finding_one
one-Renderable = record {
  id = refl;
  name = refl;
  source = record { message_rule_id = refl; message_rule_name = refl; event_name = refl };
  sources = (record { message_rule_id = refl; message_rule_name = refl; event_name = refl }, tt);
  properties = ((refl, refl), ((refl, refl), ((refl, refl), tt)));
}

two-Renderable : FindingRenderable finding_two
two-Renderable = record {
  id = refl;
  name = refl;
  source = record { message_rule_id = refl; message_rule_name = refl; event_name = refl };
  sources = (record { message_rule_id = refl; message_rule_name = refl; event_name = refl }, tt);
  properties = ((refl, refl), ((refl, refl), ((refl, refl), tt)));
}

render_reports_as_json-Reads_example :
    Reads (reports_doc findings) (render_reports_as_json findings) []
render_reports_as_json-Reads_example =
    render_reports_as_json-Reads findings (one-Renderable, (two-Renderable, tt))

abbrev small_collection : LogCollection
small_collection = record {
  id = codes "id";
  name = codes "n";
  system_id = [];
  network_id = [];
  site_id = [];
  log_type = codes "l";
  format = codes "f";
  classification = codes "c";
  observed_start = codes "1";
  observed_end = codes "2";
  attribution = no_attribution;
  tags = codes "tag" ∷ [];
  records = codes "ab\t" ∷ codes "\"" ∷ [];
}

-- A bundle with one collection.
abbrev small_bundle : IngestionBundle
small_bundle = record {
  schema_version = codes "1";
  bundle_id = codes "b";
  produced_at = codes "now";
  producer = record {
    component_id = codes "c";
    component_type = codes "t";
    organisation_id = [];
    region = [];
  };
  storage = record {
    backend = codes "m";
    database = codes "d";
    bundle_collection = codes "x";
    result_collection = codes "y";
  };
  organizations = [];
  sites = [];
  networks = [];
  systems = [];
  collections = small_collection ∷ [];
}

small_collection-Renderable : CollectionRenderable small_collection
small_collection-Renderable = record {
  texts = (refl, (refl, (refl, (refl, (refl, (refl, (refl, (refl, (refl, (refl, tt))))))))));
  attribution = record {
    owner_org_ids = tt;
    operator_org_ids = tt;
    tenant_org_ids = tt;
    provider_org_ids = tt;
  };
  tags = (refl, tt);
  records = (refl, (refl, tt));
}

small-Renderable : BundleRenderable small_bundle
small-Renderable = record {
  texts = (refl, (refl, (refl, tt)));
  producer = (refl, (refl, (refl, (refl, tt))));
  storage = (refl, (refl, (refl, (refl, tt))));
  organizations = tt;
  sites = tt;
  networks = tt;
  systems = tt;
  collections = (small_collection-Renderable, tt);
}

abbrev processed : BundleProcessingResult
processed = record {
  bundle = small_bundle;
  collections =
      record {
        collection = small_collection;
        system = none;
        network = none;
        site = none;
        parsed = result ∷ [];
      }
      ∷ [];
  reports = findings;
}

processed-Renderable : ProcessingRenderable processed
processed-Renderable = record {
  bundle = small-Renderable;
  collections = (
    record {
      collection = small_collection-Renderable;
      system = tt;
      network = tt;
      site = tt;
      parsed = (result-Renderable, tt);
    },
    tt,
  );
  reports = (one-Renderable, (two-Renderable, tt));
}

render_bundle_processing_result_as_json-Reads_example :
    Reads (processing_doc processed) (render_bundle_processing_result_as_json processed) []
render_bundle_processing_result_as_json-Reads_example =
    render_bundle_processing_result_as_json-Reads processed processed-Renderable

indent_embedded_json-Reads_example :
    Reads
      (results_doc (result ∷ []))
      (indent_embedded_json (render_results_as_json (result ∷ [])) 3 ++ codes "\n}")
      (codes "\n}")
indent_embedded_json-Reads_example =
    indent_embedded_json-Reads (results_doc (result ∷ [])) (render_results_as_json (result ∷ [])) 3
      (render_results_as_json-Reads (result ∷ []) (result-Renderable, tt)) (codes "\n}")
