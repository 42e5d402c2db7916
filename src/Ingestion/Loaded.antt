-- ===== src/Ingestion/Loaded.antt =====
-- What a bundle that `load_bundle` returns is known to be.
use mathlib.Core.Path.{subst}
use parser_framework.Base.{
  List, [], ◌≡◌, ◌≢◌, Str, codes, ok, ◌>>=◌, throw_if, All, >>=-eq-ok, ok-injective, Ensures,
  Ensures-bind, collect-Ensures, is_empty,
}
use parser_framework.Ingestion.{LogCollection, IngestionBundle}
use parser_framework.Ingestion.Loader.{
  require_records, parse_collection, parse_inventory, parse_bundle, load_bundle, no_records,
}
use parser_framework.Ingestion.Validation.{validate_bundle}
use parser_framework.Ingestion.Meaning.{IsWellFormed}
use parser_framework.Ingestion.WellFormed.{validate_bundle_iff}
use parser_framework.Yaml.{Yaml}

abbrev pub HasRecords : LogCollection → Type 0
HasRecords c = c.records ≢ []

module _ {Node : Type 0} (yaml : Yaml Node) where
  records-Ensures : (c : LogCollection) → Ensures HasRecords (require_records yaml c)
  unfolding require_records
  records-Ensures c = record {
    at = λ d e.
        let (u, p, q) = >>=-eq-ok (throw_if (is_empty c.records) (no_records c.id)) _ e in
        subst HasRecords (ok-injective q) (λ n. cc (n, p));
  }

  collection-Ensures : (node : Node) → Ensures HasRecords (parse_collection yaml node)
  unfolding parse_collection
  collection-Ensures node = search (Ensures-bind, records-Ensures) depth 30

  inventory-Ensures :
      (root : Node) (field : Str)
      → Ensures (All HasRecords) (parse_inventory yaml (parse_collection yaml) root field)
  unfolding parse_inventory
  inventory-Ensures root field =
      search (Ensures-bind, collect-Ensures HasRecords (parse_collection yaml) collection-Ensures)

  abbrev pub AllHaveRecords : IngestionBundle → Type 0
  AllHaveRecords b = All HasRecords b.collections

  made-Ensures :
      (root : Node) (make : List LogCollection → IngestionBundle)
      → ((cs : List LogCollection) → (make cs).collections ≡ cs)
      → Ensures AllHaveRecords (
          parse_inventory yaml (parse_collection yaml) root (codes "collections") >>= λ cs.
          ok (make cs))
  made-Ensures root make h = record {
    at = λ b e.
        let (cs, p, q) = >>=-eq-ok (parse_inventory yaml (parse_collection yaml) root _) _ e in
        subst AllHaveRecords (ok-injective q)
          (rw (h cs) ((inventory-Ensures root (codes "collections")).at cs p));
  }

  bundle-Ensures : (root : Node) → Ensures AllHaveRecords (parse_bundle yaml root)
  unfolding parse_bundle
  bundle-Ensures root = search (made-Ensures, Ensures-bind) depth 30

  -- A bundle that the loader returns is well formed, and each of its collections has a record.
  pub load_bundle-IsWellFormed :
      (path : Str) {b : IngestionBundle}
      → load_bundle yaml path ≡ ok b
      → IsWellFormed b × AllHaveRecords b
  unfolding load_bundle
  load_bundle-IsWellFormed path e =
      let (root, p, q) = >>=-eq-ok (yaml.load_file path) _ e in
      let (b', r, t) = >>=-eq-ok (parse_bundle yaml root) _ q in
      let (u, v, w) = >>=-eq-ok (validate_bundle b') _ t in
      subst (λ b. IsWellFormed b × AllHaveRecords b) (ok-injective w)
        ((validate_bundle_iff b').0 v, (bundle-Ensures root).at b' r)
