-- ===== src/Tests/Documents.antt =====
-- Documents for the tests of the loaders.
use parser_framework.Base.{
  ℕ, ok-injective, suc, ◌+◌, ◌≤◌, ◌<◌, arith, In, In-cases, ap, inl, inr, Bool-cases, ◌≡◌, ◌++◌,
  Bool, true, false, List, [], ◌∷◌, Option, none, some, if◌then◌else◌, Str, codes, str_eq, Result,
  ok, err,
}
use parser_framework.Rules.Depth.{Heights}
use parser_framework.Yaml.{Yaml}

-- Documents of texts, sequences and tables.
mutual
  pub data Doc : Type 0 where
    text : Str → Doc
    sequence : Docs → Doc
    table : Docs → Doc

  pub data Docs : Type 0 where
    end : Docs
    item : Str → Doc → Docs → Docs

abbrev find_doc : Str → Docs → Option Doc
find_doc field end = none
find_doc field (item name doc rest) = if str_eq name field then some doc else find_doc field rest

abbrev list_docs : Docs → List Doc
list_docs end = []
list_docs (item name doc rest) = doc ∷ list_docs rest

abbrev child_doc : Doc → Str → Option Doc
child_doc (table fields) field = find_doc field fields
child_doc _ field = none

abbrev is_sequence_doc : Doc → Bool
is_sequence_doc (sequence docs) = true
is_sequence_doc _ = false

abbrev items_doc : Doc → List Doc
items_doc (sequence docs) = list_docs docs
items_doc _ = []

abbrev string_doc : Doc → Result Str
string_doc (text s) = ok s
string_doc _ = err (codes "bad conversion")

-- A table with only its name in each of the fields, and the rest.
abbrev pub field_texts : List Str → Docs → Docs
field_texts [] rest = rest
field_texts (name ∷ names) rest = item name (text name) (field_texts names rest)

abbrev is_table_doc : Doc → Bool
is_table_doc (table fields) = true
is_table_doc _ = false

abbrev pairs : Docs → List (Doc × Doc)
pairs end = []
pairs (item name doc rest) = (text name, doc) ∷ pairs rest

abbrev entries_doc : Doc → List (Doc × Doc)
entries_doc (table fields) = pairs fields
entries_doc _ = []

-- The library, where each file is a document.
abbrev pub yaml_of : (Str → Doc) → Yaml Doc
yaml_of files = record {
  load_file = λ path. ok (files path);
  child = λ node field. ok (child_doc node field);
  is_sequence = is_sequence_doc;
  is_map = is_table_doc;
  items = items_doc;
  entries = entries_doc;
  as_string = string_doc;
  as_size = λ node. err (codes "bad conversion");
  as_bool = λ node. err (codes "bad conversion");
  invalid_node = λ field. codes "invalid node; first invalid key: " ++ field;
  assigned = λ field found. ok found;
}

-- How many nodes there are, which decreases from a node to what is below it.
abbrev mutual
  size_doc : Doc → ℕ
  size_doc (text s) = 0
  size_doc (sequence docs) = suc (size_docs docs)
  size_doc (table docs) = suc (size_docs docs)

  size_docs : Docs → ℕ
  size_docs end = 0
  size_docs (item name doc rest) = size_doc doc + size_docs rest

size-item : (docs : Docs) (doc : Doc) → In doc (list_docs docs) → size_doc doc ≤ size_docs docs
size-item end doc i = elim i [ ]
size-item (item name first rest) doc i = elim (In-cases i) [
  | inl e ↦ rw e (omega arith)
  | inr j ↦ omega (arith, size-item rest doc j)
]

some-injective : {a b : Doc} → some a ≡ some b → a ≡ b
some-injective e = cc e

size-field :
    (field : Str) (docs : Docs) (doc : Doc)
    → find_doc field docs ≡ some doc
    → size_doc doc ≤ size_docs docs
size-field field end doc e = absurd (cc e)
size-field field (item name first rest) doc e = elim (Bool-cases (str_eq name field)) [
  | inl p ↦ omega (arith, ap size_doc (some-injective (rw p at e)))
  | inr p ↦ omega (arith, size-field field rest doc (rw p at e))
]

pub size-child :
    (node : Doc) (field : Str) (sequence child : Doc)
    → child_doc node field ≡ some sequence
    → In child (items_doc sequence)
    → size_doc child < size_doc node
size-child (text s) field found child e i = absurd (cc e)
size-child (sequence docs) field found child e i = absurd (cc e)
size-child (table docs) field (text s) child e i = elim i [ ]
size-child (table docs) field (table fields) child e i = elim i [ ]
size-child (table docs) field (sequence items) child e i =
    omega (arith, size-item items child i, size-field field docs (sequence items) e)

-- Every document is a tree.
abbrev pub heights_of : (files : Str → Doc) → Heights (yaml_of files)
heights_of files = record {
  height = size_doc;
  lower = λ node field sequence child e i. size-child node field sequence child (ok-injective e) i;
}
