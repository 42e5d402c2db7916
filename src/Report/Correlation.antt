-- ===== src/Report/Correlation.antt =====
-- `correlate_findings` of src/ReportAnalyzer.cpp.
use Prim.Native.Nat.{Ordering}
use parser_framework.Base.{
  Bool, true, false, not, ◌&&◌, List, [], ◌∷◌, ◌++◌, Option, none, some, if◌then◌else◌, ltb,
  is_empty, length, Str, codes, str_eq, contains, compare_str, to_string, Map, lookup, assign,
}
use parser_framework.Report.Types.{ReportSource, CorrelationRule, ReportFinding}

-- A set of systems serves membership and size, and is the list of its members.
pub record Group : Type 0 where
  pub source_ip : Str
  pub family : Str
  pub findings : List ReportFinding
  pub systems_in_order : List Str
  pub systems : List Str

abbrev pub empty_group : Group
empty_group = record {
  source_ip = [];
  family = [];
  findings = [];
  systems_in_order = [];
  systems = [];
}

abbrev pub Key : Type 0
Key = Str × Str

-- The order of `std::pair`.
unfoldable pub compare_key : Key → Key → Ordering
compare_key (a, b) (c, d) = elim (compare_str a c) [
  | Ordering.eq ↦ compare_str b d
  | Ordering.lt ↦ Ordering.lt
  | Ordering.gt ↦ Ordering.gt
]

unfoldable pub key_eq : Key → Key → Bool
key_eq (a, b) (c, d) = str_eq a c && str_eq b d

-- The group of a key in the map.
unfoldable pub find_group : Key → List (Key × Group) → Option Group
unfolding key_eq
find_group key [] = none
find_group key ((k, group) ∷ rest) = if key_eq k key then some group else find_group key rest

-- The map, in the order of its keys, with the group of one key set.
unfoldable pub assign_group : Key → Group → List (Key × Group) → List (Key × Group)
unfolding compare_key
assign_group key group [] = (key, group) ∷ []
assign_group key group ((k, old) ∷ rest) = elim (compare_key key k) [
  | Ordering.lt ↦ (key, group) ∷ (k, old) ∷ rest
  | Ordering.eq ↦ (key, group) ∷ rest
  | Ordering.gt ↦ (k, old) ∷ assign_group key group rest
]

abbrev pub or_empty_group : Option Group → Group
or_empty_group none = empty_group
or_empty_group (some group) = group

-- `Group& group = groups[key]`, changed by `change`.
unfoldable pub update : Key → (Group → Group) → List (Key × Group) → List (Key × Group)
unfolding assign_group find_group
update key change groups = assign_group key (change (or_empty_group (find_group key groups))) groups

-- `if (systems.insert(system).second) systems_in_order.push_back(system);` and the lines above it.
unfoldable pub add_to_group : Key → Str → ReportFinding → Group → Group
add_to_group (source_ip, family) system finding group =
    let is_new = not (contains group.systems system) in
    record {
      source_ip = source_ip;
      family = family;
      findings = group.findings ++ finding ∷ [];
      systems_in_order =
          if is_new then group.systems_in_order ++ system ∷ [] else group.systems_in_order;
      systems = if is_new then group.systems ++ system ∷ [] else group.systems;
    }

-- The three properties that a finding is grouped by: `source.ip`, `attack.family` and `system`.
unfoldable pub group_key : ReportFinding → Option (Key × Str)
group_key finding = elim (lookup (codes "source.ip") finding.properties) [
  | none ↦ none
  | some source_ip ↦ elim (lookup (codes "attack.family") finding.properties) [
    | none ↦ none
    | some family ↦ elim (lookup (codes "system") finding.properties) [
      | none ↦ none
      | some system ↦ some ((source_ip, family), system)
    ]
  ]
]

abbrev pub add_keyed : Option (Key × Str) → ReportFinding → List (Key × Group) → List (Key × Group)
add_keyed none finding groups = groups
add_keyed (some (key, system)) finding groups = update key (add_to_group key system finding) groups

-- The loop over the findings.
unfoldable pub group_findings : List ReportFinding → List (Key × Group) → List (Key × Group)
unfolding group_key add_to_group update
group_findings [] groups = groups
group_findings (finding ∷ rest) groups =
    group_findings rest (add_keyed (group_key finding) finding groups)

unfoldable pub all_present : List Str → List Str → Bool
all_present systems [] = true
all_present systems (required ∷ rest) = contains systems required && all_present systems rest

-- The three tests that let a rule fire on a group.
unfoldable pub fires : CorrelationRule → Group → Bool
unfolding all_present
fires rule group =
    str_eq group.family rule.family
    && not (ltb (length group.systems) rule.min_distinct_systems)
    && all_present group.systems rule.systems

abbrev pub source_key : ReportSource → Str
source_key source =
    source.message_rule_id
    ++ (codes "\n" ++ (source.message_rule_name ++ (codes "\n" ++ source.event_name)))

-- The sources whose key is new, and the keys seen behind them.
unfoldable pub new_sources : List Str → List ReportSource → List ReportSource × List Str
new_sources seen [] = ([], seen)
new_sources seen (source ∷ rest) =
    let known = contains seen (source_key source) in
    let (later, seen') = new_sources (if known then seen else source_key source ∷ seen) rest in
    (if known then later else source ∷ later, seen')

unfoldable pub merge_sources : List Str → List ReportFinding → List ReportSource
unfolding new_sources
merge_sources seen [] = []
merge_sources seen (finding ∷ rest) =
    let (sources, seen') = new_sources seen finding.sources in sources ++ merge_sources seen' rest

-- `join_values`: the flag tells that a value stands before.
unfoldable pub join_from : Bool → List Str → Str
join_from behind [] = []
join_from behind (value ∷ rest) =
    (if behind then codes ", " else []) ++ (value ++ join_from true rest)

unfoldable pub join_values : List Str → Str
unfolding join_from
join_values values = join_from false values

abbrev pub or_text : Str → Option Str → Str
or_text def none = def
or_text def (some value) = value

-- `if (first.properties.count(name) != 0) properties[name] = first.properties.at(name);`
unfoldable pub copy_property : Str → Map Str → Map Str → Map Str
copy_property name source properties = elim (lookup name source) [
  | none ↦ properties
  | some value ↦ assign name value properties
]

unfoldable pub summary_of : Group → Str
unfolding join_values
summary_of group =
    codes "Observed "
    ++ (group.family
        ++ (codes " activity from "
            ++ (group.source_ip ++ (codes " across " ++ join_values group.systems_in_order))))

-- The assignments in the order of the source, the first innermost.
unfoldable pub correlated_properties : ReportFinding → Group → Map Str
unfolding copy_property join_values summary_of
correlated_properties first group =
    let named = assign (codes "attack.family") group.family (
      assign (codes "source.ip") group.source_ip (
        assign (codes "system") (codes "multi_system") (
          assign (codes "phase")
            (or_text (codes "initial_access") (lookup (codes "phase") first.properties))
            (assign (codes "event") (codes "multi_system_breach_attempt") [])))) in
    let copied = copy_property (codes "tactic.id") first.properties (
      copy_property (codes "technique.id") first.properties
        (copy_property (codes "attack.name") first.properties named)) in
    assign (codes "outcome") (codes "observed") (
      assign (codes "summary") (summary_of group) (
        assign (codes "evidence.count") (to_string (length group.findings)) (
          assign (codes "systems.names") (join_values group.systems_in_order)
            (assign (codes "systems.count") (to_string (length group.systems)) copied))))

-- `*group.findings.front()`; `none` is the fault on a group of no findings.
abbrev pub front : List ReportFinding → Option ReportFinding
front [] = none
front (first ∷ rest) = some first

unfoldable pub correlated_finding : CorrelationRule → ReportFinding → Group → ReportFinding
unfolding correlated_properties merge_sources
correlated_finding rule first group = record {
  id = rule.id;
  name = rule.name;
  message_rule_id = first.message_rule_id;
  message_rule_name = first.message_rule_name;
  event_name = first.event_name;
  sources = merge_sources [] group.findings;
  properties = correlated_properties first group;
}

abbrev pub push_front :
    Option ReportFinding
    → CorrelationRule
    → Group
    → Option (List ReportFinding)
    → Option (List ReportFinding)
push_front (some first) rule group (some later) = some (correlated_finding rule first group ∷ later)
push_front _ _ _ _ = none

-- The loop over the groups, for one rule.
unfoldable pub correlate_groups : CorrelationRule → List (Key × Group) → Option (List ReportFinding)
unfolding fires correlated_finding
correlate_groups rule [] = some []
correlate_groups rule ((key, group) ∷ rest) =
    let later = correlate_groups rule rest in
    if fires rule group then push_front (front group.findings) rule group later else later

abbrev pub append? :
    Option (List ReportFinding) → Option (List ReportFinding) → Option (List ReportFinding)
append? (some xs) (some ys) = some (xs ++ ys)
append? _ _ = none

unfoldable pub correlate_rules :
    List CorrelationRule → List (Key × Group) → Option (List ReportFinding)
unfolding correlate_groups
correlate_rules [] groups = some []
correlate_rules (rule ∷ rest) groups =
    append? (correlate_groups rule groups) (correlate_rules rest groups)

unfoldable pub correlate_findings :
    List ReportFinding → List CorrelationRule → Option (List ReportFinding)
unfolding correlate_rules group_findings
correlate_findings findings rules =
    if is_empty rules then some [] else correlate_rules rules (group_findings findings [])
