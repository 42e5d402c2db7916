-- ===== src/Tests/Data.antt =====
-- Concrete libraries and values on which the theorems are applied.
use parser_framework.Base.{
  ℕ, ◌+◌, true, false, ◌||◌, List, [], ◌∷◌, ◌++◌, to_string, Option, none, some, if◌then◌else◌,
  ◌==◌, length, drop, Str, codes, find_str, negsuc, ok,
}
use parser_framework.Libraries.{Libraries}
use parser_framework.Types.{
  SectionKind, SectionSettings, SectionRule, section_rule, nil, cons, MessageRule,
}
use parser_framework.Report.Types.{CorrelationRule, ReportFinding}

-- The bytes of a pattern that are not parentheses.
abbrev literal : Str → Str
literal [] = []
literal (c ∷ rest) = if c == b'(' || c == b')' then literal rest else c ∷ literal rest

abbrev match_at : ℕ → Str → Option ℕ → Option (Str × ℕ)
match_at offset wanted none = none
match_at offset wanted (some i) = some (wanted, offset + (i + length wanted))

-- A regex library that finds the text of a pattern, a JSON library that finds nothing, and a compiler
-- that knows no property.
abbrev pub test_libraries : Libraries
test_libraries = record {
  regex_match = λ pattern type text offset.
      ok (match_at offset (literal pattern) (find_str (literal pattern) (drop offset text)));
  json_parse = λ text. negsuc 0;
  json_path = λ path. false;
  json_get = λ text path. ok none;
  substr_error = λ position size.
      codes "basic_string::substr: __pos (which is "
      ++ (to_string position
          ++ (codes ") > this->size() (which is " ++ (to_string size ++ codes ")")));
  evaluate_expression = λ expression tokens. ok [];
}

abbrev section_of : Str → SectionKind → Str → SectionSettings
section_of id kind locator = record {
  id = id;
  kind = kind;
  extract_name = [];
  ruleset_id = id;
  ruleset_name = id;
  locator_pattern = some locator;
  locator_group = 1;
  allow_multiple = true;
  declared_tokens = [];
  dynamic_properties = [];
  regex_tokens = record { name = codes "word"; pattern = codes "(ab)"; group = 1 } ∷ [];
  json_matches = [];
  json_tokens = [];
}

abbrev pub words : SectionSettings
words = section_of (codes "words") SectionKind.free_text (codes "(ab)")

abbrev pub word_section : SectionRule
word_section = section_rule words nil

-- A section of kind `MIXED` with one nested section.
abbrev pub mixed_section : SectionRule
mixed_section =
    section_rule (section_of (codes "outer") SectionKind.mixed (codes "(ab)"))
      (cons word_section nil)

abbrev rule_of : Str → Str → MessageRule
rule_of id pattern = record {
  id = id;
  name = id;
  filters = record { pattern = pattern; captures = [] } ∷ [];
  sections = word_section ∷ mixed_section ∷ [];
}

abbrev pub rule_x : MessageRule
rule_x = rule_of (codes "X") (codes "x")

abbrev pub rule_b : MessageRule
rule_b = rule_of (codes "B") (codes "b")

abbrev pub rule_a : MessageRule
rule_a = rule_of (codes "A") (codes "a")

abbrev pub test_rules : List MessageRule
test_rules = rule_x ∷ rule_b ∷ rule_a ∷ []

abbrev finding_from : Str → Str → ReportFinding
finding_from id system = record {
  id = id;
  name = id;
  message_rule_id = id;
  message_rule_name = id;
  event_name = id;
  sources = record { message_rule_id = id; message_rule_name = id; event_name = id } ∷ [];
  properties =
      (codes "attack.family", codes "ssh")
      ∷ (codes "source.ip", codes "10.0.0.1")
      ∷ (codes "system", system)
      ∷ [];
}

abbrev pub finding_one : ReportFinding
finding_one = finding_from (codes "one") (codes "web")

abbrev pub finding_two : ReportFinding
finding_two = finding_from (codes "two") (codes "db")

abbrev pub two_systems : CorrelationRule
two_systems = record {
  id = codes "breach";
  name = codes "Breach";
  family = codes "ssh";
  min_distinct_systems = 2;
  systems = codes "web" ∷ [];
}
