-- ===== src/Tests/Kv.antt =====
-- A text of keys and values through src/KVParsingEngine.cpp.
use parser_framework.Base.{
  ◌≡◌, refl, List, [], ◌∷◌, ◌++◌, map, codes, length, not, is_empty, assign, compare_str,
}
use parser_framework.Engines.Kv.Spans.{Disjoint}
use parser_framework.Engines.Kv.Tokens.{last_values, parse_values-parse_section}
use parser_framework.Engines.Kv.{
  KvMatch, first_non_empty_capture, token_of, parse_section, parse_values,
}
use parser_framework.Tests.Data.{words}
use parser_framework.Types.{SectionSlice, empty_result}

abbrev pairs : SectionSlice
pairs = record { text = codes "user=[a b]; n : 1;user='x', k=;"; start = 5; end = 36 }

parse_values-pairs :
    parse_values [] pairs.text ≡ (codes "n", codes "1") ∷ (codes "user", codes "x") ∷ []
unfolding parse_values assign compare_str first_non_empty_capture
parse_values-pairs = refl

parse_values-parse_section_example :
    (found : List KvMatch) × Disjoint 0 (length pairs.text) found
    × (parse_section words pairs empty_result ≡ (
      not (is_empty found),
      record empty_result { tokens = empty_result.tokens ++ map (token_of words pairs) found },
    ))
    × (parse_values words.declared_tokens pairs.text
        ≡ last_values (map (token_of words pairs) found) [])
parse_values-parse_section_example = parse_values-parse_section words pairs empty_result
