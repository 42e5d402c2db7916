-- ===== src/Tests/Framework.antt =====
-- Messages through the rules and sections of src/ParserFramework.cpp.
use parser_framework.Base.{
  ◌≡◌, refl, List, [], ◌∷◌, ◌++◌, none, some, Str, codes, IsIds, find_str, str_eq, map, lookup,
  add_size,
}
use parser_framework.Engines.Regex.Locate.{Advance, locate_all-Advance}
use parser_framework.Engines.Regex.{
  locate_all, search_capture, match_message_filter, locate_slices, parse_section,
}
use parser_framework.Pattern.{rewrite_pattern_for_capture}
use parser_framework.Framework.Choice.{
  identity, parse_message-first_rule, parse_message-unmatched, parse_message-IsIds,
}
use parser_framework.Framework.Filters.{first_rule}
use parser_framework.Framework.Growth.{parse_section_slices-Grows}
use parser_framework.Framework.{
  parse_message, parse_section_slices, no_rule_matched, dispatch_engine,
}
use parser_framework.Growth.{SameRule, Grows}
use parser_framework.Tests.Data.{test_libraries, words, mixed_section, rule_b, test_rules}
use parser_framework.Types.{empty_result, Token}

-- Of three rules the second is the first that accepts the message.
first_rule-b : first_rule test_libraries (codes "abab") test_rules ≡ some rule_b
unfolding search_capture find_str rewrite_pattern_for_capture
first_rule-b = refl

first_rule-none : first_rule test_libraries (codes "zz") test_rules ≡ none
unfolding search_capture find_str rewrite_pattern_for_capture
first_rule-none = refl

parse_message-ids :
    (parse_message test_libraries test_rules (codes "abab")).token_extraction
    ≡ codes "B" ∷ codes "words" ∷ codes "outer" ∷ []
unfolding parse_message find_str match_message_filter search_capture rewrite_pattern_for_capture
    lookup locate_slices dispatch_engine parse_section str_eq
parse_message-ids = refl

-- Both sections find both words; the nested one finds them in the slices of its parent.
parse_message-tokens :
    map (λ (t : Token). t.start) (parse_message test_libraries test_rules (codes "abab")).tokens
    ≡ 0 ∷ 2 ∷ 0 ∷ 2 ∷ []
unfolding parse_message find_str match_message_filter search_capture rewrite_pattern_for_capture
    lookup locate_slices dispatch_engine parse_section str_eq add_size
parse_message-tokens = refl

parse_message-first_rule_example :
    SameRule
      (identity empty_result (first_rule test_libraries (codes "abab") test_rules))
      (parse_message test_libraries test_rules (codes "abab"))
parse_message-first_rule_example = parse_message-first_rule test_libraries test_rules (codes "abab")

parse_message-unmatched_example :
    (errors : List Str) × (parse_message test_libraries test_rules (codes "zz")
      ≡ record empty_result { errors = errors ++ no_rule_matched test_libraries ∷ [] })
parse_message-unmatched_example =
    parse_message-unmatched test_libraries test_rules (codes "zz") first_rule-none

parse_message-IsIds_example :
    IsIds (parse_message test_libraries test_rules (codes "abab")).token_extraction
parse_message-IsIds_example = parse_message-IsIds test_libraries test_rules (codes "abab")

parse_section_slices-Grows_example :
    Grows empty_result
      (parse_section_slices test_libraries mixed_section
        (record { text = codes "abab"; start = 3; end = 7 } ∷ [])
        empty_result).0
      (parse_section_slices test_libraries mixed_section
        (record { text = codes "abab"; start = 3; end = 7 } ∷ [])
        empty_result).1
parse_section_slices-Grows_example =
    parse_section_slices-Grows test_libraries mixed_section
      (record { text = codes "abab"; start = 3; end = 7 } ∷ []) empty_result

locate_all-Advance_example :
    Advance test_libraries
      (codes "abxab")
      10
      (codes "(ab)")
      1
      0
      []
      (locate_all test_libraries words (codes "abxab") 10 (codes "(ab)"))
locate_all-Advance_example =
    locate_all-Advance test_libraries words (codes "abxab") 10 (codes "(ab)") refl
