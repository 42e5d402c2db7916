-- ===== src/Framework.antt =====
-- `ParserFramework` of src/ParserFramework.cpp: the choice of a message rule, the slices of its
-- sections, and their dispatch to the engines.
pub mod Growth
pub mod Filters
pub mod Choice
use parser_framework.Base.{
  ℕ, ◌+◌, Bool, true, false, not, ◌||◌, List, [], ◌∷◌, ◌++◌, Option, none, some, if◌then◌else◌,
  length, is_empty, Str, codes, contains, find_str, add_size, Map, lookup, insert_all,
}
use parser_framework.Engines.Json
use parser_framework.Engines.Kv
use parser_framework.Engines.Regex
use parser_framework.Libraries.{Libraries}
use parser_framework.Property
use parser_framework.Types.{
  ParseResult, empty_result, MessageFilterRule, SectionKind, SectionSettings, SectionRule,
  section_rule, Sections, nil, cons, MessageRule, SectionSlice, FilterMatch, no_match,
}

unfoldable pub record_matched_rule_id : ParseResult → Str → ParseResult
unfolding contains
record_matched_rule_id result rule_id =
    if is_empty rule_id
    then result
    else if contains result.token_extraction rule_id
    then result
    else record result { token_extraction = result.token_extraction ++ rule_id ∷ [] }

abbrev pub missing_section : Str → Str
missing_section name = codes "Missing extracted section [" ++ (name ++ codes "]")

-- `start == std::string::npos ? 0 : start`
abbrev pub or_zero : Option ℕ → ℕ
or_zero none = 0
or_zero (some start) = start

module _ (lib : Libraries) where
  -- The slices, and `errors` behind the call.
  unfoldable pub resolve_section_slices :
      Str → SectionSettings → Map Str → List Str → List SectionSlice × List Str
  resolve_section_slices message section captures errors =
      elim (lookup section.extract_name captures) [
        | some slice ↦
            let start = or_zero (find_str slice message) in
            (
              record { text = slice; start = start; end = add_size start (length slice) } ∷ [],
              errors,
            )
        | none ↦
            if not (is_empty section.extract_name)
            then ([], errors ++ missing_section section.extract_name ∷ [])
            else Regex.locate_slices lib message 0 section errors
      ]

  -- The loop over the slices, for a way to dispatch one.
  unfoldable pub for_slices :
      (SectionSlice → ParseResult → Bool × ParseResult)
      → List SectionSlice
      → ParseResult
      → Bool × ParseResult
  for_slices dispatch [] result = (false, result)
  for_slices dispatch (slice ∷ rest) result =
      let (matched, result') = dispatch slice result in
      let (later, result'') = for_slices dispatch rest result' in (matched || later, result'')

  -- What follows the loop of `parse_section_slices`.
  unfoldable pub finish_section : SectionSettings → Bool → ParseResult → Bool × ParseResult
  unfolding record_matched_rule_id
  finish_section section false result = (false, result)
  finish_section section true result =
      let recorded = record_matched_rule_id result section.ruleset_id in
      let (properties, errors) =
        Property.evaluate lib section.dynamic_properties recorded recorded.errors in
      (
        true,
        record recorded { properties = insert_all properties recorded.properties; errors = errors },
      )

  -- The cases of `dispatch_section` that have an engine.
  unfoldable pub dispatch_engine :
      SectionKind → SectionSettings → SectionSlice → ParseResult → Bool × ParseResult
  dispatch_engine SectionKind.free_text section slice result =
      Regex.parse_section lib section slice result
  dispatch_engine SectionKind.kv section slice result = Kv.parse_section section slice result
  dispatch_engine SectionKind.json section slice result =
      Json.parse_section lib section slice result
  dispatch_engine SectionKind.mixed section slice result = (false, result)

  -- Whether the section is of kind `MIXED`.
  abbrev pub is_mixed : SectionKind → Bool
  is_mixed SectionKind.mixed = true
  is_mixed _ = false

  -- `dispatch_section`, and the loop over `section.children` of its case `MIXED`.
  unfoldable mutual
    pub dispatch_section : SectionRule → SectionSlice → ParseResult → Bool × ParseResult
    dispatch_section (section_rule section children) slice result =
        let mixed = dispatch_children children slice result in
        if is_mixed section.kind then mixed else dispatch_engine section.kind section slice result

    pub dispatch_children : Sections → SectionSlice → ParseResult → Bool × ParseResult
    dispatch_children nil slice result = (false, result)
    dispatch_children (cons (section_rule child grandchildren) rest) slice result =
        let (slices, errors) = Regex.locate_slices lib slice.text slice.start child result.errors in
        let (looped, result') =
          for_slices (dispatch_section (section_rule child grandchildren)) slices
            (record result { errors = errors }) in
        let (matched, result'') = finish_section child looped result' in
        let (later, result''') = dispatch_children rest slice result'' in
        (matched || later, result''')

  unfoldable pub parse_section_slices :
      SectionRule → List SectionSlice → ParseResult → Bool × ParseResult
  unfolding dispatch_section for_slices finish_section
  parse_section_slices (section_rule section children) slices result =
      let (looped, result') =
        for_slices (dispatch_section (section_rule section children)) slices result in
      finish_section section looped result'

  -- The match, and `errors` behind the call.
  unfoldable pub message_matches : List MessageFilterRule → Str → List Str → FilterMatch × List Str
  message_matches [] message errors = (no_match, errors)
  message_matches (filter ∷ rest) message errors =
      let (found, errors') = Regex.match_message_filter lib filter message errors in
      let later = message_matches rest message errors' in
      if found.matched then (found, errors') else later

  -- The loop over `rule.sections`.
  unfoldable pub parse_sections : List SectionRule → Str → Map Str → ParseResult → ParseResult
  unfolding resolve_section_slices parse_section_slices
  parse_sections [] message captures result = result
  parse_sections (section_rule section children ∷ rest) message captures result =
      let (slices, errors) = resolve_section_slices message section captures result.errors in
      let (matched, result') =
        parse_section_slices (section_rule section children) slices
          (record result { errors = errors }) in
      parse_sections rest message captures result'

  -- The members that `parse_message` sets when a rule matches.
  unfoldable pub identify : MessageRule → ParseResult → ParseResult
  unfolding record_matched_rule_id
  identify rule result =
      record_matched_rule_id
        (record result {
          matched = true;
          message_rule_id = rule.id;
          message_rule_name = rule.name;
          event_name = rule.name;
          event_pattern_id = rule.id;
        })
        rule.id

  abbrev pub no_rule_matched : Str
  no_rule_matched = codes "No message rule matched"

  -- The loop over `m_message_rules`.
  unfoldable pub parse_with : List MessageRule → Str → ParseResult → ParseResult
  unfolding message_matches identify parse_sections
  parse_with [] message result = record result { errors = result.errors ++ no_rule_matched ∷ [] }
  parse_with (rule ∷ rest) message result =
      let (found, errors) = message_matches rule.filters message result.errors in
      let result' = record result { errors = errors } in
      let later = parse_with rest message result' in
      if found.matched
      then parse_sections rule.sections message found.captures (identify rule result')
      else later

  unfoldable pub parse_message : List MessageRule → Str → ParseResult
  unfolding parse_with
  parse_message message_rules message = parse_with message_rules message empty_result

  unfoldable pub parse_messages : List MessageRule → List Str → List ParseResult
  unfolding parse_message
  parse_messages message_rules [] = []
  parse_messages message_rules (message ∷ rest) =
      parse_message message_rules message ∷ parse_messages message_rules rest
