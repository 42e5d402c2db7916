-- ===== src/Framework/Choice.antt =====
-- Which rule identifies a message, against an independent description of the choice.
use parser_framework.Base.{
  ◌≡◌, refl, true, List, [], ◌∷◌, ◌++◌, inl, inr, some, none, Option, Bool-cases, Str, Map, IsIds,
}
use parser_framework.Framework.Filters.{
  accepts_any, first_rule, matches-accepts_any, sections-Grows,
}
use parser_framework.Framework.{
  message_matches, parse_sections, identify, record_matched_rule_id, parse_with, parse_message,
  no_rule_matched,
}
use parser_framework.Framework.Growth.{record-Grows}
use parser_framework.Growth.{SameRule, Grows-or, Grows-errors, Grows-IsIds}
use parser_framework.Libraries.{Libraries}
use parser_framework.Types.{ParseResult, empty_result, MessageRule}

-- What `parse_message` says of the rule that identified the message.
abbrev pub identity : ParseResult → Option MessageRule → ParseResult
identity r none = r
identity r (some rule) = record r {
  matched = true;
  message_rule_id = rule.id;
  message_rule_name = rule.name;
  event_name = rule.name;
  event_pattern_id = rule.id;
}

SameRule-errors :
    (r : ParseResult) (errors : List Str) {s : ParseResult}
    → SameRule (record r { errors = errors }) s
    → SameRule r s
SameRule-errors r errors h = record {
  matched = h.matched;
  message_rule_id = h.message_rule_id;
  message_rule_name = h.message_rule_name;
  event_name = h.event_name;
  event_pattern_id = h.event_pattern_id;
}

identity-errors :
    (r : ParseResult) (errors : List Str) (rule : Option MessageRule) {s : ParseResult}
    → SameRule (identity (record r { errors = errors }) rule) s
    → SameRule (identity r rule) s
identity-errors r errors none h = SameRule-errors r errors h
identity-errors r errors (some rule) h = SameRule-errors (identity r (some rule)) errors h

module _ (lib : Libraries) where
  matched-SameRule :
      (rule : MessageRule) (message : Str) (captures : Map Str) (r : ParseResult)
      → SameRule
          (identity r (some rule))
          (parse_sections lib rule.sections message captures (identify lib rule r))
  unfolding identify
  matched-SameRule rule message captures r =
      let (b, later) = sections-Grows lib rule.sections message captures (identify lib rule r) in
      (Grows-or (record-Grows (identity r (some rule)) rule.id) later).same_rule

  parse_with-SameRule :
      (rules : List MessageRule) (message : Str) (r : ParseResult)
      → SameRule (identity r (first_rule lib message rules)) (parse_with lib rules message r)
  unfolding parse_with
  parse_with-SameRule [] message r = (Grows-errors r (_ ∷ []) refl).same_rule
  parse_with-SameRule (rule ∷ rest) message r =
      let errors = (message_matches lib rule.filters message r.errors).1 in
      elim (Bool-cases (accepts_any lib message rule.filters)) [
        | inl p ↦
            rw (matches-accepts_any lib rule.filters message r.errors, p)
              (identity-errors r errors (some rule)
                (matched-SameRule rule message _ (record r { errors = errors })))
        | inr p ↦
            rw (matches-accepts_any lib rule.filters message r.errors, p)
              (identity-errors r errors (first_rule lib message rest)
                (parse_with-SameRule rest message (record r { errors = errors })))
      ]

  -- A message is identified by the first rule, in the order of the rules, of which some filter's
  -- pattern is found in the message: the result carries that rule's id and name, as its rule and as
  -- its event. Nothing that the sections do changes this, and without such a rule the flag stays
  -- false and the four names empty.
  pub parse_message-first_rule :
      (rules : List MessageRule) (message : Str)
      → SameRule
          (identity empty_result (first_rule lib message rules))
          (parse_message lib rules message)
  unfolding parse_message
  parse_message-first_rule rules message = parse_with-SameRule rules message empty_result

  parse_with-unmatched :
      (rules : List MessageRule) (message : Str) (r : ParseResult)
      → first_rule lib message rules ≡ none
      → (errors : List Str) × (parse_with lib rules message r
          ≡ record r { errors = errors ++ no_rule_matched lib ∷ [] })
  unfolding parse_with
  parse_with-unmatched [] message r h = (r.errors, refl)
  parse_with-unmatched (rule ∷ rest) message r h =
      let errors = (message_matches lib rule.filters message r.errors).1 in
      elim (Bool-cases (accepts_any lib message rule.filters)) [
        | inl p ↦ cc (rw p at h)
        | inr p ↦
            rw (matches-accepts_any lib rule.filters message r.errors, p)
              (parse_with-unmatched rest message (record r { errors = errors }) (rw p at h))
      ]

  -- A message that no rule's filter accepts leaves the result as it was at the start, but for the
  -- errors, of which the last says that no rule matched.
  pub parse_message-unmatched :
      (rules : List MessageRule) (message : Str)
      → first_rule lib message rules ≡ none
      → (errors : List Str) × (parse_message lib rules message
          ≡ record empty_result { errors = errors ++ no_rule_matched lib ∷ [] })
  unfolding parse_message
  parse_message-unmatched rules message h = parse_with-unmatched rules message empty_result h

  parse_with-IsIds :
      (rules : List MessageRule) (message : Str) (r : ParseResult)
      → IsIds r.token_extraction
      → IsIds (parse_with lib rules message r).token_extraction
  unfolding parse_with identify
  parse_with-IsIds [] message r h = h
  parse_with-IsIds (rule ∷ rest) message r h =
      let found = (message_matches lib rule.filters message r.errors).0 in
      let errors = (message_matches lib rule.filters message r.errors).1 in
      let started = identity (record r { errors = errors }) (some rule) in
      let (b, later) =
        sections-Grows lib rule.sections message found.captures
          (record_matched_rule_id started rule.id) in
      elim (Bool-cases found.matched) [
        | inl p ↦ rw p (Grows-IsIds (Grows-or (record-Grows started rule.id) later) h)
        | inr p ↦ rw p (parse_with-IsIds rest message (record r { errors = errors }) h)
      ]

  -- The list of matched rules in a result names no rule twice, and no rule by an empty id.
  pub parse_message-IsIds :
      (rules : List MessageRule) (message : Str)
      → IsIds (parse_message lib rules message).token_extraction
  unfolding parse_message
  parse_message-IsIds rules message = parse_with-IsIds rules message empty_result tt
