-- ===== src/Rules/Accepted.antt =====
-- What it means that a rule passes its identification examples, in src/RuleLoader.cpp.
use parser_framework.Base.{
  true, false, not, List, [], ◌∷◌, ◌++◌, Option, none, some, ◌≡◌, refl, ◌↔◌, Str, codes, str_eq,
  str_eq_iff, Map, lookup, ◌>>◌, throw_if, for_all, Passes, and_iff, throw_if_iff, for_all_iff, ap,
  Bool-cases, ◌⊎◌, inl, inr, All,
}
use parser_framework.Engines.Regex.{match_message_filter}
use parser_framework.Framework.{message_matches}
use parser_framework.Libraries.{Libraries}
use parser_framework.Rules.Examples.{throw_first}
use parser_framework.Rules.Expected.{Complaints, compare_value}
use parser_framework.Rules.Identification.{
  identification_example, not_matched, match_filters, check_capture, capture_complaints,
  validate_identification_example, validate_identification_examples,
}
use parser_framework.Rules.{IdentificationExample}
use parser_framework.Types.{MessageFilterRule, MessageRule, FilterMatch, no_match}

pub compare_value_iff :
    (texts : Complaints) (name expected : Str) (found : Option Str)
    → Passes (compare_value texts name expected found) ↔ (found ≡ some expected)
unfolding compare_value
compare_value_iff texts name expected none = (λ h. absurd (cc h), λ h. absurd (cc h))
compare_value_iff texts name expected (some parsed) =
    let e = throw_if_iff (str_eq parsed expected) (texts.different name expected parsed) in
    let q = str_eq_iff parsed expected in (λ h. ap some (q.0 (e.0 h)), λ h. e.1 (q.1 (cc h)))

pub throw_first_iff :
    (start : Str) (errors : List Str) → Passes (throw_first start errors) ↔ (errors ≡ [])
unfolding throw_first
throw_first_iff start [] = (λ h. refl, λ h. refl)
throw_first_iff start (x ∷ xs) = (λ h. absurd (cc h), λ h. absurd (cc h))

-- An entry of a table that is as expected.
abbrev pub Holds : Map Str → Str × Str → Type 0
Holds values (name, expected) = lookup name values ≡ some expected

check_capture_iff :
    (rule_name : Str) (captures : Map Str) (entry : Str × Str)
    → Passes (check_capture rule_name captures entry) ↔ Holds captures entry
unfolding check_capture
check_capture_iff rule_name captures (name, expected) =
    compare_value_iff (capture_complaints rule_name) name expected (lookup name captures)

module _ (lib : Libraries) where
  -- The loop of the loader and the one of the framework: the errors are the same.
  match_filters-errors :
      (filters : List MessageFilterRule) (message : Str) (last : FilterMatch) (errors : List Str)
      → (match_filters lib filters message last errors).1
        ≡ (message_matches lib filters message errors).1
  unfolding match_filters message_matches
  match_filters-errors [] message last errors = refl
  match_filters-errors (filter ∷ rest) message last errors =
      elim (Bool-cases (match_message_filter lib filter message errors).0.matched) [
        | inl e ↦ rw e refl
        | inr e ↦ rw e (match_filters-errors rest message _ _)
      ]

  -- Both loops match nothing, or return the same.
  match_filters-found :
      (filters : List MessageFilterRule) (message : Str) (last : FilterMatch) (errors : List Str)
      → last.matched ≡ false
      → ((match_filters lib filters message last errors).0.matched ≡ false)
          × ((message_matches lib filters message errors).0.matched ≡ false)
        ⊎ (match_filters lib filters message last errors
            ≡ message_matches lib filters message errors)
  unfolding match_filters message_matches
  match_filters-found [] message last errors h = inl (h, refl)
  match_filters-found (filter ∷ rest) message last errors h =
      elim (Bool-cases (match_message_filter lib filter message errors).0.matched) [
        | inl e ↦ rw e (inr refl)
        | inr e ↦ rw e (match_filters-found rest message _ _ e)
      ]

  -- What the loader asks of an example of a rule, in terms of the framework that the rule is for: no
  -- error, a match, and the captures.
  abbrev pub Accepted : List MessageFilterRule → IdentificationExample → Type 0
  Accepted filters example =
      ((message_matches lib filters example.message []).1 ≡ [])
      × ((message_matches lib filters example.message []).0.matched ≡ true)
      × All (Holds (message_matches lib filters example.message []).0.captures) example.captures

  outcome_iff :
      (rule : MessageRule) (example : IdentificationExample) (found : FilterMatch)
      (errors : List Str)
      → Passes (
          throw_first (identification_example rule.name ++ codes "failed: ") errors
          >> (throw_if (not found.matched) (not_matched rule.name)
              >> for_all (check_capture rule.name found.captures) example.captures))
        ↔ ((errors ≡ []) × (found.matched ≡ true) × All (Holds found.captures) example.captures)
  outcome_iff rule example found errors =
      let e =
        and_iff _ _ (throw_first_iff (identification_example rule.name ++ codes "failed: ") errors)
          (and_iff _ _ (throw_if_iff found.matched (not_matched rule.name)) (
            for_all_iff (Holds found.captures) (check_capture rule.name found.captures)
              (check_capture_iff rule.name found.captures) example.captures)) in
      (λ h. ((e.0 h).0, (e.0 h).1.0, (e.0 h).1.1), λ h. e.1 (h.0, (h.1, h.2)))

  example_iff :
      (rule : MessageRule) (example : IdentificationExample)
      → Passes (validate_identification_example lib rule example) ↔ Accepted rule.filters example
  unfolding validate_identification_example
  example_iff rule example =
      let (found, errors) = match_filters lib rule.filters example.message no_match [] in
      let left = outcome_iff rule example found errors in
      elim (match_filters-found rule.filters example.message no_match [] refl) [
        | inl n ↦ (λ h. absurd (cc ((left.0 h).1, n.0)), λ h. absurd (cc (h.1, n.1)))
        | inr e ↦ (λ h. rw e at (left.0 h), λ h. left.1 (rw e h))
      ]

  -- A rule passes its identification examples if, and only if, the framework accepts each of them: its
  -- filters match the message without an error, and capture all that the example expects.
  pub validate_identification_examples_iff :
      (rule : MessageRule) (examples : List IdentificationExample)
      → Passes (validate_identification_examples lib rule examples)
        ↔ All (Accepted rule.filters) examples
  unfolding validate_identification_examples
  validate_identification_examples_iff rule examples =
      for_all_iff (Accepted rule.filters) _ (example_iff rule) examples
