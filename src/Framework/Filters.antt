-- ===== src/Framework/Filters.antt =====
-- Which filters accept a message, and what the sections of a rule may change.
use parser_framework.Base.{
  ◌≡◌, refl, sym, Bool, true, false, not, ◌||◌, List, [], ◌∷◌, append-nil, inl, inr, some, none,
  Option, if◌then◌else◌, Bool-cases, Str, Map, Result, ok, err, Result-cases, Option-cases, lookup,
  is_empty, arith,
}
use parser_framework.Engines.Regex
use parser_framework.Engines.Regex.{LoopEnd, done, thrown, out_of_fuel, CaptureMatch}
use parser_framework.Framework.{message_matches, resolve_section_slices, parse_sections}
use parser_framework.Framework.Growth.{parse_section_slices-Grows}
use parser_framework.Engines.Growth.{locate_slices-Appends}
use parser_framework.Growth.{Appends, Grows, Grows-refl, Grows-or, Grows-errors}
use parser_framework.Libraries.{Libraries, sequential}
use parser_framework.Types.{
  ParseResult, NamedCapture, MessageFilterRule, SectionSettings, SectionRule, section_rule,
  MessageRule, FilterMatch,
}

-- The search found something, and did not throw.
abbrev pub is_hit : Result (Option CaptureMatch) → Bool
is_hit (ok (some found)) = true
is_hit _ = false

module _ (lib : Libraries) where
  -- The filter's whole pattern is found in the message.
  abbrev pub accepts : Str → MessageFilterRule → Bool
  accepts message filter = is_hit (Regex.search_capture lib message filter.pattern 0 sequential 0)

  abbrev pub accepts_any : Str → List MessageFilterRule → Bool
  accepts_any message [] = false
  accepts_any message (filter ∷ rest) = accepts message filter || accepts_any message rest

  -- The first rule with a filter that accepts the message.
  abbrev pub first_rule : Str → List MessageRule → Option MessageRule
  first_rule message [] = none
  first_rule message (rule ∷ rest) =
      if accepts_any message rule.filters then some rule else first_rule message rest

  put-matched :
      (name : Str) (found : Option CaptureMatch) (result : FilterMatch)
      → result.matched ≡ true
      → (Regex.put_capture lib name found result).matched ≡ true
  unfolding Regex.put_capture
  put-matched name none result h = h
  put-matched name (some found) result h = h

  -- The loop over the captures leaves the flag as it is, also when it throws.
  fill-matched :
      (pattern message : Str) (captures : List NamedCapture) (result : FilterMatch)
      (errors : List Str)
      → result.matched ≡ true
      → (Regex.catch_filter lib pattern
          (Regex.fill_captures lib pattern message captures result)
          errors).0.matched
        ≡ true
  unfolding Regex.catch_filter Regex.fill_captures
  fill-matched pattern message [] result errors h = h
  fill-matched pattern message (capture ∷ rest) result errors h =
      elim (Result-cases (Regex.search_capture lib message pattern capture.group sequential 0)) [
        | inl (found, e) ↦
            rw (e, Regex.fill_captures)
              (fill-matched pattern message rest _ errors (put-matched capture.name found result h))
        | inr (what, e) ↦ rw (e, Regex.fill_captures) h
      ]

  outcome-matched :
      (filter : MessageFilterRule) (message : Str) (found : Result (Option CaptureMatch))
      (errors : List Str)
      → (Regex.catch_filter lib filter.pattern
          (Regex.filter_outcome lib filter message found)
          errors).0.matched
        ≡ is_hit found
  unfolding Regex.filter_outcome Regex.catch_filter
  outcome-matched filter message (err what) errors = refl
  outcome-matched filter message (ok none) errors = refl
  outcome-matched filter message (ok (some whole)) errors =
      fill-matched filter.pattern message filter.captures _ errors refl

  filter-matched :
      (filter : MessageFilterRule) (message : Str) (errors : List Str)
      → (Regex.match_message_filter lib filter message errors).0.matched ≡ accepts message filter
  unfolding Regex.match_message_filter
  filter-matched filter message errors = outcome-matched filter message _ errors

  pub matches-accepts_any :
      (filters : List MessageFilterRule) (message : Str) (errors : List Str)
      → (message_matches lib filters message errors).0.matched ≡ accepts_any message filters
  unfolding message_matches
  matches-accepts_any [] message errors = refl
  matches-accepts_any (filter ∷ rest) message errors = ground (
    arith,
    filter-matched filter message errors,
    matches-accepts_any rest message (Regex.match_message_filter lib filter message errors).1,
  )

  resolve-Appends :
      (message : Str) (section : SectionSettings) (captures : Map Str) (errors : List Str)
      → Appends errors (resolve_section_slices lib message section captures errors).1
  unfolding resolve_section_slices
  resolve-Appends message section captures errors =
      elim (Option-cases (lookup section.extract_name captures)) [
        | inl e ↦
            rw (e, resolve_section_slices)
              (elim (Bool-cases (not (is_empty section.extract_name))) [
                | inl p ↦ rw p (_ ∷ [], refl)
                | inr p ↦ rw p (locate_slices-Appends lib message 0 section errors)
              ])
        | inr (slice, e) ↦ rw (e, resolve_section_slices) ([], sym (append-nil errors))
      ]

  pub sections-Grows :
      (sections : List SectionRule) (message : Str) (captures : Map Str) (r : ParseResult)
      → (b : Bool) × Grows r b (parse_sections lib sections message captures r)
  unfolding parse_sections
  sections-Grows [] message captures r = (false, Grows-refl r)
  sections-Grows (section_rule section children ∷ rest) message captures r =
      let (more, e) = resolve-Appends message section captures r.errors in
      let (b, later) = sections-Grows rest message captures _ in
      (
        _,
        Grows-or (Grows-errors r more e)
            (Grows-or (parse_section_slices-Grows lib (section_rule section children) _ _) later),
      )
