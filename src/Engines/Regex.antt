-- ===== src/Engines/Regex.antt =====
-- src/RegexParsingEngine.cpp, over a regex library.
pub mod Locate
use parser_framework.Base.{
  ℕ, zero, suc, ◌+◌, ◌-◌, Bool, true, false, not, ◌||◌, List, [], ◌∷◌, ◌++◌, Option, none, some,
  leb, if◌then◌else◌, length, Str, codes, add_size, Map, assign, Result, ok, err, ◌>>=◌,
}
use parser_framework.Libraries.{Libraries, MatchType, sequential, random}
use parser_framework.Pattern.{rewrite_pattern_for_capture}
use parser_framework.Types.{
  Token, ParseResult, RegexTokenRule, NamedCapture, MessageFilterRule, SectionSettings,
  SectionSlice, FilterMatch, no_match,
}

pub record CaptureMatch : Type 0 where
  pub value : Str
  pub start : ℕ
  pub end : ℕ

abbrev pub capture_match : Str → ℕ → CaptureMatch
capture_match value end = record {
  value = value;
  start = if leb (length value) end then end - length value else 0;
  end = end;
}

-- How a loop ends that may throw: with what it has built so far in both cases.
pub data LoopEnd {ℓ} (A : Type ℓ) : Type ℓ where
  done : A → LoopEnd A
  thrown : A → Str → LoopEnd A
  out_of_fuel : LoopEnd A

module _ (lib : Libraries) where
  unfoldable pub search_capture : Str → Str → ℕ → MatchType → ℕ → Result (Option CaptureMatch)
  search_capture text pattern group type offset = do
    rewritten ← rewrite_pattern_for_capture pattern group
    found ← lib.regex_match rewritten type text offset
    ok (elim found [ none ↦ none | some (value, end) ↦ some (capture_match value end) ])

  -- `if (capture_match.has_value()) result.captures[name] = capture_match->value;`
  unfoldable pub put_capture : Str → Option CaptureMatch → FilterMatch → FilterMatch
  put_capture name none result = result
  put_capture name (some found) result = record result {
    captures = assign name found.value result.captures;
  }

  -- The loop over `filter.captures`.
  unfoldable pub fill_captures : Str → Str → List NamedCapture → FilterMatch → LoopEnd FilterMatch
  unfolding put_capture
  fill_captures pattern message [] result = done result
  fill_captures pattern message (capture ∷ rest) result =
      elim (search_capture message pattern capture.group sequential 0) [
        | err what ↦ thrown result what
        | ok found ↦ fill_captures pattern message rest (put_capture capture.name found result)
      ]

  abbrev pub filter_error : Str → Str → Str
  filter_error pattern what =
      codes "Invalid message filter regex [" ++ (pattern ++ (codes "]: " ++ what))

  -- The `try` block, from the result of the search for the whole pattern.
  unfoldable pub filter_outcome :
      MessageFilterRule → Str → Result (Option CaptureMatch) → LoopEnd FilterMatch
  unfolding fill_captures
  filter_outcome filter message (err what) = thrown no_match what
  filter_outcome filter message (ok none) = done no_match
  filter_outcome filter message (ok (some whole)) =
      fill_captures filter.pattern message filter.captures (record no_match { matched = true })

  -- Behind the `try` block: the result, and `errors` behind the call.
  unfoldable pub catch_filter : Str → LoopEnd FilterMatch → List Str → FilterMatch × List Str
  catch_filter pattern (done result) errors = (result, errors)
  catch_filter pattern (thrown result what) errors =
      (result, errors ++ filter_error pattern what ∷ [])
  catch_filter pattern out_of_fuel errors = (no_match, errors)

  unfoldable pub match_message_filter : MessageFilterRule → Str → List Str → FilterMatch × List Str
  unfolding filter_outcome catch_filter
  match_message_filter filter message errors =
      catch_filter filter.pattern
        (filter_outcome filter message (search_capture message filter.pattern 0 sequential 0))
        errors

  abbrev pub slice_of : ℕ → CaptureMatch → SectionSlice
  slice_of base_offset found = record {
    text = found.value;
    start = add_size base_offset found.start;
    end = add_size base_offset found.end;
  }

  -- `while (offset <= text.size())`, with fuel.
  unfoldable pub locate_loop :
      ℕ → Str → ℕ → Str → ℕ → ℕ → List SectionSlice → LoopEnd (List SectionSlice)
  locate_loop zero text base_offset pattern group offset slices = out_of_fuel
  locate_loop (suc fuel) text base_offset pattern group offset slices =
      elim (leb offset (length text)) [
        | false ↦ done slices
        | true ↦ elim (search_capture text pattern group sequential offset) [
          | err what ↦ thrown slices what
          | ok none ↦ done slices
          | ok (some found) ↦
              let slices' = slices ++ slice_of base_offset found ∷ [] in
              let rest = locate_loop fuel text base_offset pattern group found.end slices' in
              if leb found.end offset then done slices' else rest
        ]
      ]

  -- `!section.allow_multiple`
  unfoldable pub locate_one : Str → ℕ → Str → ℕ → LoopEnd (List SectionSlice)
  locate_one text base_offset pattern group =
      elim (search_capture text pattern group sequential 0) [
        | err what ↦ thrown [] what
        | ok none ↦ done []
        | ok (some found) ↦ done (slice_of base_offset found ∷ [])
      ]

  abbrev pub locator_error : Str → Str → Str
  locator_error id what =
      codes "Invalid locator regex for section [" ++ (id ++ (codes "]: " ++ what))

  -- The offset grows in each round that goes on, so `text.size() + 2` rounds are enough.
  unfoldable pub locate_all : SectionSettings → Str → ℕ → Str → LoopEnd (List SectionSlice)
  unfolding locate_one locate_loop
  locate_all section text base_offset pattern =
      if not section.allow_multiple
      then locate_one text base_offset pattern section.locator_group
      else locate_loop (suc (suc (length text))) text base_offset pattern section.locator_group 0 []

  -- Behind the `try` block: the slices, and `errors` behind the call.
  unfoldable pub catch_slices :
      Str → LoopEnd (List SectionSlice) → List Str → List SectionSlice × List Str
  catch_slices id (done slices) errors = (slices, errors)
  catch_slices id (thrown slices what) errors = (slices, errors ++ locator_error id what ∷ [])
  catch_slices id out_of_fuel errors = ([], errors)

  unfoldable pub locate_by :
      Option Str → SectionSettings → Str → ℕ → List Str → List SectionSlice × List Str
  unfolding locate_all catch_slices
  locate_by none section text base_offset errors = (
    record { text = text; start = base_offset; end = add_size base_offset (length text) } ∷ [],
    errors,
  )
  locate_by (some pattern) section text base_offset errors =
      catch_slices section.id (locate_all section text base_offset pattern) errors

  unfoldable pub locate_slices : Str → ℕ → SectionSettings → List Str → List SectionSlice × List Str
  unfolding locate_by
  locate_slices text base_offset section errors =
      locate_by section.locator_pattern section text base_offset errors

  abbrev pub token_error : Str → Str → Str
  token_error id what = codes "Invalid token regex for section [" ++ (id ++ (codes "]: " ++ what))

  -- What one round of the loop over `section.regex_tokens` makes of the search: whether it matched,
  -- and the result.
  unfoldable pub token_outcome :
      SectionSettings
      → SectionSlice
      → RegexTokenRule
      → Result (Option CaptureMatch)
      → ParseResult
      → Bool × ParseResult
  token_outcome section slice rule (err what) result =
      (false, record result { errors = result.errors ++ token_error section.id what ∷ [] })
  token_outcome section slice rule (ok none) result = (false, result)
  token_outcome section slice rule (ok (some capture)) result = (
    true,
    record result {
      tokens =
          result.tokens
          ++ record {
            name = rule.name;
            value = capture.value;
            section = section.id;
            source_engine = codes "regex-parser";
            path = [];
            start = add_size slice.start capture.start;
            end = add_size slice.start capture.end;
          }
            ∷ [];
    },
  )

  unfoldable pub extract_token :
      SectionSettings → SectionSlice → RegexTokenRule → ParseResult → Bool × ParseResult
  unfolding token_outcome
  extract_token section slice rule result =
      token_outcome section slice rule (search_capture slice.text rule.pattern rule.group random 0)
        result

  unfoldable pub extract_tokens :
      SectionSettings → SectionSlice → List RegexTokenRule → ParseResult → Bool × ParseResult
  unfolding extract_token
  extract_tokens section slice [] result = (false, result)
  extract_tokens section slice (rule ∷ rest) result =
      let (matched, result') = extract_token section slice rule result in
      let (later, result'') = extract_tokens section slice rest result' in
      (matched || later, result'')

  unfoldable pub parse_section : SectionSettings → SectionSlice → ParseResult → Bool × ParseResult
  unfolding extract_tokens
  parse_section section slice result = extract_tokens section slice section.regex_tokens result

  abbrev pub value_error : Str → Str → Str
  value_error name what = codes "Invalid regex token [" ++ (name ++ (codes "]: " ++ what))

  -- The values, and `errors` behind the call.
  unfoldable pub extract_values :
      List RegexTokenRule → Str → Map Str → List Str → Map Str × List Str
  extract_values [] message values errors = (values, errors)
  extract_values (rule ∷ rest) message values errors =
      elim (search_capture message rule.pattern rule.group random 0) [
        | err what ↦ extract_values rest message values (errors ++ value_error rule.name what ∷ [])
        | ok none ↦ extract_values rest message values errors
        | ok (some capture) ↦
            extract_values rest message (assign rule.name capture.value values) errors
      ]

  unfoldable pub parse_values : List RegexTokenRule → Str → List Str → Map Str × List Str
  unfolding extract_values
  parse_values token_rules message errors = extract_values token_rules message [] errors
