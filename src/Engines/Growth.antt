-- ===== src/Engines/Growth.antt =====
-- Each engine only appends to the result, and reports whether it added a token.
use parser_framework.Base.{
  ℕ, refl, sym, Bool, true, false, not, List, [], ◌∷◌, append-nil, inl, inr, Option, none, some,
  Str, Map, Result, ok, err, is_negative, Bool-cases, if◌then◌else◌,
}
use parser_framework.Engines.Json
use parser_framework.Engines.Kv
use parser_framework.Engines.Kv.{KvMatch}
use parser_framework.Engines.Regex
use parser_framework.Engines.Regex.{LoopEnd, done, thrown, out_of_fuel, CaptureMatch}
use parser_framework.Growth.{Appends, Grows, Grows-refl, Grows-or, Grows-errors, Grows-token}
use parser_framework.Libraries.{Libraries, JsonToken}
use parser_framework.Types.{
  ParseResult, RegexTokenRule, JsonMatchRule, JsonTokenRule, SectionSettings, SectionSlice,
}

Kv_if :
    (b : Bool) (r : ParseResult) {s : ParseResult} → Grows r true s → Grows r b (if b then s else r)
Kv_if true r g = g
Kv_if false r g = Grows-refl r

Kv_matches-Grows :
    (declared : Map Str) (section : SectionSettings) (slice : SectionSlice) (found : List KvMatch)
    (r : ParseResult)
    → Grows r
        (Kv.add_matches declared section slice found r).0
        (Kv.add_matches declared section slice found r).1
unfolding Kv.add_matches
Kv_matches-Grows declared section slice [] r = Grows-refl r
Kv_matches-Grows declared section slice (f ∷ found) r =
    Grows-or (Kv_if (Kv.is_wanted declared f.key) r (Grows-token r (Kv.token_of section slice f)))
      (Kv_matches-Grows declared section slice found _)

pub Kv-Grows :
    (section : SectionSettings) (slice : SectionSlice) (r : ParseResult)
    → Grows r (Kv.parse_section section slice r).0 (Kv.parse_section section slice r).1
unfolding Kv.parse_section
Kv-Grows section slice r = Kv_matches-Grows _ section slice _ r

module _ (lib : Libraries) (section : SectionSettings) (slice : SectionSlice) where
  Regex_token-Grows :
      (rule : RegexTokenRule) (found : Result (Option CaptureMatch)) (r : ParseResult)
      → Grows r
          (Regex.token_outcome lib section slice rule found r).0
          (Regex.token_outcome lib section slice rule found r).1
  unfolding Regex.token_outcome
  Regex_token-Grows rule (err what) r = Grows-errors r (_ ∷ []) refl
  Regex_token-Grows rule (ok none) r = Grows-refl r
  Regex_token-Grows rule (ok (some capture)) r = Grows-token r _

  Regex_tokens-Grows :
      (rules : List RegexTokenRule) (r : ParseResult)
      → Grows r
          (Regex.extract_tokens lib section slice rules r).0
          (Regex.extract_tokens lib section slice rules r).1
  unfolding Regex.extract_tokens
  Regex_tokens-Grows [] r = Grows-refl r
  Regex_tokens-Grows (rule ∷ rules) r =
      Grows-or (Regex_token-Grows rule _ r) (Regex_tokens-Grows rules _)

  pub Regex-Grows :
      (r : ParseResult)
      → Grows r
          (Regex.parse_section lib section slice r).0
          (Regex.parse_section lib section slice r).1
  unfolding Regex.parse_section
  Regex-Grows r = Regex_tokens-Grows section.regex_tokens r

  Json_value-Grows :
      (rule : JsonTokenRule) (token : JsonToken) (value : Result Str) (r : ParseResult)
      → Grows r
          (Json.add_value lib section slice rule token value r).0
          (Json.add_value lib section slice rule token value r).1
  unfolding Json.add_value
  Json_value-Grows rule token (err what) r = Grows-errors r (_ ∷ []) refl
  Json_value-Grows rule token (ok value) r = Grows-token r _

  Json_token-Grows :
      (rule : JsonTokenRule) (found : Result (Option JsonToken)) (r : ParseResult)
      → Grows r
          (Json.add_token lib section slice rule found r).0
          (Json.add_token lib section slice rule found r).1
  unfolding Json.add_token
  Json_token-Grows rule (err what) r = Grows-errors r (_ ∷ []) refl
  Json_token-Grows rule (ok none) r = Grows-refl r
  Json_token-Grows rule (ok (some token)) r = Json_value-Grows rule token _ r

  Json_rule-Grows :
      (rule : JsonTokenRule) (r : ParseResult)
      → Grows r
          (Json.extract_token lib section slice rule r).0
          (Json.extract_token lib section slice rule r).1
  unfolding Json.extract_token
  Json_rule-Grows rule r = elim (Bool-cases (lib.json_path rule.path)) [
    | inl p ↦ rw p (Json_token-Grows rule (lib.json_get slice.text rule.path) r)
    | inr p ↦ rw p (Grows-errors r (_ ∷ []) refl)
  ]

  Json_tokens-Grows :
      (rules : List JsonTokenRule) (r : ParseResult)
      → Grows r
          (Json.extract_tokens lib section slice rules r).0
          (Json.extract_tokens lib section slice rules r).1
  unfolding Json.extract_tokens
  Json_tokens-Grows [] r = Grows-refl r
  Json_tokens-Grows (rule ∷ rules) r = Grows-or (Json_rule-Grows rule r) (Json_tokens-Grows rules _)

-- The rules on the JSON text, and the search for slices, only append to the errors.
module _ (lib : Libraries) where
  match_outcome-Appends :
      (rule : JsonMatchRule) (found : Result (Option Str)) (later : Bool × List Str)
      (errors : List Str)
      → Appends errors later.1
      → Appends errors (Json.match_outcome lib rule found later errors).1
  unfolding Json.match_outcome
  match_outcome-Appends rule (err what) later errors h = (what ∷ [], refl)
  match_outcome-Appends rule (ok none) later errors h = ([], sym (append-nil errors))
  match_outcome-Appends rule (ok (some value)) later errors h =
      elim (Bool-cases (Json.differs lib rule.equals value)) [
        | inl p ↦ ([], rw p (sym (append-nil errors)))
        | inr p ↦ (h.0, rw p h.1)
      ]

  match-Appends :
      (rules : List JsonMatchRule) (json : Str) (errors : List Str)
      → Appends errors (Json.json_match_succeeds lib rules json errors).1
  unfolding Json.json_match_succeeds
  match-Appends [] json errors = ([], sym (append-nil errors))
  match-Appends (rule ∷ rules) json errors =
      match_outcome-Appends rule _ _ errors (match-Appends rules json errors)

  Json_matched-Grows :
      (b : Bool) (section : SectionSettings) (slice : SectionSlice) (r : ParseResult)
      → Grows r
          (if not b
            then (false, r)
            else Json.extract_tokens lib section slice section.json_tokens r).0
          (if not b
            then (false, r)
            else Json.extract_tokens lib section slice section.json_tokens r).1
  Json_matched-Grows true section slice r =
      Json_tokens-Grows lib section slice section.json_tokens r
  Json_matched-Grows false section slice r = Grows-refl r

  pub Json-Grows :
      (section : SectionSettings) (slice : SectionSlice) (r : ParseResult)
      → Grows r
          (Json.parse_section lib section slice r).0
          (Json.parse_section lib section slice r).1
  unfolding Json.parse_section
  Json-Grows section slice r =
      let (more, e) = match-Appends section.json_matches slice.text r.errors in
      elim (Bool-cases (is_negative (lib.json_parse slice.text))) [
        | inl p ↦ rw p (Grows-errors r (_ ∷ []) refl)
        | inr p ↦ rw p (Grows-or (Grows-errors r more e) (Json_matched-Grows _ section slice _))
      ]

  catch_slices-Appends :
      (id : Str) (end : LoopEnd (List SectionSlice)) (errors : List Str)
      → Appends errors (Regex.catch_slices lib id end errors).1
  unfolding Regex.catch_slices
  catch_slices-Appends id (done slices) errors = ([], sym (append-nil errors))
  catch_slices-Appends id (thrown slices what) errors = (_ ∷ [], refl)
  catch_slices-Appends id out_of_fuel errors = ([], sym (append-nil errors))

  locate_by-Appends :
      (locator : Option Str) (section : SectionSettings) (text : Str) (base_offset : ℕ)
      (errors : List Str)
      → Appends errors (Regex.locate_by lib locator section text base_offset errors).1
  unfolding Regex.locate_by
  locate_by-Appends none section text base_offset errors = ([], sym (append-nil errors))
  locate_by-Appends (some pattern) section text base_offset errors =
      catch_slices-Appends section.id _ errors

  pub locate_slices-Appends :
      (text : Str) (base_offset : ℕ) (section : SectionSettings) (errors : List Str)
      → Appends errors (Regex.locate_slices lib text base_offset section errors).1
  unfolding Regex.locate_slices
  locate_slices-Appends text base_offset section errors =
      locate_by-Appends section.locator_pattern section text base_offset errors
