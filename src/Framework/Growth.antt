-- ===== src/Framework/Growth.antt =====
-- Parsing a section, however deep its children go, only adds to the result.
use parser_framework.Base.{
  Option, none, some, ◌≡◌, ◌≢◌, ◌⊎◌, ◌++◌, lookup, refl, sym, Bool, true, false, List, [], ◌∷◌,
  append-nil, inl, inr, if◌then◌else◌, Bool-cases, Str, Map, Result, ok, err, insert_all,
  lookup-insert_all_old, contains,
}
use parser_framework.Engines.Growth.{Kv-Grows, Regex-Grows, Json-Grows, locate_slices-Appends}
use parser_framework.Framework.{
  record_matched_rule_id, for_slices, finish_section, dispatch_engine, is_mixed, dispatch_section,
  dispatch_children, parse_section_slices,
}
use parser_framework.Growth.{Appends, Appends-trans, Grows, Grows-refl, Grows-or, Grows-errors}
use parser_framework.Libraries.{Libraries, BoundToken}
use parser_framework.Property
use parser_framework.Types.{
  ParseResult, SectionKind, SectionSettings, SectionRule, section_rule, Sections, nil, cons,
  SectionSlice,
}

Grows-extraction :
    (r : ParseResult) (id : Str)
    → contains r.token_extraction id ≡ false
    → id ≢ []
    → Grows r false (record r { token_extraction = r.token_extraction ++ id ∷ [] })
Grows-extraction r id new ne = record {
  new_tokens = [];
  new_errors = [];
  tokens_eq = sym (append-nil r.tokens);
  errors_eq = sym (append-nil r.errors);
  flag_eq = refl;
  keeps = λ k. inr refl;
  same_rule = record {
    matched = refl;
    message_rule_id = refl;
    message_rule_name = refl;
    event_name = refl;
    event_pattern_id = refl;
  };
  new_ids = id ∷ [];
  ids_eq = refl;
  ids_new = (new, ne, tt);
}

-- A rule's id is recorded once, and an empty id never.
pub record-Grows : (r : ParseResult) (id : Str) → Grows r false (record_matched_rule_id r id)
unfolding record_matched_rule_id
record-Grows r [] = Grows-refl r
record-Grows r (c ∷ id) = elim (Bool-cases (contains r.token_extraction (c ∷ id))) [
  | inl old ↦ rw old (Grows-refl r)
  | inr new ↦ rw new (Grows-extraction r (c ∷ id) new (λ e. cc))
]

kept_of : (a b : Option Str) → ((v : Str) → a ≡ some v → b ≡ some v) → (a ≡ none) ⊎ (b ≡ a)
kept_of none b h = inl refl
kept_of (some v) b h = inr (h v refl)

Grows-properties :
    (r : ParseResult) (properties : Map Str) (errors : List Str)
    → Appends r.errors errors
    → Grows r false (record r { properties = insert_all properties r.properties; errors = errors })
Grows-properties r properties errors (more, e) = record {
  new_tokens = [];
  new_errors = more;
  tokens_eq = sym (append-nil r.tokens);
  errors_eq = e;
  flag_eq = refl;
  keeps = λ k.
      kept_of (lookup k r.properties) _ (λ v h. lookup-insert_all_old properties r.properties k h);
  same_rule = record {
    matched = refl;
    message_rule_id = refl;
    message_rule_name = refl;
    event_name = refl;
    event_pattern_id = refl;
  };
  new_ids = [];
  ids_eq = sym (append-nil r.token_extraction);
  ids_new = tt;
}

module _ (lib : Libraries) where
  apply-Appends :
      (expression : Str) (outcome : Result (List (Str × Str))) (state : Map Str × List Str)
      → Appends state.1 (Property.apply_outcome lib expression outcome state).1
  unfolding Property.apply_outcome
  apply-Appends expression (ok results) (properties, errors) = ([], sym (append-nil errors))
  apply-Appends expression (err what) (properties, errors) = (_ ∷ [], refl)

  evaluate_from-Appends :
      (expressions : List Str) (token_map : Map BoundToken) (state : Map Str × List Str)
      → Appends state.1 (Property.evaluate_from lib expressions token_map state).1
  unfolding Property.evaluate_from
  evaluate_from-Appends [] token_map state = ([], sym (append-nil state.1))
  evaluate_from-Appends (expression ∷ rest) token_map state =
      Appends-trans _ _ _ (apply-Appends expression _ state)
        (evaluate_from-Appends rest token_map _)

  -- The evaluation of properties only appends to the errors.
  pub evaluate-Appends :
      (expressions : List Str) (r : ParseResult) (errors : List Str)
      → Appends errors (Property.evaluate lib expressions r errors).1
  unfolding Property.evaluate
  evaluate-Appends expressions r errors = evaluate_from-Appends expressions _ ([], errors)

  -- What follows the loop over the slices.
  finish-Grows :
      (section : SectionSettings) {b : Bool} {r s : ParseResult}
      → Grows r b s
      → Grows r (finish_section lib section b s).0 (finish_section lib section b s).1
  unfolding finish_section
  finish-Grows section {b = true} {s} g = Grows-or g (
      Grows-or (record-Grows s section.ruleset_id)
        (Grows-properties _ _ _ (evaluate-Appends section.dynamic_properties _ _)))
  finish-Grows section {b = false} g = g

  for_slices-Grows :
      (dispatch : SectionSlice → ParseResult → Bool × ParseResult)
      → ((slice : SectionSlice) (r : ParseResult)
          → Grows r (dispatch slice r).0 (dispatch slice r).1)
      → (slices : List SectionSlice) (r : ParseResult)
      → Grows r (for_slices lib dispatch slices r).0 (for_slices lib dispatch slices r).1
  unfolding for_slices
  for_slices-Grows dispatch h [] r = Grows-refl r
  for_slices-Grows dispatch h (slice ∷ rest) r =
      Grows-or (h slice r) (for_slices-Grows dispatch h rest _)

  dispatch_engine-Grows :
      (kind : SectionKind) (section : SectionSettings) (slice : SectionSlice) (r : ParseResult)
      → Grows r
          (dispatch_engine lib kind section slice r).0
          (dispatch_engine lib kind section slice r).1
  unfolding dispatch_engine
  dispatch_engine-Grows SectionKind.free_text section slice r = Regex-Grows lib section slice r
  dispatch_engine-Grows SectionKind.kv section slice r = Kv-Grows section slice r
  dispatch_engine-Grows SectionKind.json section slice r = Json-Grows lib section slice r
  dispatch_engine-Grows SectionKind.mixed section slice r = Grows-refl r

  dispatch_if :
      (b : Bool) {r : ParseResult} {x y : Bool × ParseResult}
      → Grows r x.0 x.1
      → Grows r y.0 y.1
      → Grows r (if b then x else y).0 (if b then x else y).1
  dispatch_if true g h = g
  dispatch_if false g h = h

  mutual
    unfolding dispatch_section

    section-Grows :
        (rule : SectionRule) (slice : SectionSlice) (r : ParseResult)
        → Grows r (dispatch_section lib rule slice r).0 (dispatch_section lib rule slice r).1
    section-Grows (section_rule section children) slice r =
        dispatch_if (is_mixed lib section.kind) (children-Grows children slice r)
          (dispatch_engine-Grows section.kind section slice r)

    children-Grows :
        (children : Sections) (slice : SectionSlice) (r : ParseResult)
        → Grows r
            (dispatch_children lib children slice r).0
            (dispatch_children lib children slice r).1
    children-Grows nil slice r = Grows-refl r
    children-Grows (cons (section_rule child grandchildren) rest) slice r =
        let (more, e) = locate_slices-Appends lib slice.text slice.start child r.errors in
        Grows-or
          (finish-Grows child (
            Grows-or (Grows-errors r more e)
              (for_slices-Grows _ (section-Grows (section_rule child grandchildren)) _ _)))
          (children-Grows rest slice _)

  -- Whatever the section, its kind, its nested sections and the slices: parsing them only appends
  -- tokens and errors, never changes a property that is set, leaves the message's identification as
  -- it is, appends to the ids of matched rules only new ones that are not empty, and says that it
  -- matched exactly when it added a token.
  pub parse_section_slices-Grows :
      (rule : SectionRule) (slices : List SectionSlice) (r : ParseResult)
      → Grows r
          (parse_section_slices lib rule slices r).0
          (parse_section_slices lib rule slices r).1
  unfolding parse_section_slices
  parse_section_slices-Grows (section_rule section children) slices r =
      finish-Grows section
        (for_slices-Grows _ (section-Grows (section_rule section children)) slices r)
