-- ===== src/Engines/Kv/Tokens.antt =====
-- What the two readers of src/KVParsingEngine.cpp make of the same text.
use parser_framework.Base.{
  ℕ, ◌+◌, not, List, [], ◌∷◌, ◌++◌, map, ◌≡◌, refl, append-nil, append_assoc, if◌then◌else◌, length,
  is_empty, Str, Map, assign, arith, Bool-cases, inl, inr,
}
use parser_framework.Engines.Kv.Spans.{Disjoint, Disjoint-le, kv_matches-Disjoint}
use parser_framework.Engines.Kv.{
  KvMatch, is_wanted, token_of, declared_names, kv_matches, add_matches, parse_section, add_values,
  parse_values,
}
use parser_framework.Types.{Token, ParseResult, SectionSettings, SectionSlice}

-- The value that stands last for each name.
abbrev pub last_values : List Token → Map Str → Map Str
last_values [] values = values
last_values (token ∷ rest) values = last_values rest (assign token.name token.value values)

-- The matches that the reader of a section keeps.
wanted_from : Map Str → List KvMatch → List KvMatch
wanted_from declared [] = []
wanted_from declared (m ∷ rest) =
    let later = wanted_from declared rest in if is_wanted declared m.key then m ∷ later else later

wanted-Disjoint :
    (declared : Map Str) (from to : ℕ) (ms : List KvMatch)
    → Disjoint from to ms
    → Disjoint from to (wanted_from declared ms)
unfolding wanted_from
wanted-Disjoint declared from to [] d = tt
wanted-Disjoint declared from to (m ∷ ms) d =
    let later = wanted-Disjoint declared (m.position + m.length) to ms d.3 in
    elim (Bool-cases (is_wanted declared m.key)) [
      | inl p ↦ rw p (d.0, d.1, d.2, later)
      | inr p ↦ rw p (Disjoint-le _ _ to _ (omega (arith, d.0)) later)
    ]

matches-wanted :
    (declared : Map Str) (section : SectionSettings) (slice : SectionSlice) (ms : List KvMatch)
    (r : ParseResult)
    → add_matches declared section slice ms r ≡ (
      not (is_empty (wanted_from declared ms)),
      record r { tokens = r.tokens ++ map (token_of section slice) (wanted_from declared ms) },
    )
unfolding add_matches wanted_from
matches-wanted declared section slice [] r = rw append-nil refl
matches-wanted declared section slice (m ∷ ms) r = elim (Bool-cases (is_wanted declared m.key)) [
  | inl p ↦ rw (p, matches-wanted declared section slice ms, append_assoc) refl
  | inr p ↦ rw (p, matches-wanted declared section slice ms r) refl
]

values-wanted :
    (declared : Map Str) (section : SectionSettings) (slice : SectionSlice) (ms : List KvMatch)
    (values : Map Str)
    → add_values declared ms values
      ≡ last_values (map (token_of section slice) (wanted_from declared ms)) values
unfolding add_values wanted_from
values-wanted declared section slice [] values = refl
values-wanted declared section slice (m ∷ ms) values =
    elim (Bool-cases (is_wanted declared m.key)) [
      | inl p ↦ rw p (values-wanted declared section slice ms _)
      | inr p ↦ rw p (values-wanted declared section slice ms values)
    ]

-- The two readers of key-value text agree. A section's slice gives one token for each of a list of
-- matches, which stand one behind the other in its text, each of at least one byte; nothing else of
-- the result changes, and the flag tells whether there is one. For the same declared tokens and the
-- same text, `parse_values` holds for each name the value of the last of these tokens.
pub parse_values-parse_section :
    (section : SectionSettings) (slice : SectionSlice) (r : ParseResult)
    → (found : List KvMatch) × Disjoint 0 (length slice.text) found
      × (parse_section section slice r ≡ (
        not (is_empty found),
        record r { tokens = r.tokens ++ map (token_of section slice) found },
      ))
      × (parse_values section.declared_tokens slice.text
          ≡ last_values (map (token_of section slice) found) [])
unfolding parse_section parse_values
parse_values-parse_section section slice r =
    let declared = declared_names section.declared_tokens [] in
    (
      wanted_from declared (kv_matches 0 0 slice.text),
      wanted-Disjoint declared 0 _ _
          (kv_matches-Disjoint 0 0 (length slice.text) slice.text (omega arith)),
      matches-wanted declared section slice (kv_matches 0 0 slice.text) r,
      values-wanted declared section slice (kv_matches 0 0 slice.text) [],
    )
