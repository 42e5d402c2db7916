-- ===== src/Engines/Kv.antt =====
-- src/KVParsingEngine.cpp. Its one regular expression is modelled as the matcher that it denotes:
-- no choice of a shorter key or of less white space lets the expression match where the longest
-- fails, so each part takes the longest text, and the four forms of a value are tried in order.
pub mod Spans
pub mod Tokens
use parser_framework.Base.{
  ℕ, zero, suc, ◌+◌, ◌-◌, Bool, false, not, ◌&&◌, ◌||◌, List, [], ◌∷◌, ◌++◌, Option, none, some,
  leb, ◌==◌, if◌then◌else◌, length, is_empty, is_some, Str, codes, add_size, Map, lookup, assign,
  emplace,
}
use parser_framework.Types.{Token, ParseResult, DeclaredToken, SectionSettings, SectionSlice}

-- [A-Za-z0-9_.-]
unfoldable pub is_key_byte : ℕ → Bool
is_key_byte c =
    (leb b'A' c && leb c b'Z')
    || (leb b'a' c && leb c b'z')
    || (leb b'0' c && leb c b'9')
    || c == b'_'
    || c == b'.'
    || c == b'-'

-- \s
unfoldable pub is_space : ℕ → Bool
is_space c = c == b' ' || (leb 9 c && leb c 13)

-- [^;\s\]]
unfoldable pub is_bare : ℕ → Bool
unfolding is_space
is_bare c = not (c == b';' || is_space c || c == b']')

-- The longest prefix of bytes that pass the test, and the rest.
unfoldable pub span : (ℕ → Bool) → Str → Str × Str
span p [] = ([], [])
span p (c ∷ cs) = let (taken, rest) = span p cs in if p c then (c ∷ taken, rest) else ([], c ∷ cs)

-- The four groups of a value, and the bytes that the value takes.
pub record ValueMatch : Type 0 where
  pub captures : List (Option Str)
  pub length : ℕ

-- A value between `open` and `close`, behind the opening byte.
unfoldable pub match_delimited : ℕ → Str → Option (Str × ℕ)
unfolding span
match_delimited close rest =
    let (inside, behind) = span (λ c. not (c == close)) rest in
    if is_empty behind then none else some (inside, length inside + 2)

-- `([^;\s\]]+)`
unfoldable pub match_bare : Str → Option ValueMatch
unfolding span is_bare
match_bare s =
    let (taken, rest) = span is_bare s in
    if is_empty taken
    then none
    else some (record { captures = none ∷ none ∷ none ∷ some taken ∷ []; length = length taken })

abbrev pub or_bare : Str → Option ValueMatch → Option ValueMatch
or_bare s (some m) = some m
or_bare s none = match_bare s

-- `(?:"([^"]*)"|'([^']*)'|\[([^\]]*)\]|([^;\s\]]+))`
unfoldable pub match_value : Str → Option ValueMatch
unfolding match_delimited match_bare
match_value [] = none
match_value (c ∷ cs) = or_bare (c ∷ cs) (
    if c == b'"'
    then (elim (match_delimited b'"' cs) [
      | none ↦ none
      | some (v, n) ↦ some (record { captures = some v ∷ none ∷ none ∷ none ∷ []; length = n })
    ])
    else if c == b'\''
    then (elim (match_delimited b'\'' cs) [
      | none ↦ none
      | some (v, n) ↦ some (record { captures = none ∷ some v ∷ none ∷ none ∷ []; length = n })
    ])
    else if c == b'['
    then (elim (match_delimited b']' cs) [
      | none ↦ none
      | some (v, n) ↦ some (record { captures = none ∷ none ∷ some v ∷ none ∷ []; length = n })
    ])
    else none)

-- What `std::smatch` holds: group 1, the later groups, and `position(0)` and `length(0)`.
pub record KvMatch : Type 0 where
  pub key : Str
  pub captures : List (Option Str)
  pub position : ℕ
  pub length : ℕ

-- Behind the key: `\s*[:=]\s*` and the value. The bytes taken are counted from the key's start.
unfoldable pub match_separator : ℕ → Str → Option (ℕ × Str)
unfolding span is_space
match_separator taken s =
    let (before, rest) = span is_space s in
    elim rest [
      | [] ↦ none
      | c ∷ cs ↦
          let (behind, rest') = span is_space cs in
          if c == b':' || c == b'='
          then some (taken + length before + 1 + length behind, rest')
          else none
    ]

-- The whole expression at the start of `s`, which stands at `position` in the text.
unfoldable pub match_here : ℕ → Str → Option KvMatch
unfolding span is_key_byte match_separator match_value
match_here position s =
    let (key, rest) = span is_key_byte s in
    if is_empty key then none else elim (match_separator (length key) rest) [
      | none ↦ none
      | some (taken, rest') ↦ elim (match_value rest') [
        | none ↦ none
        | some v ↦ some (record {
          key = key;
          captures = v.captures;
          position = position;
          length = taken + v.length;
        })
      ]
    ]

-- `std::sregex_iterator`: the first place that matches, then on from the end of the match. `skip`
-- counts the bytes of the last match that are still to be passed over.
unfoldable pub kv_matches : ℕ → ℕ → Str → List KvMatch
unfolding match_here
kv_matches skip position [] = []
kv_matches zero position (c ∷ cs) = elim (match_here position (c ∷ cs)) [
  | none ↦ kv_matches zero (position + 1) cs
  | some found ↦ found ∷ kv_matches (found.length - 1) (position + 1) cs
]
kv_matches (suc skip) position (c ∷ cs) = kv_matches skip (position + 1) cs

-- The loop from group `begin` on: `captures` are the groups from there.
unfoldable pub first_non_empty_capture : List (Option Str) → Str
first_non_empty_capture [] = []
first_non_empty_capture (some value ∷ rest) = value
first_non_empty_capture (none ∷ rest) = first_non_empty_capture rest

-- `declared`, filled by `emplace`.
unfoldable pub declared_names : List DeclaredToken → Map Str → Map Str
declared_names [] declared = declared
declared_names (token ∷ rest) declared =
    declared_names rest (emplace token.name token.type declared)

-- The test that lets a match through: `!(!declared.empty() && declared.find(name) == end)`.
unfoldable pub is_wanted : Map Str → Str → Bool
is_wanted declared name = not (not (is_empty declared) && not (is_some (lookup name declared)))

abbrev pub token_of : SectionSettings → SectionSlice → KvMatch → Token
token_of section slice found = record {
  name = found.key;
  value = first_non_empty_capture found.captures;
  section = section.id;
  source_engine = codes "kv";
  path = found.key;
  start = add_size slice.start found.position;
  end = add_size slice.start (found.position + found.length);
}

unfoldable pub add_matches :
    Map Str → SectionSettings → SectionSlice → List KvMatch → ParseResult → Bool × ParseResult
unfolding is_wanted
add_matches declared section slice [] result = (false, result)
add_matches declared section slice (found ∷ rest) result =
    let wanted = is_wanted declared found.key in
    let next =
      (if wanted
        then record result { tokens = result.tokens ++ token_of section slice found ∷ [] }
        else result) in
    let (matched, result') = add_matches declared section slice rest next in
    (wanted || matched, result')

unfoldable pub parse_section : SectionSettings → SectionSlice → ParseResult → Bool × ParseResult
unfolding add_matches declared_names kv_matches
parse_section section slice result =
    add_matches (declared_names section.declared_tokens []) section slice
      (kv_matches 0 0 slice.text) result

unfoldable pub add_values : Map Str → List KvMatch → Map Str → Map Str
unfolding is_wanted
add_values declared [] values = values
add_values declared (found ∷ rest) values = add_values declared rest (
    if is_wanted declared found.key
    then assign found.key (first_non_empty_capture found.captures) values
    else values)

unfoldable pub parse_values : List DeclaredToken → Str → Map Str
unfolding add_values declared_names kv_matches
parse_values declared_tokens message =
    add_values (declared_names declared_tokens []) (kv_matches 0 0 message) []
