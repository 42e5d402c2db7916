-- ===== src/Pattern.antt =====
-- The two walks over the text of a regular expression: `rewrite_pattern_for_capture` of
-- src/RegexParsingEngine.cpp, which leaves one capture group for the regex library, and
-- `normalize_message_filter` of src/RuleLoader.cpp, which takes the names of groups out.
-- The loops recur on the bytes left; `i = name_end` is the count of bytes to pass over.
pub mod Numbers
use parser_framework.Base.{
  ℕ, zero, suc, ◌+◌, Bool, true, false, ◌&&◌, ◌||◌, not, List, [], ◌∷◌, ◌++◌, none, some, ltb, ◌==◌,
  if◌then◌else◌, drop, take, Str, codes, find_char, to_string, Result, ok, err, ◌>>=◌, ◌>>◌,
  throw_if,
}
use parser_framework.Types.{MessageFilterRule, NamedCapture}

-- `i + 1 < pattern.size() && pattern[i + 1] == c`, for the bytes behind place `i`.
unfoldable pub begins : ℕ → Str → Bool
begins c [] = false
begins c (x ∷ rest) = x == c

abbrev pub invalid_named_group : Str → Str
invalid_named_group pattern =
    codes "Invalid named capture group in pattern [" ++ (pattern ++ codes "]")

-- The variables of the loop of `rewrite_pattern_for_capture`.
pub record Scanner : Type 0 where
  pub escaped : Bool
  pub in_char_class : Bool
  pub capture_index : ℕ
  pub skip : ℕ

abbrev pub scan_start : Scanner
scan_start = record { escaped = false; in_char_class = false; capture_index = 0; skip = 0 }

-- `target_group == 0 || capture_index != target_group ? "(?:" : "("`
unfoldable pub group_open : ℕ → ℕ → Str
group_open target_group capture_index =
    if target_group == 0 || not (capture_index == target_group) then codes "(?:" else codes "("

-- `has_question` and `named_capture`, at an opening parenthesis with `rest` behind it.
unfoldable pub has_question : Str → Bool
unfolding begins
has_question rest = begins b'?' rest

unfoldable pub named_capture : Str → Bool
unfolding begins has_question
named_capture rest =
    has_question rest
    && begins b'<' (drop 1 rest)
    && not (begins b'=' (drop 2 rest) || begins b'!' (drop 2 rest))

-- At an opening parenthesis that is neither escaped nor in a class.
unfoldable pub rewrite_open : ℕ → Str → Scanner → Str → Result (Str × Scanner)
unfolding group_open named_capture
rewrite_open target_group pattern s rest =
    if named_capture rest
    then (elim (find_char b'>' (drop 2 rest)) [
      | none ↦ err (invalid_named_group pattern)
      | some name_end ↦ ok (
        group_open target_group (s.capture_index + 1),
        record s { capture_index = s.capture_index + 1; skip = 3 + name_end },
      )
    ])
    else if has_question rest
    then ok (codes "(", s)
    else ok (
      group_open target_group (s.capture_index + 1),
      record s { capture_index = s.capture_index + 1 },
    )

-- One round of the loop: what is appended to `rewritten`, and the variables behind it.
unfoldable pub rewrite_byte : ℕ → Str → Scanner → ℕ → Str → Result (Str × Scanner)
unfolding rewrite_open
rewrite_byte target_group pattern s ch rest =
    if s.escaped
    then ok (ch ∷ [], record s { escaped = false })
    else if ch == b'\\'
    then ok (ch ∷ [], record s { escaped = true })
    else if s.in_char_class
    then ok (ch ∷ [], if ch == b']' then record s { in_char_class = false } else s)
    else if ch == b'['
    then ok (ch ∷ [], record s { in_char_class = true })
    else if not (ch == b'(')
    then ok (ch ∷ [], s)
    else rewrite_open target_group pattern s rest

-- The loop: what the rounds append, and the last `capture_index`.
unfoldable pub rewrite_loop : ℕ → Str → Scanner → Str → Result (Str × ℕ)
unfolding rewrite_byte
rewrite_loop target_group pattern s [] = ok ([], s.capture_index)
rewrite_loop target_group pattern s (ch ∷ rest) = elim s.skip [
  | zero ↦ do
    (appended, s') ← rewrite_byte target_group pattern s ch rest
    (later, last) ← rewrite_loop target_group pattern s' rest
    ok (appended ++ later, last)
  | suc left ↦ rewrite_loop target_group pattern (record s { skip = left }) rest
]

abbrev pub no_such_group : Str → ℕ → Str
no_such_group pattern target_group =
    codes "Pattern ["
    ++ (pattern ++ (codes "] does not contain capture group " ++ to_string target_group))

unfoldable pub rewrite_pattern_for_capture : Str → ℕ → Result Str
unfolding rewrite_loop
rewrite_pattern_for_capture pattern target_group = do
  (rewritten, capture_index) ← rewrite_loop target_group pattern scan_start pattern
  throw_if (ltb 0 target_group && ltb capture_index target_group)
      (no_such_group pattern target_group)
  ok (if target_group == 0 then codes "(" ++ (rewritten ++ codes ")") else rewritten)

-- The variables of the loop of `normalize_message_filter`.
pub record Normalizer : Type 0 where
  pub escaped : Bool
  pub group : ℕ
  pub skip : ℕ

abbrev pub normal_start : Normalizer
normal_start = record { escaped = false; group = 0; skip = 0 }

abbrev pub named_group : Str → Bool
named_group rest = begins b'?' rest && begins b'<' (drop 1 rest)

-- What one round appends to the filter's pattern and to its captures.
pub record Piece : Type 0 where
  pub pattern : Str
  pub captures : List NamedCapture

unfoldable pub normalize_open : Str → Normalizer → Str → Result (Piece × Normalizer)
unfolding begins
normalize_open pattern n rest =
    if named_group rest
    then (elim (find_char b'>' (drop 2 rest)) [
      | none ↦ err (invalid_named_group pattern)
      | some name_end ↦ ok (
        record {
          pattern = codes "(";
          captures = record { name = take name_end (drop 2 rest); group = n.group + 1 } ∷ [];
        },
        record n { group = n.group + 1; skip = 3 + name_end },
      )
    ])
    else ok (
      record { pattern = codes "("; captures = [] },
      if begins b'?' rest then n else record n { group = n.group + 1 },
    )

unfoldable pub normalize_byte : Str → Normalizer → ℕ → Str → Result (Piece × Normalizer)
unfolding normalize_open
normalize_byte pattern n ch rest =
    if n.escaped
    then ok (record { pattern = ch ∷ []; captures = [] }, record n { escaped = false })
    else if ch == b'\\'
    then ok (record { pattern = ch ∷ []; captures = [] }, record n { escaped = true })
    else if ch == b'('
    then normalize_open pattern n rest
    else ok (record { pattern = ch ∷ []; captures = [] }, n)

unfoldable pub normalize_loop : Str → Normalizer → Str → Result MessageFilterRule
unfolding normalize_byte
normalize_loop pattern n [] = ok (record { pattern = []; captures = [] })
normalize_loop pattern n (ch ∷ rest) = elim n.skip [
  | zero ↦ do
    (piece, n') ← normalize_byte pattern n ch rest
    filter ← normalize_loop pattern n' rest
    ok (record {
      pattern = piece.pattern ++ filter.pattern;
      captures = piece.captures ++ filter.captures;
    })
  | suc left ↦ normalize_loop pattern (record n { skip = left }) rest
]

unfoldable pub normalize_message_filter : Str → Result MessageFilterRule
unfolding normalize_loop
normalize_message_filter pattern = normalize_loop pattern normal_start pattern
