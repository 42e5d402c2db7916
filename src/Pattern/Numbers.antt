-- ===== src/Pattern/Numbers.antt =====
-- What `normalize_message_filter` of src/RuleLoader.cpp makes of a pattern.
use mathlib.Core.Path.{subst}
use parser_framework.Base.{
  ℕ, zero, suc, ◌+◌, ◌≤◌, Bool, false, List, [], ◌∷◌, ◌++◌, none, some, ◌≡◌, ◌≢◌, refl, sym, ap,
  ◌∙◌, arith, ◌==◌, ==_iff, length, drop, take, Str, find_char, Result, ok, err, ◌>>=◌, All,
  Bool-cases, Option-cases, inl, inr,
}
use parser_framework.Pattern.{
  begins, invalid_named_group, Normalizer, normalize_open, normalize_byte, normalize_loop,
  normalize_message_filter,
}
use parser_framework.Types.{NamedCapture, MessageFilterRule}

-- A text does not begin with the byte.
abbrev pub NotNext : ℕ → Str → Type 0
NotNext c [] = Unit
NotNext c (x ∷ rest) = x ≢ c

-- The byte is not in the text.
abbrev pub Without : ℕ → Str → Type 0
Without c = All (λ x. x ≢ c)

-- What stands before the filter of the rest.
abbrev pub before : Str → List NamedCapture → Result MessageFilterRule → Result MessageFilterRule
before pattern captures later = later >>= λ filter.
    ok (record { pattern = pattern ++ filter.pattern; captures = captures ++ filter.captures })

-- How a pattern is read, where `groups` capture groups have been opened: what is read, and the filter.
pub data Normalizes (pattern : Str) : ℕ → Str → Result MessageFilterRule → Type 0 where
  end : (groups : ℕ) → Normalizes pattern groups [] (ok (record { pattern = []; captures = [] }))
  -- A backslash and the byte behind it stay as they are, whatever the byte is.
  escape :
      (groups c : ℕ) (rest : Str) (later : Result MessageFilterRule)
      → Normalizes pattern groups rest later
      → Normalizes pattern groups (b'\\' ∷ c ∷ rest) (before (b'\\' ∷ c ∷ []) [] later)
  last_backslash :
      (groups : ℕ)
      → Normalizes pattern groups (b'\\' ∷ []) (ok (record { pattern = b'\\' ∷ []; captures = [] }))
  byte :
      (groups c : ℕ) (rest : Str) (later : Result MessageFilterRule)
      → c ≢ b'\\'
      → c ≢ b'('
      → Normalizes pattern groups rest later
      → Normalizes pattern groups (c ∷ rest) (before (c ∷ []) [] later)
  -- A plain group counts.
  plain_group :
      (groups : ℕ) (rest : Str) (later : Result MessageFilterRule)
      → NotNext b'?' rest
      → Normalizes pattern (groups + 1) rest later
      → Normalizes pattern groups (b'(' ∷ rest) (before (b'(' ∷ []) [] later)
  -- A group with a question mark but without a name does not.
  special_group :
      (groups : ℕ) (rest : Str) (later : Result MessageFilterRule)
      → NotNext b'<' rest
      → Normalizes pattern groups (b'?' ∷ rest) later
      → Normalizes pattern groups (b'(' ∷ b'?' ∷ rest) (before (b'(' ∷ []) [] later)
  -- A named group becomes a plain one, and its name goes to the captures with its number.
  with_name :
      (groups : ℕ) (name rest : Str) (later : Result MessageFilterRule)
      → Without b'>' name
      → Normalizes pattern (groups + 1) rest later
      → Normalizes pattern groups
          (b'(' ∷ b'?' ∷ b'<' ∷ (name ++ b'>' ∷ rest))
          (before (b'(' ∷ []) (record { name = name; group = groups + 1 } ∷ []) later)
  open_name :
      (groups : ℕ) (rest : Str)
      → Without b'>' rest
      → Normalizes pattern groups (b'(' ∷ b'?' ∷ b'<' ∷ rest) (err (invalid_named_group pattern))

abbrev at : Bool → ℕ → ℕ → Normalizer
at escaped group skip = record { escaped = escaped; group = group; skip = skip }

-- Bytes that are passed over.
loop-skip :
    (pattern : Str) (group skip : ℕ) (s : Str)
    → normalize_loop pattern (at false group skip) s
      ≡ normalize_loop pattern (at false group 0) (drop skip s)
unfolding normalize_loop
loop-skip pattern group zero s = refl
loop-skip pattern group (suc skip) [] = refl
loop-skip pattern group (suc skip) (c ∷ s) = loop-skip pattern group skip s

-- The bytes from the question mark up to the end of a name.
name-skip :
    (pattern : Str) (group i : ℕ) (rest : Str)
    → normalize_loop pattern (at false group (3 + i)) (b'?' ∷ b'<' ∷ rest)
      ≡ normalize_loop pattern (at false group 0) (drop (suc i) rest)
name-skip pattern group i rest =
    let three : 3 + i ≡ suc (suc (suc i)) = omega arith in
    loop-skip pattern group (3 + i) (b'?' ∷ b'<' ∷ rest)
    ∙ ap (λ k. normalize_loop pattern (at false group 0) (drop k (b'?' ∷ b'<' ∷ rest))) three

find_char-none : (c : ℕ) (s : Str) → find_char c s ≡ none → Without c s
unfolding find_char
find_char-none c [] e = tt
find_char-none c (x ∷ s) e = (ground (arith, ==_iff x c), find_char-none c s (ground arith))

find_char-some :
    (c : ℕ) (s : Str) (i : ℕ)
    → find_char c s ≡ some i
    → (s ≡ take i s ++ c ∷ drop (suc i) s) × Without c (take i s)
unfolding find_char
find_char-some c [] i e = absurd (cc e)
find_char-some c (x ∷ s) zero e =
    let same : x ≡ c = ground (arith, ==_iff x c) in (ap (λ d. d ∷ s) same, tt)
find_char-some c (x ∷ s) (suc i) e =
    let (split, without) = find_char-some c s i (ground arith) in
    (ap (◌∷◌ x) split, (ground (arith, ==_iff x c), without))

length-drop : (n : ℕ) (s : Str) → length (drop n s) ≤ length s
length-drop zero s = omega arith
length-drop (suc n) [] = omega arith
length-drop (suc n) (x ∷ s) = omega (arith, length-drop n s)

before-escape :
    (c : ℕ) (later : Result MessageFilterRule)
    → before (b'\\' ∷ []) [] (before (c ∷ []) [] later) ≡ before (b'\\' ∷ c ∷ []) [] later
before-escape c (ok filter) = refl
before-escape c (err what) = refl

module _ (pattern : Str) where
  Reads : ℕ → Str → Type 0
  Reads group s = Normalizes pattern group s (normalize_loop pattern (at false group 0) s)

  escape-Reads :
      (group : ℕ) (rest : Str)
      → ((s : Str) → length s ≤ length rest → Reads group s)
      → Reads group (b'\\' ∷ rest)
  unfolding Reads normalize_loop normalize_byte
  escape-Reads group [] h = last_backslash group
  escape-Reads group (c ∷ rest) h =
      subst (Normalizes pattern group (b'\\' ∷ c ∷ rest)) (sym (before-escape c _))
        (escape group c rest _ (h rest (omega arith)))

  named-Reads :
      (group : ℕ) (rest : Str)
      → ((s : Str) → length s ≤ length rest → Reads (group + 1) s)
      → Reads group (b'(' ∷ b'?' ∷ b'<' ∷ rest)
  unfolding Reads normalize_loop normalize_byte normalize_open begins
  named-Reads group rest h = elim (Option-cases (find_char b'>' rest)) [
    | inl e ↦ rw e (open_name group rest (find_char-none b'>' rest e))
    | inr (i, e) ↦
        let (split, without) = find_char-some b'>' rest i e in
        let later = drop (suc i) rest in
        let rec = h later (length-drop (suc i) rest) in
        let named = record { name = take i rest; group = group + 1 } ∷ [] in
        rw e (
          subst (Normalizes pattern group (b'(' ∷ b'?' ∷ b'<' ∷ rest))
            (sym (ap (before (b'(' ∷ []) named) (name-skip pattern (group + 1) i rest)))
            (subst
              (λ s.
                Normalizes pattern group (b'(' ∷ b'?' ∷ b'<' ∷ s) (
                  before (b'(' ∷ []) named (normalize_loop pattern (at false (group + 1) 0) later)))
              (sym split) (with_name group (take i rest) later _ without rec)))
  ]

  special-Reads :
      (group : ℕ) (rest : Str)
      → ((more : ℕ) (s : Str) → length s ≤ suc (length rest) → Reads more s)
      → Reads group (b'(' ∷ b'?' ∷ rest)
  unfolding Reads normalize_loop normalize_byte normalize_open begins
  special-Reads group [] h = special_group group [] _ tt (h group (b'?' ∷ []) (omega arith))
  special-Reads group (x ∷ rest) h = elim (Bool-cases (x == b'<')) [
    | inr p ↦ rw p (
        special_group group (x ∷ rest) _ (λ e. cc (p, (==_iff x _).1 e))
          (h group (b'?' ∷ x ∷ rest) (omega arith)))
    | inl p ↦
        subst (λ y. Reads group (b'(' ∷ b'?' ∷ y ∷ rest)) (sym ((==_iff x b'<').0 p))
          (named-Reads group rest (λ s l. h (group + 1) s (omega (arith, l))))
  ]

  open-Reads :
      (group : ℕ) (rest : Str)
      → ((more : ℕ) (s : Str) → length s ≤ length rest → Reads more s)
      → Reads group (b'(' ∷ rest)
  unfolding Reads normalize_loop normalize_byte normalize_open begins
  open-Reads group [] h = plain_group group [] _ tt (h (group + 1) [] (omega arith))
  open-Reads group (x ∷ rest) h = elim (Bool-cases (x == b'?')) [
    | inr p ↦ rw p (
        plain_group group (x ∷ rest) _ (λ e. cc (p, (==_iff x _).1 e))
          (h (group + 1) (x ∷ rest) (omega arith)))
    | inl p ↦
        subst (λ y. Reads group (b'(' ∷ y ∷ rest)) (sym ((==_iff x b'?').0 p))
          (special-Reads group rest (λ more s l. h more s (omega (arith, l))))
  ]

  loop-Reads : (bound group : ℕ) (s : Str) → length s ≤ bound → Reads group s
  unfolding Reads normalize_loop normalize_byte
  loop-Reads bound group [] l = end group
  loop-Reads zero group (c ∷ rest) l = absurd (omega (arith, l))
  loop-Reads (suc bound) group (c ∷ rest) l =
      let shorter = λ (more : ℕ) (s : Str) (k : length s ≤ length rest).
        loop-Reads bound more s (omega (arith, k, l)) in
      elim (Bool-cases (c == b'\\')) [
        | inl p ↦
            subst (λ d. Reads group (d ∷ rest)) (sym ((==_iff c b'\\').0 p))
              (escape-Reads group rest (shorter group))
        | inr p ↦ elim (Bool-cases (c == b'(')) [
          | inl q ↦
              subst (λ d. Reads group (d ∷ rest)) (sym ((==_iff c b'(').0 q))
                (open-Reads group rest shorter)
          | inr q ↦
              rw (p, q)
                (byte group c rest _ (λ e. cc (p, (==_iff c _).1 e)) (λ e. cc (q, (==_iff c _).1 e))
                  (loop-Reads bound group rest (omega (arith, l))))
        ]
      ]

-- The filter of a pattern is the pattern with each named group made a plain one. It has a capture for
-- each named group, in their order, whose number is the count of the groups opened up to it, named or
-- plain: a parenthesis behind a backslash opens none, one in a character class opens one like any
-- other, and a group with a question mark but without a name does not count. Whatever begins with
-- `(?<`, a lookbehind too, is read as a named group. The one error is a name that does not end.
pub normalize_message_filter-Normalizes :
    (pattern : Str) → Normalizes pattern 0 pattern (normalize_message_filter pattern)
unfolding normalize_message_filter Reads
normalize_message_filter-Normalizes pattern =
    loop-Reads pattern (length pattern) 0 pattern (omega arith)
