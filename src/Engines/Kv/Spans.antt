-- ===== src/Engines/Kv/Spans.antt =====
-- Where the matches of src/KVParsingEngine.cpp's expression stand in the text.
use parser_framework.Base.{
  ℕ, zero, suc, ◌+◌, ◌-◌, ◌≤◌, ◌<◌, Bool, true, false, not, ◌||◌, List, [], ◌∷◌, Option, none, some,
  ◌≡◌, refl, arith, ◌==◌, if◌then◌else◌, length, is_empty, Str, Bool-cases, Option-cases, inl, inr,
}
use parser_framework.Engines.Kv.{
  span, ValueMatch, KvMatch, match_delimited, match_bare, is_bare, or_bare, match_value, is_space,
  is_key_byte, match_separator, match_here, kv_matches,
}

length-span : (p : ℕ → Bool) (s : Str) → length (span p s).0 + length (span p s).1 ≡ length s
unfolding span
length-span p [] = refl
length-span p (c ∷ cs) = ground (arith, length-span p cs)

length-positive : (s : Str) → is_empty s ≡ false → 0 < length s
length-positive [] h = cc
length-positive (c ∷ s) h = omega arith

-- A match takes no more than so many bytes.
abbrev Fits : ℕ → Option ValueMatch → Type 0
Fits n none = Unit
Fits n (some v) = v.length ≤ n

abbrev DelimitedFits : ℕ → Option (Str × ℕ) → Type 0
DelimitedFits n none = Unit
DelimitedFits n (some (v, k)) = k ≤ n

bare-Fits : (s : Str) → Fits (length s) (match_bare s)
unfolding match_bare
bare-Fits s = elim (Bool-cases (is_empty (span is_bare s).0)) [
  | inl p ↦ rw p tt
  | inr p ↦ rw p (omega (arith, length-span is_bare s))
]

delimited-Fits : (close : ℕ) (s : Str) → DelimitedFits (suc (length s)) (match_delimited close s)
unfolding match_delimited
delimited-Fits close s = elim (Bool-cases (is_empty (span (λ c. not (c == close)) s).1)) [
  | inl p ↦ rw p tt
  | inr p ↦ rw p (
      omega (
        arith,
        length-span (λ c. not (c == close)) s,
        length-positive (span (λ c. not (c == close)) s).1 p,
      ))
]

or_bare-Fits :
    (s : Str) (found : Option ValueMatch)
    → Fits (length s) found
    → Fits (length s) (or_bare s found)
or_bare-Fits s none h = bare-Fits s
or_bare-Fits s (some v) h = h

captured-Fits :
    (n : ℕ) (captures : Str → List (Option Str)) (found : Option (Str × ℕ))
    → DelimitedFits n found
    → Fits n (elim found [
      | none ↦ none
      | some (v, k) ↦ some (record { captures = captures v; length = k })
    ])
captured-Fits n captures none h = tt
captured-Fits n captures (some (v, k)) h = h

if-Fits :
    (b : Bool) (n : ℕ) (x y : Option ValueMatch) → Fits n x → Fits n y → Fits n (if b then x else y)
if-Fits true n x y h k = h
if-Fits false n x y h k = k

value-Fits : (s : Str) → Fits (length s) (match_value s)
unfolding match_value
value-Fits [] = tt
value-Fits (c ∷ cs) = or_bare-Fits (c ∷ cs) _ (
    if-Fits (c == b'"') _ _ _ (captured-Fits _ _ _ (delimited-Fits b'"' cs)) (
      if-Fits (c == b'\'') _ _ _ (captured-Fits _ _ _ (delimited-Fits b'\'' cs))
        (if-Fits (c == b'[') _ _ _ (captured-Fits _ _ _ (delimited-Fits b']' cs)) tt)))

abbrev SeparatorFits : ℕ → Option (ℕ × Str) → Type 0
SeparatorFits n none = Unit
SeparatorFits n (some (k, rest)) = k + length rest ≤ n

split-SeparatorFits :
    (taken n : ℕ) (rest : Str)
    → taken + length rest ≤ n
    → SeparatorFits n (elim rest [
      | [] ↦ none
      | c ∷ cs ↦
          if c == b':' || c == b'='
          then some (taken + 1 + length (span is_space cs).0, (span is_space cs).1)
          else none
    ])
split-SeparatorFits taken n [] h = tt
split-SeparatorFits taken n (c ∷ cs) h = elim (Bool-cases (c == b':' || c == b'=')) [
  | inl p ↦ rw p (omega (arith, length-span is_space cs))
  | inr p ↦ rw p tt
]

separator-Fits : (taken : ℕ) (s : Str) → SeparatorFits (taken + length s) (match_separator taken s)
unfolding match_separator
separator-Fits taken s =
    split-SeparatorFits (taken + length (span is_space s).0) _ (span is_space s).1
      (omega (arith, length-span is_space s))

abbrev SeparatorStarts : Option (ℕ × Str) → Type 0
SeparatorStarts none = Unit
SeparatorStarts (some (k, rest)) = 0 < k

split-SeparatorStarts :
    (taken : ℕ) (rest : Str)
    → SeparatorStarts (elim rest [
      | [] ↦ none
      | c ∷ cs ↦
          if c == b':' || c == b'='
          then some (taken + 1 + length (span is_space cs).0, (span is_space cs).1)
          else none
    ])
split-SeparatorStarts taken [] = tt
split-SeparatorStarts taken (c ∷ cs) = elim (Bool-cases (c == b':' || c == b'=')) [
  | inl p ↦ rw p (omega arith)
  | inr p ↦ rw p tt
]

separator-Starts : (taken : ℕ) (s : Str) → SeparatorStarts (match_separator taken s)
unfolding match_separator
separator-Starts taken s =
    split-SeparatorStarts (taken + length (span is_space s).0) (span is_space s).1

-- A match at a place takes a byte at least, and no more than there are.
abbrev HereFits : ℕ → ℕ → Option KvMatch → Type 0
HereFits position n none = Unit
HereFits position n (some m) = (m.position ≡ position) × (0 < m.length) × (m.length ≤ n)

value-HereFits :
    (position taken n : ℕ) (key : Str) (found : Option ValueMatch) (m : ℕ)
    → 0 < taken
    → taken + m ≤ n
    → Fits m found
    → HereFits position n (elim found [
      | none ↦ none
      | some v ↦ some (record {
        key = key;
        captures = v.captures;
        position = position;
        length = taken + v.length;
      })
    ])
value-HereFits position taken n key none m p h f = tt
value-HereFits position taken n key (some v) m p h f = (refl, omega arith, omega arith)

separator-HereFits :
    (position n : ℕ) (key : Str) (found : Option (ℕ × Str))
    → SeparatorFits n found
    → SeparatorStarts found
    → HereFits position n (elim found [
      | none ↦ none
      | some (taken, rest') ↦ elim (match_value rest') [
        | none ↦ none
        | some v ↦ some (record {
          key = key;
          captures = v.captures;
          position = position;
          length = taken + v.length;
        })
      ]
    ])
separator-HereFits position n key none h p = tt
separator-HereFits position n key (some (taken, rest')) h p =
    value-HereFits position taken n key (match_value rest') _ p h (value-Fits rest')

here-HereFits : (position : ℕ) (s : Str) → HereFits position (length s) (match_here position s)
unfolding match_here
here-HereFits position s = elim (Bool-cases (is_empty (span is_key_byte s).0)) [
  | inl p ↦ rw p tt
  | inr p ↦ rw p (
      separator-HereFits position _ (span is_key_byte s).0
        (match_separator (length (span is_key_byte s).0) (span is_key_byte s).1)
        (rw (length-span is_key_byte s) at
          (separator-Fits (length (span is_key_byte s).0) (span is_key_byte s).1))
        (separator-Starts (length (span is_key_byte s).0) (span is_key_byte s).1))
]

-- The matches stand one behind the other between the two places, each of a byte at least.
abbrev pub Disjoint : ℕ → ℕ → List KvMatch → Type 0
Disjoint from to [] = Unit
Disjoint from to (m ∷ rest) =
    (from ≤ m.position)
    × (0 < m.length)
    × (m.position + m.length ≤ to)
    × Disjoint (m.position + m.length) to rest

pub Disjoint-le : (a b to : ℕ) (ms : List KvMatch) → a ≤ b → Disjoint b to ms → Disjoint a to ms
Disjoint-le a b to [] h d = tt
Disjoint-le a b to (m ∷ ms) h d = (omega (arith, d.0), d.1, d.2, d.3)

pub kv_matches-Disjoint :
    (skip position to : ℕ) (s : Str)
    → position + length s ≡ to
    → Disjoint (position + skip) to (kv_matches skip position s)
unfolding kv_matches
kv_matches-Disjoint skip position to [] h = tt
kv_matches-Disjoint (suc skip) position to (c ∷ cs) h =
    Disjoint-le _ _ to _ (omega arith) (kv_matches-Disjoint skip (position + 1) to cs (omega arith))
kv_matches-Disjoint zero position to (c ∷ cs) h =
    elim (Option-cases (match_here position (c ∷ cs))) [
      | inl e ↦
          rw (e, kv_matches)
            (Disjoint-le _ _ to _ (omega arith)
              (kv_matches-Disjoint zero (position + 1) to cs (omega arith)))
      | inr (m, e) ↦
          let fits = rw e at (here-HereFits position (c ∷ cs)) in
          rw (e, kv_matches)
            (
              omega (arith, fits.0),
              fits.1,
              omega (arith, fits.0, fits.2),
              Disjoint-le _ _ to _ (omega (arith, fits.0, fits.1))
                  (kv_matches-Disjoint (m.length - 1) (position + 1) to cs (omega arith)),
            )
    ]
