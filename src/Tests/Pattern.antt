-- ===== src/Tests/Pattern.antt =====
-- Runs of src/RegexParsingEngine.cpp's and src/RuleLoader.cpp's walks over patterns.
use parser_framework.Base.{◌≡◌, refl, [], ◌∷◌, codes, find_char, to_string, ok, err}
use parser_framework.Pattern.Numbers.{Normalizes, normalize_message_filter-Normalizes}
use parser_framework.Pattern.{rewrite_pattern_for_capture, normalize_message_filter, no_such_group}

rewrite_first_group :
    rewrite_pattern_for_capture (codes "a(b)(?<n>c)[(]\\((?:d)") 2
    ≡ ok (codes "a(?:b)(c)[(]\\((?:d)")
unfolding rewrite_pattern_for_capture find_char
rewrite_first_group = refl

rewrite_whole : rewrite_pattern_for_capture (codes "a(b)(?<n>c)") 0 ≡ ok (codes "(a(?:b)(?:c))")
unfolding rewrite_pattern_for_capture find_char
rewrite_whole = refl

rewrite_missing :
    rewrite_pattern_for_capture (codes "a(b)") 2
    ≡ err (codes "Pattern [a(b)] does not contain capture group 2")
unfolding rewrite_pattern_for_capture find_char to_string
rewrite_missing = refl

normalize_named :
    normalize_message_filter (codes "(a)(?<key>b)(?:c)(?<w>d)")
    ≡ ok (record {
      pattern = codes "(a)(b)(?:c)(d)";
      captures =
          record { name = codes "key"; group = 2 } ∷ record { name = codes "w"; group = 3 } ∷ [];
    })
unfolding normalize_message_filter find_char
normalize_named = refl

-- The two walks number groups differently: only one of them knows character classes.
normalize_class :
    normalize_message_filter (codes "[(](?<x>a)")
    ≡ ok (record {
      pattern = codes "[(](a)";
      captures = record { name = codes "x"; group = 2 } ∷ [];
    })
unfolding normalize_message_filter find_char
normalize_class = refl

rewrite_class :
    rewrite_pattern_for_capture (codes "[(](a)") 2 ≡ err (no_such_group (codes "[(](a)") 2)
unfolding rewrite_pattern_for_capture find_char
rewrite_class = refl

-- An escaped parenthesis opens no group, and a group that is not counted has no name.
normalize_escaped :
    normalize_message_filter (codes "\\((?:c)(?<x>a)")
    ≡ ok (record {
      pattern = codes "\\((?:c)(a)";
      captures = record { name = codes "x"; group = 1 } ∷ [];
    })
unfolding normalize_message_filter find_char
normalize_escaped = refl

normalize_message_filter-Normalizes_example :
    Normalizes (codes "(a)(?<key>b)(?:c)(?<w>d)") 0 (codes "(a)(?<key>b)(?:c)(?<w>d)") (
      ok (record {
        pattern = codes "(a)(b)(?:c)(d)";
        captures =
            record { name = codes "key"; group = 2 } ∷ record { name = codes "w"; group = 3 } ∷ [];
      }))
unfolding normalize_message_filter find_char
normalize_message_filter-Normalizes_example =
    normalize_message_filter-Normalizes (codes "(a)(?<key>b)(?:c)(?<w>d)")
