-- ===== src/Json/Embedded.antt =====
-- A JSON text in the middle of another, with its lines indented: `indent_embedded_json` of
-- src/IngestionPipeline.cpp.
use parser_framework.Base.{
  ℕ, zero, suc, Bool, true, false, List, [], ◌∷◌, ◌++◌, append_assoc, ◌≡◌, ◌≢◌, ap, refl, ◌∙◌,
  Option, none, some, if◌then◌else◌, if-cases, ◌==◌, ltb, arith, inl, inr, Bool-cases, Str,
}
use parser_framework.Json.Grammar.{
  Json, Values, Fields, White, stay, skip, Reads, reads_string, reads_null, reads_array,
  reads_object, ReadsValues, ends_array, last_value, another_value, ReadsField, reads_field,
  ReadsFields, ends_object, last_field, another_field,
}
use parser_framework.Json.Reader.{read_string, put, unescape}
use parser_framework.Json.{append_indent}

abbrev onto_line : ℕ → List Str → List Str
onto_line c [] = (c ∷ []) ∷ []
onto_line c (line ∷ rest) = (c ∷ line) ∷ rest

-- The lines between the new lines of a text: the values of `line` in the loop over `start`.
unfoldable pub lines_of : Str → List Str
lines_of [] = [] ∷ []
lines_of (c ∷ rest) = let later = lines_of rest in if c == 10 then [] ∷ later else onto_line c later

-- The rounds of the loop: every line but the first is indented.
unfoldable pub indent_lines : ℕ → List Str → Str
unfolding append_indent
indent_lines depth [] = []
indent_lines depth (line ∷ []) = line
indent_lines depth (line ∷ second ∷ rest) =
    line ++ (10 ∷ (append_indent depth ++ indent_lines depth (second ∷ rest)))

unfoldable pub indent_embedded_json : Str → ℕ → Str
unfolding lines_of indent_lines
indent_embedded_json json depth = indent_lines depth (lines_of json)

-- The text with spaces behind each new line, and `rest` at its end.
embed : ℕ → Str → Str → Str
embed depth rest [] = rest
embed depth rest (c ∷ t) =
    if c == 10 then 10 ∷ (append_indent depth ++ embed depth rest t) else c ∷ embed depth rest t

onto-lines :
    (depth c : ℕ) (lines : List Str)
    → indent_lines depth (onto_line c lines) ≡ c ∷ indent_lines depth lines
unfolding indent_lines
onto-lines depth c [] = refl
onto-lines depth c (x ∷ []) = refl
onto-lines depth c (x ∷ y ∷ rest) = refl

empty-line :
    (depth : ℕ) (lines : List Str)
    → lines ≢ []
    → indent_lines depth ([] ∷ lines) ≡ 10 ∷ (append_indent depth ++ indent_lines depth lines)
unfolding indent_lines
empty-line depth [] ne = absurd (ne refl)
empty-line depth (x ∷ rest) ne = refl

onto_line-ne : (c : ℕ) (lines : List Str) → onto_line c lines ≢ []
onto_line-ne c [] = λ e. cc e
onto_line-ne c (x ∷ rest) = λ e. cc e

lines-ne : (t : Str) → lines_of t ≢ []
unfolding lines_of
lines-ne [] = λ e. cc e
lines-ne (c ∷ rest) =
    if-cases (λ lines. lines ≢ []) (c == 10) ([] ∷ lines_of rest) _ (λ _ e. cc e)
      (λ _. onto_line-ne c (lines_of rest))

first-lines :
    (depth : ℕ) (t : Str)
    → indent_lines depth ([] ∷ lines_of t)
      ≡ 10 ∷ (append_indent depth ++ indent_lines depth (lines_of t))
first-lines depth t = empty-line depth (lines_of t) (lines-ne t)

embed-indent :
    (depth : ℕ) (rest t : Str) → indent_embedded_json t depth ++ rest ≡ embed depth rest t
unfolding indent_embedded_json lines_of embed indent_lines
embed-indent depth rest [] = refl
embed-indent depth rest (c ∷ t) = elim (Bool-cases (c == 10)) [
  | inl e ↦ rw e (
      ap (λ x. x ++ rest) (first-lines depth t)
      ∙ ap (λ x. 10 ∷ x)
          (append_assoc (append_indent depth) (indent_lines depth (lines_of t)) rest
            ∙ ap (λ x. append_indent depth ++ x) (embed-indent depth rest t)))
  | inr e ↦ rw e (
      ap (λ x. x ++ rest) (onto-lines depth c (lines_of t))
      ∙ ap (λ x. c ∷ x) (embed-indent depth rest t))
]

put-map :
    (f : Str → Str) (o : Option ℕ) (l k : Option (Str × Str))
    → ((s r : Str) → l ≡ some (s, r) → k ≡ some (s, f r))
    → (s r : Str) → put o l ≡ some (s, r)
    → put o k ≡ some (s, f r)
put-map f none l k h s r e = absurd (cc e)
put-map f (some c) none k h s r e = absurd (cc e)
put-map f (some c) (some (s', r')) k h s r e = rw (h s' r' refl) (cc e)

-- What a reader does with a byte, for two texts behind it.
plain_step :
    (f : Str → Str) (c : ℕ) (t : Str) (later unescaped later' unescaped' : Option (Str × Str))
    → ((s r : Str) → later ≡ some (s, r) → later' ≡ some (s, f r))
    → ((s r : Str) → unescaped ≡ some (s, r) → unescaped' ≡ some (s, f r))
    → (s r : Str)
    → (if c == b'"'
        then some ([], t)
        else if c == b'\\'
        then unescaped
        else if ltb c 32
        then none
        else put (some c) later)
      ≡ some (s, r)
    → (if c == b'"'
        then some ([], f t)
        else if c == b'\\'
        then unescaped'
        else if ltb c 32
        then none
        else put (some c) later')
      ≡ some (s, f r)
plain_step f c t later unescaped later' unescaped' h k s r e = elim (Bool-cases (c == b'"')) [
  | inl p ↦ rw p (cc (rw p at e))
  | inr p ↦ rw p (elim (Bool-cases (c == b'\\')) [
    | inl q ↦ rw q (k s r (rw q at (rw p at e)))
    | inr q ↦ rw q (elim (Bool-cases (ltb c 32)) [
      | inl l ↦ absurd (cc (rw l at (rw q at (rw p at e))))
      | inr l ↦ rw l (put-map f (some c) later later' h s r (rw l at (rw q at (rw p at e))))
    ])
  ])
]

escaped_newline :
    (c : ℕ) (t s rest : Str) → (c == 10) ≡ true → read_string true (c ∷ t) ≢ some (s, rest)
unfolding read_string
escaped_newline c t s rest p = ground (arith, p)

plain_newline :
    (c : ℕ) (t s rest : Str) → (c == 10) ≡ true → read_string false (c ∷ t) ≢ some (s, rest)
unfolding read_string
plain_newline c t s rest p = ground (arith, p)

read_string-embed :
    (depth : ℕ) (u : Str) (escaped : Bool) (t s rest : Str)
    → read_string escaped t ≡ some (s, rest)
    → read_string escaped (embed depth u t) ≡ some (s, embed depth u rest)
unfolding read_string embed
read_string-embed depth u escaped [] s rest e = absurd (cc e)
read_string-embed depth u true (c ∷ t) s rest e = elim (Bool-cases (c == 10)) [
  | inl p ↦ absurd (escaped_newline c t s rest p e)
  | inr p ↦ rw p (
      put-map (embed depth u) (unescape c) _ _ (λ s' r. read_string-embed depth u false t s' r) s
        rest e)
]
read_string-embed depth u false (c ∷ t) s rest e = elim (Bool-cases (c == 10)) [
  | inl p ↦ absurd (plain_newline c t s rest p e)
  | inr p ↦ rw p (
      plain_step (embed depth u) c t _ _ _ _ (λ s' r. read_string-embed depth u false t s' r)
        (λ s' r. read_string-embed depth u true t s' r) s rest e)
]

indent-embedded : (depth : ℕ) (t u : Str) → White t u → White (append_indent depth ++ t) u
unfolding append_indent
indent-embedded zero t u w = w
indent-embedded (suc depth) t u w = skip _ _ _ refl (skip _ _ _ refl (indent-embedded depth t u w))

White-embed : (depth : ℕ) (u t r : Str) → White t r → White (embed depth u t) (embed depth u r)
unfolding embed
White-embed depth u t _ (stay _) = stay _
White-embed depth u _ r (skip c t _ w h) =
    if-cases (λ x. White x (embed depth u r)) (c == 10)
      (10 ∷ (append_indent depth ++ embed depth u t)) (c ∷ embed depth u t)
      (λ _. skip 10 _ _ refl (indent-embedded depth _ _ (White-embed depth u t r h)))
      (λ _. skip c _ _ w (White-embed depth u t r h))

mutual
  unfolding embed

  Reads-embed :
      (depth : ℕ) (u : Str) (j : Json) (t r : Str)
      → Reads j t r
      → Reads j (embed depth u t) (embed depth u r)
  Reads-embed depth u _ _ r (reads_string s t _ e) =
      reads_string s _ _ (read_string-embed depth u false t s r e)
  Reads-embed depth u _ _ r (reads_null _) = reads_null _
  Reads-embed depth u _ _ r (reads_array values t _ h) =
      reads_array values _ _ (ReadsValues-embed depth u values t r h)
  Reads-embed depth u _ _ r (reads_object fields t _ h) =
      reads_object fields _ _ (ReadsFields-embed depth u fields t r h)

  ReadsValues-embed :
      (depth : ℕ) (u : Str) (values : Values) (t r : Str)
      → ReadsValues values t r
      → ReadsValues values (embed depth u t) (embed depth u r)
  ReadsValues-embed depth u _ t r (ends_array _ _ w) = ends_array _ _ (White-embed depth u _ _ w)
  ReadsValues-embed depth u _ t r (last_value j _ t1 t2 _ a b w) =
      last_value j _ _ _ _ (White-embed depth u _ _ a) (Reads-embed depth u j t1 t2 b)
        (White-embed depth u _ _ w)
  ReadsValues-embed depth u _ t r (another_value j k more _ t1 t2 t3 _ a b w h) =
      another_value j k more _ _ _ _ _ (White-embed depth u _ _ a) (Reads-embed depth u j t1 t2 b)
        (White-embed depth u _ _ w) (ReadsValues-embed depth u _ t3 r h)

  ReadsField-embed :
      (depth : ℕ) (u name : Str) (j : Json) (t r : Str)
      → ReadsField name j t r
      → ReadsField name j (embed depth u t) (embed depth u r)
  ReadsField-embed depth u name j t r (reads_field _ _ _ t1 t2 t3 t4 _ a b c d h) =
      reads_field name j _ _ _ _ _ _ (White-embed depth u _ _ a)
        (read_string-embed depth u false t1 name t2 b) (White-embed depth u _ _ c)
        (White-embed depth u _ _ d) (Reads-embed depth u j t4 r h)

  ReadsFields-embed :
      (depth : ℕ) (u : Str) (fields : Fields) (t r : Str)
      → ReadsFields fields t r
      → ReadsFields fields (embed depth u t) (embed depth u r)
  ReadsFields-embed depth u _ t r (ends_object _ _ w) = ends_object _ _ (White-embed depth u _ _ w)
  ReadsFields-embed depth u _ t r (last_field name j _ t1 _ a w) =
      last_field name j _ _ _ (ReadsField-embed depth u name j t t1 a) (White-embed depth u _ _ w)
  ReadsFields-embed depth u _ t r (another_field name other j k more _ t1 t2 _ a w h) =
      another_field name other j k more _ _ _ _ (ReadsField-embed depth u name j t t1 a)
        (White-embed depth u _ _ w) (ReadsFields-embed depth u _ t2 r h)

-- A JSON text whose lines are indented stands for the same value, wherever it is embedded.
pub indent_embedded_json-Reads :
    (j : Json) (text : Str) (depth : ℕ)
    → Reads j text []
    → (rest : Str) → Reads j (indent_embedded_json text depth ++ rest) rest
unfolding embed
indent_embedded_json-Reads j text depth h rest =
    rw (embed-indent depth rest text) (Reads-embed depth rest j text [] h)
