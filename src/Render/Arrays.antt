-- ===== src/Render/Arrays.antt =====
-- How the arrays that the renderers write are read as JSON.
use parser_framework.Base.{
  ℕ, true, List, [], ◌∷◌, ◌++◌, map, append_assoc, ◌≡◌, refl, Str, codes, All,
}
use parser_framework.Json.Grammar.{
  Json, string, array, object, no_field, field, reads_object, last_field, Values, no_value, value,
  White, stay, is_white, skip, Reads, reads_array, ReadsValues, ends_array, last_value,
  another_value,
}
use parser_framework.Json.{append_indent}
use parser_framework.Render.Blocks.{
  Renderable, Plain, IsField-Plain, White-ReadsFields, IsText, quote-Reads, indent-White,
}
use parser_framework.Render.Results.{render_string_row}
use parser_framework.Render.{quote, entry_lines}

-- A text of the value, with white space before it.
pub data ReadsElement : Json → Str → Str → Type 0 where
  element : (j : Json) (t t1 rest : Str) → White t t1 → Reads j t1 rest → ReadsElement j t rest

pub record IsElement (j : Json) (text : Str) : Type 0 where
  pub at : (rest : Str) → ReadsElement j (text ++ rest) rest

pub data Elements : Values → List Str → Type 0 where
  no_element : Elements no_value []
  next :
      (j : Json) (text : Str) (values : Values) (texts : List Str)
      → IsElement j text
      → Elements values texts
      → Elements (value j values) (text ∷ texts)

White-ReadsValues :
    (c : ℕ) (values : Values) (t rest : Str)
    → is_white c ≡ true
    → ReadsValues values t rest
    → ReadsValues values (c ∷ t) rest
White-ReadsValues c _ t rest w (ends_array _ _ a) = ends_array (c ∷ t) rest (skip c t _ w a)
White-ReadsValues c _ t rest w (last_value j _ t1 t2 _ a b d) =
    last_value j (c ∷ t) t1 t2 rest (skip c t _ w a) b d
White-ReadsValues c _ t rest w (another_value j k more _ t1 t2 t3 _ a b d e) =
    another_value j k more (c ∷ t) t1 t2 t3 rest (skip c t _ w a) b d e

last_element :
    (j : Json) (t u rest : Str)
    → ReadsElement j t u
    → White u (b']' ∷ rest)
    → ReadsValues (value j no_value) t rest
last_element j t u rest (element _ _ t1 _ a b) w = last_value j t t1 u rest a b w

next_element :
    (j k : Json) (more : Values) (t u rest : Str)
    → ReadsElement j t (b',' ∷ u)
    → ReadsValues (value k more) u rest
    → ReadsValues (value j (value k more)) t rest
next_element j k more t u rest (element _ _ t1 _ a b) h =
    another_value j k more t t1 _ u rest a b (stay _) h

-- The lines of an array, up to any closing of it.
pub element_lines :
    (values : Values) (texts : List Str)
    → Elements values texts
    → (close rest : Str) → White close (b']' ∷ rest)
    → ReadsValues values (entry_lines texts ++ close) rest
unfolding entry_lines
element_lines _ _ no_element close rest w = ends_array close rest w
element_lines _ _ (next j text _ _ e no_element) close rest w =
    rw (append_assoc text) (last_element j _ _ rest (e.at (10 ∷ close)) (skip _ _ _ refl w))
element_lines _ _ (next j text _ _ e (next k other values texts h more)) close rest w =
    rw (append_assoc text) (
      next_element j k values _ _ rest (e.at _) (
        White-ReadsValues 10 _ _ rest refl
          (element_lines _ _ (next k other values texts h more) close rest w)))

-- An array on lines of their own, whose closing bracket stands at the depth.
pub array-IsText :
    (depth : ℕ) (values : Values) (texts : List Str)
    → Elements values texts
    → IsText
        (array values)
        (codes "[\n" ++ (entry_lines texts ++ (append_indent depth ++ codes "]")))
array-IsText depth values texts h = record {
  at = λ rest. reads_array values _ rest (
      White-ReadsValues 10 values _ rest refl (
        rw (append_assoc (entry_lines texts), append_assoc (append_indent depth))
          (element_lines values texts h _ rest (indent-White depth _ _ (stay _)))));
}

abbrev pub strings : List Str → Values
strings [] = no_value
strings (s ∷ rest) = value (string s) (strings rest)

quote-IsElement : (s : Str) → Renderable s → IsElement (string s) (quote s)
quote-IsElement s h = record { at = λ rest. element _ _ _ rest (stay _) (quote-Reads s h rest) }

row-ReadsValues :
    (values : List Str)
    → All Renderable values
    → (rest : Str) → ReadsValues (strings values) (render_string_row values ++ (b']' ∷ rest)) rest
unfolding render_string_row
row-ReadsValues [] h rest = ends_array _ rest (stay _)
row-ReadsValues (s ∷ []) h rest = last_element _ _ _ rest ((quote-IsElement s h.0).at _) (stay _)
row-ReadsValues (s ∷ second ∷ more) h rest = rw (append_assoc (quote s)) (
    next_element _ _ _ _ _ rest ((quote-IsElement s h.0).at _)
      (White-ReadsValues 32 _ _ rest refl (row-ReadsValues (second ∷ more) h.1 rest)))

-- An array of strings on one line.
pub row-IsText :
    (values : List Str)
    → All Renderable values
    → IsText (array (strings values)) (codes "[" ++ (render_string_row values ++ codes "]"))
row-IsText values h = record {
  at = λ rest.
      reads_array _ _ rest
        (rw (append_assoc (render_string_row values)) (row-ReadsValues values h rest));
}

-- Strings on lines of their own.
pub strings-Elements :
    (depth : ℕ) (values : List Str)
    → All Renderable values
    → Elements (strings values) (map (λ s. append_indent depth ++ quote s) values)
strings-Elements depth [] h = no_element
strings-Elements depth (s ∷ rest) h =
    next (string s) _ (strings rest) _
      (record {
        at = λ more.
            rw (append_assoc (append_indent depth))
              (element _ _ _ more (indent-White depth _ _ (stay _)) (quote-Reads s h.0 more));
      })
      (strings-Elements depth rest h.1)

-- The object with one array that both renderers return.
pub document-Reads :
    (name : Str) (values : Values) (texts : List Str)
    → Plain name
    → Elements values texts
    → Reads
        (object (field name (array values) no_field))
        (codes "{\n"
          ++ (append_indent 1
              ++ (b'"'
                  ∷ (name
                      ++ (codes "\": [\n"
                          ++ (entry_lines texts ++ (append_indent 1 ++ codes "]\n}")))))))
        []
unfolding append_indent
document-Reads name values texts plain h =
    let f = IsField-Plain 1 name (array values) _ plain (array-IsText 1 values texts h) in
    reads_object _ _ [] (
      White-ReadsFields 10 _ _ [] refl (
        last_field name (array values) _ (codes "\n}") []
          (rw (append_assoc (entry_lines texts)) at (
            rw (append_assoc name) at
              (rw (append_assoc (append_indent 1)) at (f.at (codes "\n}")))))
          (skip _ _ _ refl (stay _))))
