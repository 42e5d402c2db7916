-- ===== src/Render/Blocks.antt =====
-- How the pieces that the renderers write are read as JSON.
use parser_framework.Base.{
  ℕ, zero, suc, true, false, List, [], ◌∷◌, ◌++◌, append_assoc, ◌≡◌, refl, some, Str, codes,
}
use parser_framework.Json.Grammar.{
  Json, string, object, Fields, no_field, field, White, stay, is_white, skip, Reads, reads_string,
  reads_object, ReadsField, reads_field, ReadsFields, ends_object, last_field, another_field,
}
use parser_framework.Json.Reader.{read_string, is_renderable, read-escape}
use parser_framework.Json.{append_indent, escape_json_string}
use parser_framework.Render.Results.{string_line, object_entry}
use parser_framework.Render.{quote, string_entry, entry_lines}

-- All control bytes of the string have a short escape.
abbrev pub Renderable : Str → Type 0
Renderable s = is_renderable s ≡ true

-- A name that the source writes out.
abbrev pub Plain : Str → Type 0
Plain name = (escape_json_string name ≡ name) × Renderable name

pub indent-White : (depth : ℕ) (t u : Str) → White t u → White (append_indent depth ++ t) u
unfolding append_indent
indent-White zero t u w = w
indent-White (suc depth) t u w = skip _ _ _ refl (skip _ _ _ refl (indent-White depth t u w))

pub read-Plain :
    (name : Str) → Plain name → (t : Str) → read_string false (name ++ (b'"' ∷ t)) ≡ some (name, t)
read-Plain name plain t = rw plain.0 at (rw plain.1 at (read-escape name t))

pub quote-Reads : (s : Str) → Renderable s → (rest : Str) → Reads (string s) (quote s ++ rest) rest
unfolding quote
quote-Reads s h rest = reads_string s _ rest (rw (append_assoc, read-escape s rest, h) refl)

-- A text that is read as the value, whatever follows.
pub record IsText (j : Json) (text : Str) : Type 0 where
  pub at : (rest : Str) → Reads j (text ++ rest) rest

pub record IsField (name : Str) (j : Json) (text : Str) : Type 0 where
  pub at : (rest : Str) → ReadsField name j (text ++ rest) rest

pub quote-IsText : (s : Str) → Renderable s → IsText (string s) (quote s)
quote-IsText s h = record { at = quote-Reads s h }

-- The lines of an object, up to any closing of it.
pub record IsBlock (fields : Fields) (body : Str) : Type 0 where
  pub at : (close rest : Str) → White close (b'}' ∷ rest) → ReadsFields fields (body ++ close) rest

-- `"name": text`, for a name that the source writes out.
pub IsField-Plain :
    (depth : ℕ) (name : Str) (j : Json) (text : Str)
    → Plain name
    → IsText j text
    → IsField name j (append_indent depth ++ (b'"' ∷ (name ++ (codes "\": " ++ text))))
IsField-Plain depth name j text plain h = record {
  at = λ rest. rw (append_assoc (append_indent depth)) (
      rw (append_assoc name) (
        reads_field name j _ _ _ _ _ rest (indent-White depth _ _ (stay _))
          (read-Plain name plain _) (stay _) (skip _ _ _ refl (stay _)) (h.at rest)));
}

pub IsField-quote :
    (depth : ℕ) (name : Str) (j : Json) (text : Str)
    → Renderable name
    → IsText j text
    → IsField name j (append_indent depth ++ (quote name ++ (codes ": " ++ text)))
unfolding quote
IsField-quote depth name j text n h = record {
  at = λ rest. rw (append_assoc (append_indent depth)) (
      rw (append_assoc (escape_json_string name), append_assoc (escape_json_string name))
        (reads_field name j _ _ _ _ _ rest (indent-White depth _ _ (stay _))
          (rw n at (read-escape name (b':' ∷ (32 ∷ (text ++ rest))))) (stay _)
          (skip _ _ _ refl (stay _)) (h.at rest)));
}

pub string_line-IsField :
    (depth : ℕ) (name s : Str)
    → Plain name
    → Renderable s
    → IsField name (string s) (string_line depth name s)
unfolding string_line string_entry
string_line-IsField depth name s plain h =
    IsField-Plain depth name (string s) (quote s) plain (quote-IsText s h)

-- The texts of the fields, in order.
pub data Entries : Fields → List Str → Type 0 where
  no_entry : Entries no_field []
  entry :
      (name : Str) (j : Json) (text : Str) (fields : Fields) (texts : List Str)
      → IsField name j text
      → Entries fields texts
      → Entries (field name j fields) (text ∷ texts)

abbrev pub append_fields : Fields → Fields → Fields
append_fields no_field other = other
append_fields (field name j rest) other = field name j (append_fields rest other)

pub Entries-append :
    (a b : Fields) (xs ys : List Str)
    → Entries a xs
    → Entries b ys
    → Entries (append_fields a b) (xs ++ ys)
Entries-append no_field b [] ys h k = k
Entries-append no_field b (x ∷ xs) ys h k = elim h [ ]
Entries-append (field name j rest) b [] ys h k = elim h [ ]
Entries-append (field name j rest) b (x ∷ xs) ys (entry _ _ _ _ _ e h) k =
    entry name j x (append_fields rest b) (xs ++ ys) e (Entries-append rest b xs ys h k)

-- White space before a field.
White-ReadsField :
    (c : ℕ) (name : Str) (j : Json) (t rest : Str)
    → is_white c ≡ true
    → ReadsField name j t rest
    → ReadsField name j (c ∷ t) rest
White-ReadsField c name j t rest w (reads_field _ _ _ t1 t2 t3 t4 _ a b d e f) =
    reads_field name j (c ∷ t) t1 t2 t3 t4 rest (skip c t _ w a) b d e f

pub White-ReadsFields :
    (c : ℕ) (fields : Fields) (t rest : Str)
    → is_white c ≡ true
    → ReadsFields fields t rest
    → ReadsFields fields (c ∷ t) rest
White-ReadsFields c _ t rest w (ends_object _ _ a) = ends_object (c ∷ t) rest (skip c t _ w a)
White-ReadsFields c _ t rest w (last_field name j _ t1 _ a b) =
    last_field name j (c ∷ t) t1 rest (White-ReadsField c name j t t1 w a) b
White-ReadsFields c _ t rest w (another_field name other j k more _ t1 t2 _ a b d) =
    another_field name other j k more (c ∷ t) t1 t2 rest (White-ReadsField c name j t t1 w a) b d

entry_lines-Reads :
    (fields : Fields) (texts : List Str)
    → Entries fields texts
    → (close rest : Str) → White close (b'}' ∷ rest)
    → ReadsFields fields (entry_lines texts ++ close) rest
unfolding entry_lines
entry_lines-Reads _ _ no_entry close rest w = ends_object close rest w
entry_lines-Reads _ _ (entry name j text _ _ e no_entry) close rest w =
    rw (append_assoc text) (last_field name j _ _ rest (e.at (10 ∷ close)) (skip _ _ _ refl w))
entry_lines-Reads _ _ (entry name j text _ _ e (entry other k next fields texts h more)) close rest
      w =
    rw (append_assoc text) (
      another_field name other j k fields _ _ _ rest (e.at _) (stay _) (
        White-ReadsFields 10 _ _ rest refl
          (entry_lines-Reads _ _ (entry other k next fields texts h more) close rest w)))

pub entry_lines-IsBlock :
    (fields : Fields) (texts : List Str) → Entries fields texts → IsBlock fields (entry_lines texts)
entry_lines-IsBlock fields texts h = record { at = entry_lines-Reads fields texts h }

-- An object whose closing brace stands at the depth.
pub object-IsText :
    (depth : ℕ) (fields : Fields) (body : Str)
    → IsBlock fields body
    → IsText (object fields) (codes "{\n" ++ (body ++ (append_indent depth ++ codes "}")))
object-IsText depth fields body h = record {
  at = λ rest. reads_object fields _ rest (
      White-ReadsFields 10 fields _ rest refl (
        rw (append_assoc body, append_assoc (append_indent depth))
          (h.at _ rest (indent-White depth _ _ (stay _)))));
}

pub object_entry-IsField :
    (depth : ℕ) (name : Str) (fields : Fields) (body : Str)
    → Plain name
    → IsBlock fields body
    → IsField name (object fields) (object_entry depth name body)
unfolding object_entry
object_entry-IsField depth name fields body plain h =
    IsField-Plain depth name (object fields) _ plain (object-IsText depth fields body h)
