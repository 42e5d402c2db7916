-- ===== src/Json/Grammar.antt =====
-- JSON texts, described independently of the renderers: what a reader finds in a text, and what it
-- leaves behind it. Strings are read by `read_string`, so bytes above 127 stand for themselves.
use parser_framework.Base.{ℕ, Bool, true, false, ◌||◌, ◌∷◌, ◌++◌, ◌≡◌, some, ◌==◌, Str, codes}
use parser_framework.Json.Reader.{read_string}

-- What a text denotes. The members of an object keep their order, and may repeat a name.
mutual
  pub data Json : Type 0 where
    string : Str → Json
    null : Json
    array : Values → Json
    object : Fields → Json

  pub data Values : Type 0 where
    no_value : Values
    value : Json → Values → Values

  pub data Fields : Type 0 where
    no_field : Fields
    field : Str → Json → Fields → Fields

abbrev pub is_white : ℕ → Bool
is_white c = c == 32 || c == 9 || c == 10 || c == 13

-- White space from the one text to the other.
pub data White : Str → Str → Type 0 where
  stay : (t : Str) → White t t
  skip : (c : ℕ) (t rest : Str) → is_white c ≡ true → White t rest → White (c ∷ t) rest

-- `Reads j t rest`: the text `t` is a text of `j` followed by `rest`.
mutual
  pub data Reads : Json → Str → Str → Type 0 where
    reads_string :
        (s t rest : Str) → read_string false t ≡ some (s, rest) → Reads (string s) (b'"' ∷ t) rest
    reads_null : (rest : Str) → Reads null (codes "null" ++ rest) rest
    reads_array :
        (values : Values) (t rest : Str)
        → ReadsValues values t rest
        → Reads (array values) (b'[' ∷ t) rest
    reads_object :
        (fields : Fields) (t rest : Str)
        → ReadsFields fields t rest
        → Reads (object fields) (b'{' ∷ t) rest

  -- What follows the bracket, up to and with the closing one.
  pub data ReadsValues : Values → Str → Str → Type 0 where
    ends_array : (t rest : Str) → White t (b']' ∷ rest) → ReadsValues no_value t rest
    last_value :
        (j : Json) (t t1 t2 rest : Str)
        → White t t1
        → Reads j t1 t2
        → White t2 (b']' ∷ rest)
        → ReadsValues (value j no_value) t rest
    another_value :
        (j k : Json) (more : Values) (t t1 t2 t3 rest : Str)
        → White t t1
        → Reads j t1 t2
        → White t2 (b',' ∷ t3)
        → ReadsValues (value k more) t3 rest
        → ReadsValues (value j (value k more)) t rest

  -- A name, a colon and a value, with white space before and between them.
  pub data ReadsField : Str → Json → Str → Str → Type 0 where
    reads_field :
        (name : Str) (j : Json) (t t1 t2 t3 t4 rest : Str)
        → White t (b'"' ∷ t1)
        → read_string false t1 ≡ some (name, t2)
        → White t2 (b':' ∷ t3)
        → White t3 t4
        → Reads j t4 rest
        → ReadsField name j t rest

  pub data ReadsFields : Fields → Str → Str → Type 0 where
    ends_object : (t rest : Str) → White t (b'}' ∷ rest) → ReadsFields no_field t rest
    last_field :
        (name : Str) (j : Json) (t t1 rest : Str)
        → ReadsField name j t t1
        → White t1 (b'}' ∷ rest)
        → ReadsFields (field name j no_field) t rest
    another_field :
        (name other : Str) (j k : Json) (more : Fields) (t t1 t2 rest : Str)
        → ReadsField name j t t1
        → White t1 (b',' ∷ t2)
        → ReadsFields (field other k more) t2 rest
        → ReadsFields (field name j (field other k more)) t rest
