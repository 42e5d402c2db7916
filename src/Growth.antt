-- ===== src/Growth.antt =====
-- How an operation on a `ParseResult` may change it: tokens, errors and new ids of matched rules are
-- appended, a property that is set stays as it is, the identification stays, and the flag says
-- whether a token was added.
use parser_framework.Base.{
  ◌≡◌, ◌≢◌, refl, sym, ◌∙◌, Bool, true, false, not, ◌||◌, List, [], ◌∷◌, ◌++◌, append-nil,
  append_assoc, Option, none, is_empty, Str, lookup, contains, IsIds, IsIds-concat, ◌⊎◌, inl, inr,
}
use parser_framework.Types.{Token, ParseResult}

abbrev pub Appends : List Str → List Str → Type 0
Appends errors result = (more : List Str) × (result ≡ errors ++ more)

pub Appends-trans : (a b c : List Str) → Appends a b → Appends b c → Appends a c
Appends-trans a b c (x, p) (y, q) = (x ++ y, q ∙ rw p (append_assoc a x y))

pub record SameRule (r s : ParseResult) : Type 0 where
  pub matched : r.matched ≡ s.matched
  pub message_rule_id : r.message_rule_id ≡ s.message_rule_id
  pub message_rule_name : r.message_rule_name ≡ s.message_rule_name
  pub event_name : r.event_name ≡ s.event_name
  pub event_pattern_id : r.event_pattern_id ≡ s.event_pattern_id

-- Each id is new where it is appended, and not empty.
abbrev pub NewIds : List Str → List Str → Type 0
NewIds old [] = Unit
NewIds old (id ∷ rest) = (contains old id ≡ false) × (id ≢ []) × NewIds (old ++ id ∷ []) rest

NewIds-append : (old a b : List Str) → NewIds old a → NewIds (old ++ a) b → NewIds old (a ++ b)
NewIds-append old [] b h k = rw append-nil at k
NewIds-append old (id ∷ a) b h k =
    (h.0, h.1, NewIds-append (old ++ id ∷ []) a b h.2 (rw (append_assoc old (id ∷ []) a) k))

pub IsIds-append : (old new : List Str) → IsIds old → NewIds old new → IsIds (old ++ new)
IsIds-append old [] h k = rw append-nil h
IsIds-append old (id ∷ new) h k =
    rw (append_assoc old (id ∷ []) new) at
      (IsIds-append (old ++ id ∷ []) new (IsIds-concat old id h k.0 k.1) k.2)

kept_twice :
    {a b c : Option Str} → (a ≡ none) ⊎ (b ≡ a) → (b ≡ none) ⊎ (c ≡ b) → (a ≡ none) ⊎ (c ≡ a)
kept_twice (inl e) k = inl e
kept_twice (inr e) (inl f) = inl (sym e ∙ f)
kept_twice (inr e) (inr f) = inr (f ∙ e)

pub record Grows (r : ParseResult) (flag : Bool) (s : ParseResult) : Type 0 where
  pub new_tokens : List Token
  pub new_errors : List Str
  pub tokens_eq : s.tokens ≡ r.tokens ++ new_tokens
  pub errors_eq : s.errors ≡ r.errors ++ new_errors
  pub flag_eq : flag ≡ not (is_empty new_tokens)
  pub keeps :
      (k : Str) → (lookup k r.properties ≡ none) ⊎ (lookup k s.properties ≡ lookup k r.properties)
  pub same_rule : SameRule r s
  pub new_ids : List Str
  pub ids_eq : s.token_extraction ≡ r.token_extraction ++ new_ids
  pub ids_new : NewIds r.token_extraction new_ids

SameRule-refl : (r : ParseResult) → SameRule r r
SameRule-refl r = record {
  matched = refl;
  message_rule_id = refl;
  message_rule_name = refl;
  event_name = refl;
  event_pattern_id = refl;
}

SameRule-trans : {r s t : ParseResult} → SameRule r s → SameRule s t → SameRule r t
SameRule-trans a b = record {
  matched = a.matched ∙ b.matched;
  message_rule_id = a.message_rule_id ∙ b.message_rule_id;
  message_rule_name = a.message_rule_name ∙ b.message_rule_name;
  event_name = a.event_name ∙ b.event_name;
  event_pattern_id = a.event_pattern_id ∙ b.event_pattern_id;
}

pub Grows-refl : (r : ParseResult) → Grows r false r
Grows-refl r = record {
  new_tokens = [];
  new_errors = [];
  tokens_eq = sym (append-nil r.tokens);
  errors_eq = sym (append-nil r.errors);
  flag_eq = refl;
  keeps = λ k. inr refl;
  same_rule = SameRule-refl r;
  new_ids = [];
  ids_eq = sym (append-nil r.token_extraction);
  ids_new = tt;
}

is_empty-append :
    {A : Type 0} (xs ys : List A)
    → (not (is_empty xs) || not (is_empty ys)) ≡ not (is_empty (xs ++ ys))
is_empty-append [] ys = refl
is_empty-append (x ∷ xs) ys = refl

append_two : {A : Type 0} (x y z a b : List A) → y ≡ x ++ a → z ≡ y ++ b → z ≡ x ++ (a ++ b)
append_two x y z a b p q = q ∙ rw p (append_assoc x a b)

-- One operation after another.
pub Grows-or : {r s t : ParseResult} {a b : Bool} → Grows r a s → Grows s b t → Grows r (a || b) t
Grows-or {r} {s} {t} g h = record {
  new_tokens = g.new_tokens ++ h.new_tokens;
  new_errors = g.new_errors ++ h.new_errors;
  tokens_eq =
      append_two r.tokens s.tokens t.tokens g.new_tokens h.new_tokens g.tokens_eq h.tokens_eq;
  errors_eq =
      append_two r.errors s.errors t.errors g.new_errors h.new_errors g.errors_eq h.errors_eq;
  flag_eq = rw (g.flag_eq, h.flag_eq) (is_empty-append g.new_tokens h.new_tokens);
  keeps = λ k. kept_twice (g.keeps k) (h.keeps k);
  same_rule = SameRule-trans g.same_rule h.same_rule;
  new_ids = g.new_ids ++ h.new_ids;
  ids_eq =
      append_two r.token_extraction s.token_extraction t.token_extraction g.new_ids h.new_ids
        g.ids_eq h.ids_eq;
  ids_new =
      NewIds-append r.token_extraction g.new_ids h.new_ids g.ids_new (rw g.ids_eq at h.ids_new);
}

-- Errors alone.
pub Grows-errors :
    (r : ParseResult) {errors : List Str} (more : List Str)
    → errors ≡ r.errors ++ more
    → Grows r false (record r { errors = errors })
Grows-errors r more e = record {
  new_tokens = [];
  new_errors = more;
  tokens_eq = sym (append-nil r.tokens);
  errors_eq = e;
  flag_eq = refl;
  keeps = λ k. inr refl;
  same_rule = record {
    matched = refl;
    message_rule_id = refl;
    message_rule_name = refl;
    event_name = refl;
    event_pattern_id = refl;
  };
  new_ids = [];
  ids_eq = sym (append-nil r.token_extraction);
  ids_new = tt;
}

-- One token.
pub Grows-token :
    (r : ParseResult) (token : Token) → Grows r true (record r { tokens = r.tokens ++ token ∷ [] })
Grows-token r token = record {
  new_tokens = token ∷ [];
  new_errors = [];
  tokens_eq = refl;
  errors_eq = sym (append-nil r.errors);
  flag_eq = refl;
  keeps = λ k. inr refl;
  same_rule = record {
    matched = refl;
    message_rule_id = refl;
    message_rule_name = refl;
    event_name = refl;
    event_pattern_id = refl;
  };
  new_ids = [];
  ids_eq = sym (append-nil r.token_extraction);
  ids_new = tt;
}

pub Grows-IsIds :
    {r s : ParseResult} {b : Bool}
    → Grows r b s
    → IsIds r.token_extraction
    → IsIds s.token_extraction
Grows-IsIds {r} g h = rw g.ids_eq (IsIds-append r.token_extraction g.new_ids h g.ids_new)
