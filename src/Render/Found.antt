-- ===== src/Render/Found.antt =====
-- Which values stand where in the tree of dotted names of src/ParserFramework.cpp.
use parser_framework.Base.{
  ℕ, Bool, true, false, ◌&&◌, List, [], ◌∷◌, ◌++◌, Option, none, some, ◌≡◌, ◌≢◌, ◌↔◌, refl, sym, ap,
  ◌∙◌, if◌then◌else◌, if-cases, ◌==◌, arith, Str, str_eq, str_eq_iff, contains,
}
use parser_framework.Render.{
  RenderNode, node, Children, no_child, child, empty_node, find_child, update_child, onto_first,
  segments, insert_segments, insert_render_token,
}
use parser_framework.Render.Results.{first_tokens, insert_tokens, build_render_tree}
use parser_framework.Types.{Token, ParseResult}

-- The value at the end of a path.
unfoldable pub value_at : List Str → RenderNode → Option Str
unfolding find_child
value_at [] (node value order children) = value
value_at (name ∷ path) (node value order children) = elim (find_child name children) [
  | none ↦ none
  | some found ↦ value_at path found
]

abbrev path_eq : List Str → List Str → Bool
path_eq [] [] = true
path_eq (x ∷ xs) (y ∷ ys) = str_eq x y && path_eq xs ys
path_eq _ _ = false

path_eq_iff : (a b : List Str) → (path_eq a b ≡ true) ↔ (a ≡ b)
path_eq_iff (x ∷ a) (y ∷ b) = ground (arith, path_eq_iff a b, str_eq_iff x y)
path_eq_iff _ _ = ground arith

-- The inverse of `segments`.
abbrev join_segments : List Str → Str
join_segments [] = []
join_segments (x ∷ []) = x
join_segments (x ∷ y ∷ rest) = x ++ (b'.' ∷ join_segments (y ∷ rest))

join-onto_first :
    (c : ℕ) (parts : List Str) → join_segments (onto_first c parts) ≡ c ∷ join_segments parts
join-onto_first c [] = refl
join-onto_first c (x ∷ []) = refl
join-onto_first c (x ∷ y ∷ rest) = refl

join-dot : (parts : List Str) → parts ≢ [] → join_segments ([] ∷ parts) ≡ b'.' ∷ join_segments parts
join-dot [] ne = absurd (ne refl)
join-dot (x ∷ rest) ne = refl

onto_first-ne : (c : ℕ) (parts : List Str) → onto_first c parts ≢ []
onto_first-ne c [] = λ e. cc e
onto_first-ne c (x ∷ rest) = λ e. cc e

segments-ne : (name : Str) → segments name ≢ []
unfolding segments
segments-ne [] = λ e. cc e
segments-ne (c ∷ rest) =
    if-cases (λ parts. parts ≢ []) (c == b'.') ([] ∷ segments rest) _ (λ _ e. cc e)
      (λ _. onto_first-ne c (segments rest))

join-segments : (name : Str) → join_segments (segments name) ≡ name
unfolding segments
join-segments [] = refl
join-segments (c ∷ rest) =
    if-cases (λ parts. join_segments parts ≡ c ∷ rest) (c == b'.') ([] ∷ segments rest) _
      (λ dot. join-dot (segments rest) (segments-ne rest) ∙ ground (arith, join-segments rest, dot))
      (λ _. join-onto_first c (segments rest) ∙ ap (λ later. c ∷ later) (join-segments rest))

bool_ext : (p q : Bool) → (p ≡ true → q ≡ true) → (q ≡ true → p ≡ true) → p ≡ q
bool_ext p q h k = ground (arith, h, k)

-- Two names have the same path only if they are the same.
path_eq-segments : (a b : Str) → path_eq (segments a) (segments b) ≡ str_eq a b
path_eq-segments a b =
    bool_ext _ _
      (λ h.
        (str_eq_iff a b).1
          (sym (join-segments a) ∙ (ap join_segments ((path_eq_iff _ _).0 h) ∙ join-segments b)))
      (λ h. (path_eq_iff _ _).1 (ap segments ((str_eq_iff a b).0 h)))

abbrev pub or_empty_node : Option RenderNode → RenderNode
or_empty_node none = empty_node
or_empty_node (some found) = found

pub find_child-update :
    (f : RenderNode → RenderNode) (name key : Str) (children : Children)
    → find_child name (update_child f key children) ≡ (
        if str_eq key name
        then some (f (or_empty_node (find_child key children)))
        else find_child name children)
unfolding find_child update_child
find_child-update f name key no_child = refl
find_child-update f name key (child first value rest) = ground (
  arith,
  find_child-update f name key rest,
  str_eq_iff first key,
  str_eq_iff first name,
  str_eq_iff key name,
)

value_at-empty : (path : List Str) → value_at path empty_node ≡ none
unfolding value_at
value_at-empty [] = refl
value_at-empty (x ∷ path) = refl

-- An insertion changes the value at its path, and no other.
value_at-insert :
    (path inserted : List Str) (value : Str) (root : RenderNode)
    → value_at path (insert_segments inserted value root)
      ≡ (if path_eq inserted path then some value else value_at path root)
unfolding value_at insert_segments
value_at-insert [] [] value (node old order children) = refl
value_at-insert [] (x ∷ inserted) value (node old order children) = refl
value_at-insert (x ∷ path) [] value (node old order children) = refl
value_at-insert (x ∷ path) (y ∷ inserted) value (node old order children) = ground (
  arith,
  find_child-update (insert_segments inserted value) x y children,
  value_at-insert path inserted value (or_empty_node (find_child y children)),
  value_at-empty path,
  str_eq_iff y x,
)

abbrev pub first_value : Str → List Token → Option Str
first_value name [] = none
first_value name (token ∷ rest) =
    let later = first_value name rest in if str_eq token.name name then some token.value else later

abbrev or_else : Option Str → Option Str → Option Str
or_else none other = other
or_else (some value) other = some value

insert_tokens-first :
    (name : Str) (emitted : List Str) (tokens : List Token) (root : RenderNode)
    → value_at (segments name) (insert_tokens (first_tokens emitted tokens) root) ≡ (
        if contains emitted name
        then value_at (segments name) root
        else or_else (first_value name tokens) (value_at (segments name) root))
unfolding first_tokens insert_tokens insert_render_token contains
insert_tokens-first name emitted [] root = ground arith
insert_tokens-first name emitted (token ∷ rest) root = ground (
  arith,
  insert_tokens-first name emitted rest root,
  insert_tokens-first name (token.name ∷ emitted) rest
      (insert_segments (segments token.name) token.value root),
  value_at-insert (segments name) (segments token.name) token.value root,
  path_eq-segments token.name name,
  str_eq_iff token.name name,
)

-- What stands at the path of a name in the tree that is rendered for a result: the value of the first
-- token of that name, and nothing if there is none.
pub build_render_tree-first :
    (result : ParseResult) (name : Str)
    → value_at (segments name) (build_render_tree result) ≡ first_value name result.tokens
unfolding build_render_tree contains
build_render_tree-first result name =
    insert_tokens-first name [] result.tokens empty_node
    ∙ ground (arith, value_at-empty (segments name))
