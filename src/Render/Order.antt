-- ===== src/Render/Order.antt =====
-- The order of the children in the tree of dotted names of src/ParserFramework.cpp.
use parser_framework.Base.{
  Bool, true, false, ◌||◌, List, [], ◌∷◌, ◌++◌, Option, none, some, ◌≡◌, refl, sym, ◌∙◌,
  if◌then◌else◌, arith, Str, str_eq, str_eq_iff, contains, is_some, contains-append, Bool-cases,
  inl, inr,
}
use parser_framework.Render.Found.{or_empty_node, find_child-update}
use parser_framework.Render.{
  RenderNode, node, empty_node, find_child, segments, remember_child_order, insert_segments,
  insert_render_token,
}
use parser_framework.Render.Results.{first_tokens, insert_tokens, build_render_tree}
use parser_framework.Types.{Token, ParseResult}

-- `child_order` of the node at the end of a path.
unfoldable pub order_at : List Str → RenderNode → List Str
unfolding find_child
order_at [] (node value order children) = order
order_at (name ∷ path) (node value order children) = elim (find_child name children) [
  | none ↦ []
  | some found ↦ order_at path found
]

-- Whether the node at the end of a path has a child of that name.
unfoldable has_child : List Str → Str → RenderNode → Bool
unfolding find_child
has_child [] key (node value order children) = is_some (find_child key children)
has_child (name ∷ path) key (node value order children) = elim (find_child name children) [
  | none ↦ false
  | some found ↦ has_child path key found
]

-- The part of a dotted name that follows a path, if the name goes on there.
unfoldable pub next_part : List Str → List Str → Option Str
next_part path [] = none
next_part [] (part ∷ rest) = some part
next_part (name ∷ path) (part ∷ rest) =
    let later = next_part path rest in if str_eq name part then later else none

-- A name goes to the end of the names, unless it is among them.
abbrev pub add_name : Option Str → List Str → List Str
add_name none names = names
add_name (some name) names = if contains names name then names else names ++ name ∷ []

-- The parts that follow a path in the names of some tokens, each once, in the order of the first token
-- that has it, behind those that were there.
unfoldable pub parts_below : List Str → List Str → List Token → List Str
unfolding next_part
parts_below path parts [] = parts
parts_below path parts (token ∷ rest) =
    parts_below path (add_name (next_part path (segments token.name)) parts) rest

abbrev is_next : Option Str → Str → Bool
is_next none key = false
is_next (some part) key = str_eq part key

order_at-empty : (path : List Str) → order_at path empty_node ≡ []
unfolding order_at
order_at-empty [] = refl
order_at-empty (x ∷ path) = refl

has_child-empty : (path : List Str) (key : Str) → has_child path key empty_node ≡ false
unfolding has_child
has_child-empty [] key = refl
has_child-empty (x ∷ path) key = refl

-- An insertion adds the part of its path that follows.
has_child-insert :
    (path : List Str) (key : Str) (inserted : List Str) (value : Str) (root : RenderNode)
    → has_child path key (insert_segments inserted value root)
      ≡ (is_next (next_part path inserted) key || has_child path key root)
unfolding has_child insert_segments next_part
has_child-insert [] key [] value (node old order children) = refl
has_child-insert (x ∷ path) key [] value (node old order children) = refl
has_child-insert [] key (y ∷ inserted) value (node old order children) =
    ground (arith, find_child-update (insert_segments inserted value) key y children)
has_child-insert (x ∷ path) key (y ∷ inserted) value (node old order children) = ground (
  arith,
  find_child-update (insert_segments inserted value) x y children,
  has_child-insert path key inserted value (or_empty_node (find_child y children)),
  has_child-empty path key,
  str_eq_iff y x,
  str_eq_iff x y,
)

abbrev add_unless : Option Str → Bool → List Str → List Str
add_unless none old names = names
add_unless (some name) old names = if old then names else names ++ name ∷ []

abbrev had : List Str → Option Str → RenderNode → Bool
had path none root = false
had path (some name) root = has_child path name root

had-empty : (path : List Str) (part : Option Str) → had path part empty_node ≡ false
had-empty path none = refl
had-empty path (some name) = has_child-empty path name

order_at-insert :
    (path inserted : List Str) (value : Str) (root : RenderNode)
    → order_at path (insert_segments inserted value root)
      ≡ add_unless
          (next_part path inserted)
          (had path (next_part path inserted) root)
          (order_at path root)
unfolding has_child order_at insert_segments next_part remember_child_order
order_at-insert [] [] value (node old order children) = refl
order_at-insert (x ∷ path) [] value (node old order children) = refl
order_at-insert [] (y ∷ inserted) value (node old order children) = ground arith
order_at-insert (x ∷ path) (y ∷ inserted) value (node old order children) = ground (
  arith,
  find_child-update (insert_segments inserted value) x y children,
  order_at-insert path inserted value (or_empty_node (find_child y children)),
  order_at-empty path,
  str_eq_iff y x,
  str_eq_iff x y,
  had-empty path (next_part path inserted),
)

-- The order at a path has the names of the children there.
Listed : List Str → RenderNode → Type 0
Listed path root = (key : Str) → contains (order_at path root) key ≡ has_child path key root

empty-Listed : (path : List Str) → Listed path empty_node
unfolding Listed contains
empty-Listed path key = rw (order_at-empty path, has_child-empty path key) refl

add_unless-name :
    (path : List Str) (part : Option Str) (root : RenderNode)
    → Listed path root
    → add_unless part (had path part root) (order_at path root) ≡ add_name part (order_at path root)
unfolding Listed
add_unless-name path none root h = refl
add_unless-name path (some name) root h = rw (h name) refl

contains-add_name :
    (part : Option Str) (names : List Str) (key : Str)
    → contains (add_name part names) key ≡ (is_next part key || contains names key)
unfolding contains
contains-add_name none names key = refl
contains-add_name (some name) names key =
    ground (arith, contains-append names (name ∷ []) key, str_eq_iff name key)

insert-order :
    (path inserted : List Str) (value : Str) (root : RenderNode)
    → Listed path root
    → order_at path (insert_segments inserted value root)
      ≡ add_name (next_part path inserted) (order_at path root)
insert-order path inserted value root h =
    order_at-insert path inserted value root ∙ add_unless-name path _ root h

insert-Listed :
    (path inserted : List Str) (value : Str) (root : RenderNode)
    → Listed path root
    → Listed path (insert_segments inserted value root)
unfolding Listed
insert-Listed path inserted value root h key =
    rw
      (
        insert-order path inserted value root h,
        contains-add_name (next_part path inserted) (order_at path root) key,
        has_child-insert path key inserted value root,
        h key,
      )
      refl

-- The part is among the names.
abbrev Known : Option Str → List Str → Type 0
Known none names = Unit
Known (some name) names = contains names name ≡ true

Known-add_name : (a b : Option Str) (names : List Str) → Known a names → Known a (add_name b names)
Known-add_name none b names h = tt
Known-add_name (some name) b names h = rw (contains-add_name b names name, h) (ground arith)

Known-self : (a : Option Str) (names : List Str) → Known a (add_name a names)
Known-self none names = tt
Known-self (some name) names =
    rw (contains-add_name (some name) names name, (str_eq_iff name name).1 refl) refl

add_name-Known : (a : Option Str) (names : List Str) → Known a names → add_name a names ≡ names
add_name-Known none names h = refl
add_name-Known (some name) names h = rw h refl

-- The parts of the names that are passed over are among the children.
Emitted : List Str → List Str → List Str → Type 0
Emitted path emitted names =
    (name : Str) → contains emitted name ≡ true → Known (next_part path (segments name)) names

Emitted-add :
    (path emitted names : List Str) (name : Str)
    → Emitted path emitted names
    → Emitted path (name ∷ emitted) (add_name (next_part path (segments name)) names)
unfolding Emitted contains
Emitted-add path emitted names name h other m = elim (Bool-cases (str_eq name other)) [
  | inl p ↦ rw (sym ((str_eq_iff name other).0 p)) (Known-self _ names)
  | inr p ↦ Known-add_name _ _ names (h other (rw p at m))
]

insert_tokens-order :
    (path emitted : List Str) (tokens : List Token) (root : RenderNode)
    → Listed path root
    → Emitted path emitted (order_at path root)
    → order_at path (insert_tokens (first_tokens emitted tokens) root)
      ≡ parts_below path (order_at path root) tokens
unfolding first_tokens insert_tokens insert_render_token parts_below Emitted
insert_tokens-order path emitted [] root h e = refl
insert_tokens-order path emitted (token ∷ rest) root h e =
    elim (Bool-cases (contains emitted token.name)) [
      | inl p ↦
          rw (p, add_name-Known _ _ (e token.name p))
            (insert_tokens-order path emitted rest root h e)
      | inr p ↦
          let added = insert-order path (segments token.name) token.value root h in
          rw (p, sym added)
            (insert_tokens-order path (token.name ∷ emitted) rest
              (insert_segments (segments token.name) token.value root)
              (insert-Listed path (segments token.name) token.value root h)
              (rw (sym added) at (Emitted-add path emitted (order_at path root) token.name e)))
    ]

-- In the tree of a result, the children of each node are listed each once, in the order of the first
-- token whose name leads through it: at every path, the order is that of the parts that follow the
-- path in the names of the tokens.
pub build_render_tree-order_at :
    (result : ParseResult) (path : List Str)
    → order_at path (build_render_tree result) ≡ parts_below path [] result.tokens
unfolding build_render_tree Emitted contains
build_render_tree-order_at result path =
    rw (order_at-empty path) at
      (insert_tokens-order path [] result.tokens empty_node (empty-Listed path) (λ name m. cc m))
