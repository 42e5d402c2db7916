-- ===== src/Render/Ordered.antt =====
-- The tree of dotted names of src/ParserFramework.cpp: each node lists each of its children once.
use mathlib.Core.Path.{subst}
use parser_framework.Base.{
  ℕ, false, List, [], ◌∷◌, Option, none, some, ◌≡◌, refl, if-cases, ◌==◌, inl, inr, arith,
  Option-cases, Str, str_eq, contains, Distinct, Distinct-concat, All,
}
use parser_framework.Render.Blocks.{Renderable}
use parser_framework.Render.{
  RenderNode, node, Children, no_child, child, empty_node, find_child, remember_child_order,
  update_child, onto_first, segments, insert_segments, insert_render_token,
}

abbrev pub names : Children → List Str
names no_child = []
names (child key value rest) = key ∷ names rest

abbrev pub OptionRenderable : Option Str → Type 0
OptionRenderable none = Unit
OptionRenderable (some s) = Renderable s

-- The order is that of the children, no name stands twice, and all names and values can be rendered.
mutual
  pub data Ordered : RenderNode → Type 0 where
    ordered :
        (value : Option Str) (children : Children)
        → OptionRenderable value
        → Distinct (names children)
        → AllOrdered children
        → Ordered (node value (names children) children)

  pub data AllOrdered : Children → Type 0 where
    none_ordered : AllOrdered no_child
    one_ordered :
        (key : Str) (value : RenderNode) (rest : Children)
        → Renderable key
        → Ordered value
        → AllOrdered rest
        → AllOrdered (child key value rest)

pub empty-Ordered : Ordered empty_node
empty-Ordered = ordered none no_child tt tt none_ordered

names-update :
    (f : RenderNode → RenderNode) (name : Str) (children : Children)
    → names (update_child f name children) ≡ remember_child_order children name (names children)
unfolding update_child remember_child_order find_child
names-update f name no_child = refl
names-update f name (child key value rest) = ground (arith, names-update f name rest)

find-contains :
    (name : Str) (children : Children)
    → find_child name children ≡ none
    → contains (names children) name ≡ false
unfolding find_child contains
find-contains name no_child h = refl
find-contains name (child key value rest) h = ground (arith, find-contains name rest)

Distinct-update :
    (f : RenderNode → RenderNode) (name : Str) (children : Children)
    → Distinct (names children)
    → Distinct (names (update_child f name children))
unfolding remember_child_order
Distinct-update f name children h =
    rw (names-update f name children) (elim (Option-cases (find_child name children)) [
      | inl e ↦ rw e (Distinct-concat (names children) name h (find-contains name children e))
      | inr (found, e) ↦ rw e h
    ])

AllOrdered-update :
    (f : RenderNode → RenderNode) (name : Str) (children : Children)
    → Renderable name
    → ((n : RenderNode) → Ordered n → Ordered (f n))
    → AllOrdered children
    → AllOrdered (update_child f name children)
unfolding update_child
AllOrdered-update f name no_child r h a =
    one_ordered name (f empty_node) no_child r (h empty_node empty-Ordered) none_ordered
AllOrdered-update f name (child key value rest) r h (one_ordered _ _ _ k v a) =
    if-cases AllOrdered (str_eq key name) (child key (f value) rest)
      (child key value (update_child f name rest))
      (λ _. one_ordered key (f value) rest k (h value v) a)
      (λ _.
        one_ordered key value (update_child f name rest) k v (AllOrdered-update f name rest r h a))

insert-Ordered :
    (path : List Str) (value : Str) (root : RenderNode)
    → All Renderable path
    → Renderable value
    → Ordered root
    → Ordered (insert_segments path value root)
unfolding insert_segments
insert-Ordered [] value _ p r (ordered old children o d a) = ordered (some value) children r d a
insert-Ordered (x ∷ path) value _ p r (ordered old children o d a) =
    subst (λ order. Ordered (node old order (update_child (insert_segments path value) x children)))
      (names-update (insert_segments path value) x children)
      (ordered old (update_child (insert_segments path value) x children) o
        (Distinct-update (insert_segments path value) x children d)
        (AllOrdered-update (insert_segments path value) x children p.0
          (λ n h. insert-Ordered path value n p.1 r h) a))

onto_first-Renderable :
    (c : ℕ) (parts : List Str)
    → Renderable (c ∷ [])
    → All Renderable parts
    → All Renderable (onto_first c parts)
onto_first-Renderable c [] h p = (h, tt)
onto_first-Renderable c (x ∷ rest) h p = (ground (arith, h, p.0), p.1)

segments-Renderable : (name : Str) → Renderable name → All Renderable (segments name)
unfolding segments
segments-Renderable [] h = (refl, tt)
segments-Renderable (c ∷ rest) h =
    if-cases (All Renderable) (c == b'.') ([] ∷ segments rest) (onto_first c (segments rest))
      (λ _. (refl, segments-Renderable rest (ground (arith, h))))
      (λ _.
        onto_first-Renderable c (segments rest) (ground (arith, h))
          (segments-Renderable rest (ground (arith, h))))

-- An insertion keeps the order of the children, at every node.
pub insert_render_token-Ordered :
    (root : RenderNode) (name value : Str)
    → Renderable name
    → Renderable value
    → Ordered root
    → Ordered (insert_render_token root name value)
unfolding insert_render_token
insert_render_token-Ordered root name value n r h =
    insert-Ordered (segments name) value root (segments-Renderable name n) r h
