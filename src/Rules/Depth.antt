-- ===== src/Rules/Depth.antt =====
-- The recursion of `parse_section_node` of src/RuleLoader.cpp ends.
use parser_framework.Base.{
  ℕ, zero, suc, ◌<◌, not, ◌&&◌, List, [], ◌∷◌, Option, none, some, ◌≡◌, ◌≢◌, refl, inl, inr,
  Bool-cases, is_empty, Str, codes, str_eq, str_eq_iff, Map, Result, ok, err, ◌>>=◌, >>=-eq-ok,
  Result-cases, collect, In, here, there, Ensures, Ensures-ok, Ensures-err, Ensures-if, arith,
}
use parser_framework.Rules.Fields.{text_at}
use parser_framework.Rules.Sections.{
  no_children, sections_of, parse_settings, parse_leaf, child_nodes, parse_mixed,
  parse_section_node,
}
use parser_framework.Rules.{ParserRuleSet}
use parser_framework.Types.{SectionKind, SectionRule, section_rule, SectionSettings}
use parser_framework.Yaml.{Yaml}

-- A document is a tree: the items of a sequence in a field are lower than the node.
pub record Heights {Node : Type 0} (yaml : Yaml Node) : Type 0 where
  pub height : Node → ℕ
  pub lower :
      (node : Node) (field : Str) (sequence item : Node)
      → yaml.child node field ≡ ok (some sequence)
      → In item (yaml.items sequence)
      → height item < height node

-- The section of some children.
abbrev pub mixed_section : SectionSettings → List SectionRule → Result SectionRule
mixed_section section children =
    ok (section_rule (record section { kind = SectionKind.mixed }) (sections_of children))

bind_assoc :
    {A B C : Type 0} (m : Result A) (f : A → Result B) (g : B → Result C)
    → (m >>= λ a. f a >>= g) ≡ ((m >>= f) >>= g)
bind_assoc (ok a) f g = refl
bind_assoc (err e) f g = refl

module _ {Node : Type 0} (yaml : Yaml Node) (rulesets : Map (ParserRuleSet Node))
    (rule_id : Str) where
  child_nodes_items :
      (id : Str) (found : Option Node)
      → Ensures
          (λ nodes. (children : Node) × (found ≡ some children) × (nodes ≡ yaml.items children))
          (child_nodes yaml id found)
  unfolding child_nodes
  child_nodes_items id none = Ensures-err _
  child_nodes_items id (some children) =
      Ensures-if (yaml.is_sequence children && not (is_empty (yaml.items children))) _
        (err (no_children id)) (λ e. Ensures-ok _ (children, refl, refl)) (λ _. Ensures-err _)

  -- What a call of `parse_section_node` and the calls below it return. A derivation is a finite tree of
  -- calls, and has no end other than those of the code.
  mutual
    pub data Parses : Node → Result SectionRule → Type 0 where
      no_settings :
          (node : Node) (what : Str) → parse_settings yaml node ≡ err what → Parses node (err what)
      no_parser :
          (node : Node) (section : SectionSettings) (what : Str)
          → parse_settings yaml node ≡ ok section
          → text_at yaml node (codes "parser") ≡ err what
          → Parses node (err what)
      leaf :
          (node : Node) (section : SectionSettings) (parser : Str)
          → parse_settings yaml node ≡ ok section
          → text_at yaml node (codes "parser") ≡ ok parser
          → parser ≢ codes "mixed"
          → Parses node (parse_leaf yaml rulesets rule_id section parser)
      no_nodes :
          (node : Node) (section : SectionSettings) (what : Str)
          → parse_settings yaml node ≡ ok section
          → text_at yaml node (codes "parser") ≡ ok (codes "mixed")
          → (yaml.child node (codes "sections") >>= child_nodes yaml section.id) ≡ err what
          → Parses node (err what)
      mixed :
          (node : Node) (section : SectionSettings) (nodes : List Node)
          (children : Result (List SectionRule))
          → parse_settings yaml node ≡ ok section
          → text_at yaml node (codes "parser") ≡ ok (codes "mixed")
          → (yaml.child node (codes "sections") >>= child_nodes yaml section.id) ≡ ok nodes
          → ParsesAll nodes children
          → Parses node (children >>= mixed_section section)

    -- The calls on the child nodes, up to the first that throws.
    pub data ParsesAll : List Node → Result (List SectionRule) → Type 0 where
      end : ParsesAll [] (ok [])
      child_failed :
          (node : Node) (rest : List Node) (what : Str)
          → Parses node (err what)
          → ParsesAll (node ∷ rest) (err what)
      next :
          (node : Node) (rest : List Node) (child : SectionRule) (later : Result (List SectionRule))
          → Parses node (ok child)
          → ParsesAll rest later
          → ParsesAll (node ∷ rest) (later >>= λ children. ok (child ∷ children))

  collect-ParsesAll :
      (parse_child : Node → Result SectionRule) (nodes : List Node)
      → ((child : Node) → In child nodes → Parses child (parse_child child))
      → ParsesAll nodes (collect parse_child nodes)
  unfolding collect
  collect-ParsesAll parse_child [] h = end
  collect-ParsesAll parse_child (x ∷ rest) h = elim (Result-cases (parse_child x)) [
    | inl (child, e) ↦ rw e (
        next x rest child _ (rw e at (h x here))
          (collect-ParsesAll parse_child rest (λ y i. h y (there i))))
    | inr (what, e) ↦ rw e (child_failed x rest what (rw e at (h x here)))
  ]

  module _ (heights : Heights yaml) where
    nodes_lower :
        (node : Node) (id : Str) (nodes : List Node)
        → (yaml.child node (codes "sections") >>= child_nodes yaml id) ≡ ok nodes
        → (child : Node) → In child nodes
        → heights.height child < heights.height node
    nodes_lower node id nodes e child i =
        let (found, p, q) = >>=-eq-ok (yaml.child node (codes "sections")) _ e in
        let (children, r, t) = (child_nodes_items id found).at nodes q in
        heights.lower node (codes "sections") children child (rw r at p) (rw t at i)

    mixed-Parses :
        (parse_child : Node → Result SectionRule) (section : SectionSettings) (node : Node)
        → parse_settings yaml node ≡ ok section
        → text_at yaml node (codes "parser") ≡ ok (codes "mixed")
        → ((child : Node)
            → heights.height child < heights.height node
            → Parses child (parse_child child))
        → Parses node (parse_mixed yaml parse_child section node)
    unfolding parse_mixed
    mixed-Parses parse_child section node p q h =
        let nodes_of = yaml.child node (codes "sections") >>= child_nodes yaml section.id in
        rw
          (bind_assoc (yaml.child node (codes "sections")) (child_nodes yaml section.id)
            (λ nodes. collect parse_child nodes >>= mixed_section section))
          (elim (Result-cases nodes_of) [
            | inl (nodes, e) ↦ rw e (
                mixed node section nodes _ p q e (
                  collect-ParsesAll parse_child nodes
                    (λ child i. h child (nodes_lower node section.id nodes e child i))))
            | inr (what, e) ↦ rw e (no_nodes node section what p q e)
          ])

    -- With more fuel than the node is high, `parse_section_node` returns what the calls of the code
    -- return, of which there are finitely many: the recursion ends, and never for want of fuel.
    pub parse_section_node-Parses :
        (fuel : ℕ) (node : Node)
        → heights.height node < fuel
        → Parses node (parse_section_node yaml fuel rulesets rule_id node)
    unfolding parse_section_node
    parse_section_node-Parses zero node h = absurd (omega (arith, h))
    parse_section_node-Parses (suc fuel) node h = elim (Result-cases (parse_settings yaml node)) [
      | inr (what, p) ↦ rw p (no_settings node what p)
      | inl (section, p) ↦ elim (Result-cases (text_at yaml node (codes "parser"))) [
        | inr (what, q) ↦ rw (p, q) (no_parser node section what p q)
        | inl (parser, q) ↦ elim (Bool-cases (str_eq parser (codes "mixed"))) [
          | inl m ↦
              let same = rw ((str_eq_iff parser (codes "mixed")).0 m) at q in
              rw (p, q, m)
                (mixed-Parses (parse_section_node yaml fuel rulesets rule_id) section node p same
                  (λ child l. parse_section_node-Parses fuel child (omega (arith, l, h))))
          | inr m ↦
              rw (p, q, m)
                (leaf node section parser p q
                  (λ e. cc (m, (str_eq_iff parser (codes "mixed")).1 e)))
        ]
      ]
    ]
