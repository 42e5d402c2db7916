-- ===== src/Report/Complete.antt =====
-- No correlation of src/ReportAnalyzer.cpp is missed.
use parser_framework.Base.{
  Bool, true, false, List, [], ◌∷◌, ◌++◌, Option, none, some, ◌≡◌, sym, In, here, there, Bool-cases,
  inl, inr, if◌then◌else◌,
}
use parser_framework.Report.Correlated.{correlate-Correlates, front-some}
use parser_framework.Report.Correlation.{
  Group, Key, key_eq, find_group, group_findings, fires, front, push_front, correlate_groups,
  append?, correlate_rules, correlate_findings, correlated_finding,
}
use parser_framework.Report.Groups.{key_eq_iff, group-Describes}
use parser_framework.Report.Types.{CorrelationRule, ReportFinding}

-- The list has the finding, if there is a list.
abbrev Has : ReportFinding → Option (List ReportFinding) → Type 0
Has x none = Unit
Has x (some xs) = In x xs

In-append-left : {A : Type 0} {x : A} (xs ys : List A) → In x xs → In x (xs ++ ys)
In-append-left [] ys i = elim i [ ]
In-append-left (y ∷ xs) ys here = here
In-append-left (y ∷ xs) ys (there i) = there (In-append-left xs ys i)

In-append-right : {A : Type 0} {x : A} (xs ys : List A) → In x ys → In x (xs ++ ys)
In-append-right [] ys i = i
In-append-right (y ∷ xs) ys i = there (In-append-right xs ys i)

some-injective : (a b : Group) → some a ≡ some b → a ≡ b
some-injective a b e = cc

In-same :
    (key k : Key) (g old : Group) (rest : List (Key × Group))
    → k ≡ key
    → some old ≡ some g
    → In (key, g) ((k, old) ∷ rest)
In-same key k g old rest p e = rw (sym p, some-injective old g e) here

find_group-In :
    (key : Key) (groups : List (Key × Group)) {g : Group}
    → find_group key groups ≡ some g
    → In (key, g) groups
unfolding find_group
find_group-In key [] e = absurd (cc)
find_group-In key ((k, old) ∷ rest) {g} e = elim (Bool-cases (key_eq k key)) [
  | inl p ↦ In-same key k g old rest ((key_eq_iff k key).0 p) (rw p at e)
  | inr p ↦ there (find_group-In key rest (rw p at e))
]

push-here :
    (rule : CorrelationRule) (first : ReportFinding) (g : Group)
    (later : Option (List ReportFinding))
    → Has (correlated_finding rule first g) (push_front (some first) rule g later)
push-here rule first g none = tt
push-here rule first g (some xs) = here

push-Has :
    (x : ReportFinding) (first : Option ReportFinding) (rule : CorrelationRule) (g : Group)
    (later : Option (List ReportFinding))
    → Has x later
    → Has x (push_front first rule g later)
push-Has x none rule g later h = tt
push-Has x (some first) rule g none h = tt
push-Has x (some first) rule g (some xs) h = there h

if-Has :
    (b : Bool) (x : ReportFinding) (l r : Option (List ReportFinding))
    → Has x l
    → Has x r
    → Has x (if b then l else r)
if-Has true x l r h k = h
if-Has false x l r h k = k

append-Has-left :
    (x : ReportFinding) (a b : Option (List ReportFinding)) → Has x a → Has x (append? a b)
append-Has-left x none b h = tt
append-Has-left x (some xs) none h = tt
append-Has-left x (some xs) (some ys) h = In-append-left xs ys h

append-Has-right :
    (x : ReportFinding) (a b : Option (List ReportFinding)) → Has x b → Has x (append? a b)
append-Has-right x none b h = tt
append-Has-right x (some xs) none h = tt
append-Has-right x (some xs) (some ys) h = In-append-right xs ys h

correlate_groups-Has :
    (rule : CorrelationRule) (key : Key) (g : Group) (first : ReportFinding)
    (groups : List (Key × Group))
    → In (key, g) groups
    → fires rule g ≡ true
    → front g.findings ≡ some first
    → Has (correlated_finding rule first g) (correlate_groups rule groups)
unfolding correlate_groups
correlate_groups-Has rule key g first [] i f e = elim i [ ]
correlate_groups-Has rule key g first ((k, h) ∷ rest) here f e =
    rw (f, e) (push-here rule first g (correlate_groups rule rest))
correlate_groups-Has rule key g first ((k, h) ∷ rest) (there i) f e =
    if-Has (fires rule h) _ _ _
      (push-Has _ (front h.findings) rule h (correlate_groups rule rest)
        (correlate_groups-Has rule key g first rest i f e))
      (correlate_groups-Has rule key g first rest i f e)

correlate_rules-Has :
    (rules : List CorrelationRule) (rule : CorrelationRule) (key : Key) (g : Group)
    (first : ReportFinding) (groups : List (Key × Group))
    → In rule rules
    → In (key, g) groups
    → fires rule g ≡ true
    → front g.findings ≡ some first
    → Has (correlated_finding rule first g) (correlate_rules rules groups)
unfolding correlate_rules
correlate_rules-Has [] rule key g first groups j i f e = elim j [ ]
correlate_rules-Has (r ∷ rules) rule key g first groups here i f e =
    append-Has-left _ (correlate_groups r groups) (correlate_rules rules groups)
      (correlate_groups-Has r key g first groups i f e)
correlate_rules-Has (r ∷ rules) rule key g first groups (there j) i f e =
    append-Has-right _ (correlate_groups r groups) (correlate_rules rules groups)
      (correlate_rules-Has rules rule key g first groups j i f e)

some-Has :
    (rules : List CorrelationRule) (x : ReportFinding) (found : Option (List ReportFinding))
    (xs : List ReportFinding)
    → found ≡ some xs
    → Has x found
    → In x xs
some-Has rules x found xs e h = rw e at h

findings-Has :
    (findings : List ReportFinding) (rules : List CorrelationRule) (rule : CorrelationRule)
    (x : ReportFinding)
    → In rule rules
    → Has x (correlate_rules rules (group_findings findings []))
    → Has x (correlate_findings findings rules)
unfolding correlate_findings
findings-Has findings [] rule x i h = elim i [ ]
findings-Has findings (r ∷ rules) rule x i h = h

-- No correlation is missed: for each rule of the list and each group that the findings form, if the
-- rule fires on the group then the group has a first finding, and the finding that the rule makes of
-- the group is in the result.
pub correlate_complete :
    (findings : List ReportFinding) (rules : List CorrelationRule) (rule : CorrelationRule)
    (key : Key) (g : Group)
    → In rule rules
    → find_group key (group_findings findings []) ≡ some g
    → fires rule g ≡ true
    → (xs : List ReportFinding) × (first : ReportFinding) × (correlate_findings findings rules
        ≡ some xs)
      × (front g.findings ≡ some first)
      × In (correlated_finding rule first g) xs
correlate_complete findings rules rule key g i e f =
    let (xs, total, all) = correlate-Correlates findings rules in
    let described = rw e at (group-Describes key findings) in
    let (first, starts) = front-some g.findings (rw described.3 described.0) in
    (
      xs,
      first,
      total,
      starts,
      some-Has rules _ _ xs total (
          findings-Has findings rules rule _ i (
            correlate_rules-Has rules rule key g first (group_findings findings []) i
              (find_group-In key (group_findings findings []) e) f starts)),
    )
