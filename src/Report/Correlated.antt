-- ===== src/Report/Correlated.antt =====
-- The correlated findings of src/ReportAnalyzer.cpp: none but those that the rules ask for, and the
-- access to the first finding of a group never fails.
use Prim.Native.Nat.{Ordering}
use parser_framework.Base.{
  true, List, [], ◌∷◌, ◌++◌, Option, none, some, ◌≡◌, refl, ap, ◌≢◌, inl, inr, Str, All, In, here,
  there, Bool-cases,
}
use parser_framework.Report.Correlation.{
  Group, Key, compare_key, key_eq, find_group, assign_group, or_empty_group, update, add_to_group,
  group_key, add_keyed, group_findings, fires, front, push_front, correlate_groups, append?,
  correlate_rules, correlate_findings, correlated_finding,
}
use parser_framework.Report.Groups.{belongs, systems_from, system_of, Holds, Holds-add, key_eq_iff}
use parser_framework.Report.Types.{CorrelationRule, ReportFinding}

-- The group is that of its findings, and all of them have its key.
pub record Entry (e : Key × Group) : Type 0 where
  pub holds : Holds e.0 e.1.findings e.1
  pub same_key : All (λ f. belongs e.0 (group_key f) ≡ true) e.1.findings

abbrev pub Entries : List (Key × Group) → Type 0
Entries = All Entry

assign-Entries :
    (key : Key) (g : Group) (groups : List (Key × Group))
    → Entry (key, g)
    → Entries groups
    → Entries (assign_group key g groups)
unfolding assign_group
assign-Entries key g [] e h = (e, tt)
assign-Entries key g ((k, old) ∷ rest) e h =
    elim (compare_key key k)
      as (λ c. Entries (elim c [
        | Ordering.lt ↦ (key, g) ∷ (k, old) ∷ rest
        | Ordering.eq ↦ (key, g) ∷ rest
        | Ordering.gt ↦ (k, old) ∷ assign_group key g rest
      ])) [
        | Ordering.lt ↦ (e, h)
        | Ordering.eq ↦ (e, h.1)
        | Ordering.gt ↦ (h.0, assign-Entries key g rest e h.1)
      ]

All-concat :
    {A : Type 0} (P : A → Type 0) (xs : List A) {x : A} → All P xs → P x → All P (xs ++ x ∷ [])
All-concat P [] h p = (p, tt)
All-concat P (y ∷ xs) h p = (h.0, All-concat P xs h.1 p)

-- What the map holds for a key before a finding is added to it.
record Before (key : Key) (start : Option Group) : Type 0 where
  in_order :
      (or_empty_group start).systems_in_order ≡ systems_from [] (or_empty_group start).findings
  systems : (or_empty_group start).systems ≡ systems_from [] (or_empty_group start).findings
  same_key : All (λ f. belongs key (group_key f) ≡ true) (or_empty_group start).findings

find-Before :
    (key : Key) (groups : List (Key × Group)) → Entries groups → Before key (find_group key groups)
unfolding find_group
find-Before key [] h = record { in_order = refl; systems = refl; same_key = tt }
find-Before key ((k, g) ∷ rest) h = elim (Bool-cases (key_eq k key)) [
  | inl p ↦ rw p (record {
    in_order = h.0.holds.in_order;
    systems = h.0.holds.systems;
    same_key = rw ((key_eq_iff k key).0 p) at h.0.same_key;
  })
  | inr p ↦ rw p (find-Before key rest h.1)
]

add-Entry :
    (key : Key) (start : Option Group) (finding : ReportFinding)
    → Before key start
    → belongs key (group_key finding) ≡ true
    → Entry (key, add_to_group key (system_of (group_key finding)) finding (or_empty_group start))
unfolding add_to_group
add-Entry (ip, family) start finding b p = record {
  holds =
      unfold add_to_group in
      Holds-add (ip, family) (or_empty_group start).findings (or_empty_group start) finding refl
        b.in_order b.systems;
  same_key = All-concat _ (or_empty_group start).findings b.same_key p;
}

keyed-Entries :
    (keyed : Option (Key × Str)) (finding : ReportFinding) (groups : List (Key × Group))
    → group_key finding ≡ keyed
    → Entries groups
    → Entries (add_keyed keyed finding groups)
unfolding update
keyed-Entries none finding groups e h = h
keyed-Entries (some (key, system)) finding groups e h =
    assign-Entries key _ groups
      (rw (ap system_of e) at (
        add-Entry key (find_group key groups) finding (find-Before key groups h)
          (rw (e, belongs) ((key_eq_iff key key).1 refl))))
      h

pub group_findings-Entries :
    (findings : List ReportFinding) (groups : List (Key × Group))
    → Entries groups
    → Entries (group_findings findings groups)
unfolding group_findings
group_findings-Entries [] groups h = h
group_findings-Entries (finding ∷ rest) groups h =
    group_findings-Entries rest _ (keyed-Entries (group_key finding) finding groups refl h)

-- A correlated finding, with the rule and the findings that it stands on.
pub record Correlates (rules : List CorrelationRule) (x : ReportFinding) : Type 0 where
  pub rule : CorrelationRule
  pub group : Group
  pub first : ReportFinding
  pub key : Key
  pub in_rules : In rule rules
  pub entry : Entry (key, group)
  pub is_first : front group.findings ≡ some first
  pub fired : fires rule group ≡ true
  pub result : x ≡ correlated_finding rule first group

-- The results of one rule, with the rule still to be placed among the rules.
abbrev AllFrom : List CorrelationRule → Option (List ReportFinding) → Type 0
AllFrom rules none = ⊥
AllFrom rules (some xs) = All (Correlates rules) xs

pub front-some : (fs : List ReportFinding) → fs ≢ [] → (f : ReportFinding) × (front fs ≡ some f)
front-some [] h = absurd (h refl)
front-some (f ∷ fs) h = (f, refl)

push-AllFrom :
    (rules : List CorrelationRule) (rule : CorrelationRule) (key : Key) (g : Group)
    (found : Option ReportFinding) (later : Option (List ReportFinding)) {first : ReportFinding}
    → In rule rules
    → Entry (key, g)
    → front g.findings ≡ found
    → found ≡ some first
    → fires rule g ≡ true
    → AllFrom rules later
    → AllFrom rules (push_front found rule g later)
push-AllFrom rules rule key g none later i e p q f h = absurd (cc)
push-AllFrom rules rule key g (some x) none i e p q f h = h
push-AllFrom rules rule key g (some x) (some xs) i e p q f h = (
  record {
    rule = rule;
    group = g;
    first = x;
    key = key;
    in_rules = i;
    entry = e;
    is_first = p;
    fired = f;
    result = refl;
  },
  h,
)

correlate_groups-AllFrom :
    (rules : List CorrelationRule) (rule : CorrelationRule) (groups : List (Key × Group))
    → In rule rules
    → Entries groups
    → AllFrom rules (correlate_groups rule groups)
unfolding correlate_groups
correlate_groups-AllFrom rules rule [] i h = tt
correlate_groups-AllFrom rules rule ((key, g) ∷ rest) i h =
    let later = correlate_groups-AllFrom rules rule rest i h.1 in
    elim (Bool-cases (fires rule g)) [
      | inl p ↦ rw p (
          push-AllFrom rules rule key g (front g.findings) _ i h.0 refl
            (front-some g.findings h.0.holds.ne).1 p later)
      | inr p ↦ rw p later
    ]

append-AllFrom :
    (rules : List CorrelationRule) (a b : Option (List ReportFinding))
    → AllFrom rules a
    → AllFrom rules b
    → AllFrom rules (append? a b)
append-AllFrom rules none b h k = h
append-AllFrom rules (some xs) none h k = k
append-AllFrom rules (some []) (some ys) h k = k
append-AllFrom rules (some (x ∷ xs)) (some ys) h k =
    (h.0, append-AllFrom rules (some xs) (some ys) h.1 k)

-- The rules behind the first `done` of all.
correlate_rules-AllFrom :
    (all rules : List CorrelationRule) (groups : List (Key × Group))
    → ((r : CorrelationRule) → In r rules → In r all)
    → Entries groups
    → AllFrom all (correlate_rules rules groups)
unfolding correlate_rules
correlate_rules-AllFrom all [] groups sub h = tt
correlate_rules-AllFrom all (rule ∷ rest) groups sub h =
    append-AllFrom all _ _ (correlate_groups-AllFrom all rule groups (sub rule here) h)
      (correlate_rules-AllFrom all rest groups (λ r i. sub r (there i)) h)

some-AllFrom :
    (rules : List CorrelationRule) (out : Option (List ReportFinding))
    → AllFrom rules out
    → (xs : List ReportFinding) × (out ≡ some xs) × All (Correlates rules) xs
some-AllFrom rules none h = absurd h
some-AllFrom rules (some xs) h = (xs, refl, h)

-- The correlation never faults: no group is empty when its first finding is read. Each finding that
-- it returns comes from a rule of the list that fired on a group, and that group holds findings which
-- all have the group's source address and attack family, at least one of them, with its systems
-- listed without repetition from those findings.
pub correlate-Correlates :
    (findings : List ReportFinding) (rules : List CorrelationRule)
    → (xs : List ReportFinding) × (correlate_findings findings rules ≡ some xs)
      × All (Correlates rules) xs
unfolding correlate_findings
correlate-Correlates findings [] = ([], refl, tt)
correlate-Correlates findings (rule ∷ rest) = some-AllFrom (rule ∷ rest) _ (
    correlate_rules-AllFrom (rule ∷ rest) (rule ∷ rest) (group_findings findings []) (λ r i. i)
      (group_findings-Entries findings [] tt))
