-- ===== src/Report/Groups.antt =====
-- The map of groups, against a description by filters over the findings.
use Prim.Native.Nat.{Ordering}
use parser_framework.Base.{
  Bool, true, false, not, List, [], ◌∷◌, ◌++◌, Option, none, some, ◌≡◌, refl, ◌∙◌, ◌↔◌, ◌≢◌, inl,
  inr, arith, if◌then◌else◌, Str, str_eq_iff, contains, compare_str-eq_iff, append_assoc,
  append-nil, Bool-cases,
}
use parser_framework.Report.Correlation.{
  Group, empty_group, Key, compare_key, key_eq, find_group, assign_group, or_empty_group, update,
  add_to_group, group_key, add_keyed, group_findings,
}
use parser_framework.Report.Types.{ReportFinding}

compare_key-eq_iff : (k j : Key) → (compare_key k j ≡ Ordering.eq) ↔ (k ≡ j)
unfolding compare_key
compare_key-eq_iff (a, b) (c, d) = ground (arith, compare_str-eq_iff a c, compare_str-eq_iff b d)

pub key_eq_iff : (k j : Key) → (key_eq k j ≡ true) ↔ (k ≡ j)
unfolding key_eq
key_eq_iff (a, b) (c, d) = ground (arith, str_eq_iff a c, str_eq_iff b d)

find-assign :
    (k j : Key) (g : Group) (groups : List (Key × Group))
    → find_group j (assign_group k g groups) ≡ (if key_eq k j then some g else find_group j groups)
unfolding find_group assign_group
find-assign k j g [] = refl
find-assign k j g ((i, old) ∷ rest) = ground (
  arith,
  find-assign k j g rest,
  compare_key-eq_iff k i,
  key_eq_iff k j,
  key_eq_iff i j,
  key_eq_iff i k,
)

-- The finding has the three properties, and the first two are the key.
abbrev pub belongs : Key → Option (Key × Str) → Bool
belongs key none = false
belongs key (some (k, system)) = key_eq k key

-- The findings of one key, in order.
abbrev pub members : Key → List ReportFinding → List ReportFinding
members key [] = []
members key (finding ∷ rest) =
    if belongs key (group_key finding) then finding ∷ members key rest else members key rest

abbrev pub system_of : Option (Key × Str) → Str
system_of none = []
system_of (some (k, system)) = system

-- The systems of some findings, each where it stands first, behind those already seen.
abbrev pub systems_from : List Str → List ReportFinding → List Str
systems_from seen [] = seen
systems_from seen (finding ∷ rest) =
    let system = system_of (group_key finding) in
    systems_from (if contains seen system then seen else seen ++ system ∷ []) rest

-- The group that some findings of a key make of what was there.
fold_group : Key → Option Group → List ReportFinding → Option Group
fold_group key start [] = start
fold_group key start (finding ∷ rest) =
    fold_group key
      (some (add_to_group key (system_of (group_key finding)) finding (or_empty_group start))) rest

add_keyed-find :
    (key : Key) (keyed : Option (Key × Str)) (finding : ReportFinding) (groups : List (Key × Group))
    → find_group key (add_keyed keyed finding groups) ≡ (
        if belongs key keyed
        then some
            (add_to_group key (system_of keyed) finding (or_empty_group (find_group key groups)))
        else find_group key groups)
unfolding update
add_keyed-find key none finding groups = refl
add_keyed-find key (some (k, system)) finding groups = elim (Bool-cases (key_eq k key)) [
  | inl p ↦ rw (find-assign, p) (rw ((key_eq_iff k key).0 p) refl)
  | inr p ↦ rw (find-assign, p) refl
]

group_findings-fold :
    (key : Key) (findings : List ReportFinding) (groups : List (Key × Group))
    → find_group key (group_findings findings groups)
      ≡ fold_group key (find_group key groups) (members key findings)
unfolding group_findings fold_group
group_findings-fold key [] groups = refl
group_findings-fold key (finding ∷ rest) groups =
    group_findings-fold key rest (add_keyed (group_key finding) finding groups)
    ∙ rw add_keyed-find (elim (Bool-cases (belongs key (group_key finding))) [
      | inl p ↦ rw (p, fold_group) refl
      | inr p ↦ rw p refl
    ])

-- What a group holds, given the findings of its key.
abbrev pub Describes : Key → List ReportFinding → Option Group → Type 0
Describes key found none = found ≡ []
Describes key found (some g) =
    (found ≢ [])
    × (g.source_ip ≡ key.0)
    × (g.family ≡ key.1)
    × (g.findings ≡ found)
    × (g.systems_in_order ≡ systems_from [] found)
    × (g.systems ≡ systems_from [] found)

-- A group behind some findings, of which the last were added to what was there.
pub record Holds (key : Key) (found : List ReportFinding) (g : Group) : Type 0 where
  pub ne : found ≢ []
  pub ip : g.source_ip ≡ key.0
  pub family : g.family ≡ key.1
  pub findings : g.findings ≡ found
  pub in_order : g.systems_in_order ≡ systems_from [] found
  pub systems : g.systems ≡ systems_from [] found

systems_from-append :
    (seen : List Str) (found : List ReportFinding) (finding : ReportFinding)
    → systems_from seen (found ++ finding ∷ []) ≡ (
        let system = system_of (group_key finding) in
        let before = systems_from seen found in
        if contains before system then before else before ++ system ∷ [])
systems_from-append seen [] finding = refl
systems_from-append seen (f ∷ found) finding =
    systems_from-append
      (if contains seen (system_of (group_key f))
        then seen
        else seen ++ system_of (group_key f) ∷ [])
      found finding

concat-ne : {A : Type 0} (xs : List A) (x : A) → (xs ++ x ∷ []) ≢ []
concat-ne [] x = λ e. cc
concat-ne (y ∷ xs) x = λ e. cc

flip_if : {A : Type 0} (b : Bool) (x y : A) → (if not b then x else y) ≡ (if b then y else x)
flip_if true x y = refl
flip_if false x y = refl

pub Holds-add :
    (key : Key) (found : List ReportFinding) (g : Group) (finding : ReportFinding)
    → g.findings ≡ found
    → g.systems_in_order ≡ systems_from [] found
    → g.systems ≡ systems_from [] found
    → Holds key (found ++ finding ∷ []) (add_to_group key (system_of (group_key finding)) finding g)
unfolding add_to_group
Holds-add (ip, family) found g finding f o s = record {
  ne = concat-ne found finding;
  ip = refl;
  family = refl;
  findings = rw f refl;
  in_order =
      rw (systems_from-append, o, s)
        (flip_if (contains (systems_from [] found) (system_of (group_key finding))) _ _);
  systems =
      rw (systems_from-append, s)
        (flip_if (contains (systems_from [] found) (system_of (group_key finding))) _ _);
}

fold-Holds :
    (key : Key) (found more : List ReportFinding) (g : Group)
    → Holds key found g
    → (h : Group) × (fold_group key (some g) more ≡ some h) × Holds key (found ++ more) h
unfolding fold_group
fold-Holds key found [] g h = (g, refl, rw append-nil h)
fold-Holds key found (finding ∷ more) g h =
    let (k, e, holds) =
      fold-Holds key (found ++ finding ∷ []) more _
        (Holds-add key found g finding h.findings h.in_order h.systems) in
    (k, e, rw append_assoc at holds)

fold-Describes :
    (key : Key) (found : List ReportFinding) → Describes key found (fold_group key none found)
unfolding fold_group
fold-Describes key [] = refl
fold-Describes key (finding ∷ rest) =
    let (g, e, h) =
      fold-Holds key (finding ∷ []) rest _ (Holds-add key [] empty_group finding refl refl refl) in
    rw e (h.ne, h.ip, h.family, h.findings, h.in_order, h.systems)

-- The map holds a group for a pair of source address and attack family exactly if some finding has
-- both and a system. The group then holds those findings in their order, and lists their systems
-- without repetition, each at its first place; its set of systems has the same members.
pub group-Describes :
    (key : Key) (findings : List ReportFinding)
    → Describes key (members key findings) (find_group key (group_findings findings []))
unfolding find_group
group-Describes key findings =
    rw (group_findings-fold key findings []) (fold-Describes key (members key findings))
