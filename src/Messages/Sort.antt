-- ===== src/Messages/Sort.antt =====
-- Which files of a directory src/MessageLoader.cpp reads, and in which order.
use Prim.Native.Nat.{Ordering}
use mathlib.Core.List.Perm
use mathlib.Core.List.{Perm}
use parser_framework.Base.{
  Bool, true, false, List, [], ◌∷◌, none, some, ◌≡◌, ◌↔◌, ◌⊎◌, refl, arith, Str, codes, compare_str,
  str_eq_iff, Bool-cases, Option-cases, Result-cases, inl, inr, Result, ok, err,
}
use parser_framework.Messages.Loaded.{Trimmed, trim-Trimmed}
use parser_framework.Messages.{
  components, compare_components, path_leb, insert, sort, Files, extension, is_message_file,
  message_files, cannot_open, load_message_file, load_files, load_directory,
}

abbrev flip : Ordering → Ordering
flip Ordering.lt = Ordering.gt
flip Ordering.eq = Ordering.eq
flip Ordering.gt = Ordering.lt

compare_str-flip : (a b : Str) → compare_str b a ≡ flip (compare_str a b)
unfolding compare_str
compare_str-flip [] [] = refl
compare_str-flip [] (y ∷ b) = refl
compare_str-flip (x ∷ a) [] = refl
compare_str-flip (x ∷ a) (y ∷ b) = ground (arith, compare_str-flip a b)

compare_components-flip : (a b : List Str) → compare_components b a ≡ flip (compare_components a b)
unfolding compare_components
compare_components-flip [] [] = refl
compare_components-flip [] (y ∷ b) = refl
compare_components-flip (x ∷ a) [] = refl
compare_components-flip (x ∷ a) (y ∷ b) =
    ground (arith, compare_str-flip x y, compare_components-flip a b)

path_leb-total : (a b : Str) → path_leb a b ≡ false → path_leb b a ≡ true
unfolding path_leb
path_leb-total a b h = ground (arith, compare_components-flip (components a) (components b))

-- No path stands before a smaller one.
abbrev pub Sorted : List Str → Type 0
Sorted [] = Unit
Sorted (x ∷ []) = Unit
Sorted (x ∷ y ∷ rest) = (path_leb x y ≡ true) × Sorted (y ∷ rest)

insert-Sorted : (path : Str) (xs : List Str) → Sorted xs → Sorted (insert path xs)
unfolding insert
insert-Sorted path [] h = tt
insert-Sorted path (x ∷ []) h = elim (Bool-cases (path_leb path x)) [
  | inl p ↦ rw p (p, tt)
  | inr p ↦ rw p (path_leb-total path x p, tt)
]
insert-Sorted path (x ∷ y ∷ rest) h = elim (Bool-cases (path_leb path x)) [
  | inl p ↦ rw p (p, h)
  | inr p ↦ elim (Bool-cases (path_leb path y)) [
    | inl q ↦ rw (p, q) (path_leb-total path x p, (q, h.1))
    | inr q ↦ rw (p, q) (h.0, rw q at (insert-Sorted path (y ∷ rest) h.1))
  ]
]

insert-Perm : (path : Str) (xs : List Str) → Perm (path ∷ xs) (insert path xs)
unfolding insert
insert-Perm path [] = Perm.refl (path ∷ [])
insert-Perm path (x ∷ xs) = elim (Bool-cases (path_leb path x)) [
  | inl p ↦ rw p (Perm.refl _)
  | inr p ↦ rw p (Perm.trans (Perm.swap _ _ _) (Perm.cons x (insert-Perm path xs)))
]

sort-Sorted : (paths : List Str) → Sorted (sort paths) × Perm paths (sort paths)
unfolding sort
sort-Sorted [] = (tt, Perm.refl [])
sort-Sorted (path ∷ rest) =
    let (sorted, perm) = sort-Sorted rest in
    (
      insert-Sorted path (sort rest) sorted,
      Perm.trans (Perm.cons path perm) (insert-Perm path (sort rest)),
    )

-- The name ends in one of the three extensions.
abbrev pub HasMessageExtension : Str → Type 0
HasMessageExtension path =
    (extension path ≡ codes ".log")
    ⊎ (extension path ≡ codes ".json")
    ⊎ (extension path ≡ codes ".txt")

-- The paths of the regular files with such a name among the entries of a walk, and of no others.
pub data Chosen : List (Str × Bool) → List Str → Type 0 where
  end : Chosen [] []
  taken :
      {path : Str} {entries : List (Str × Bool)} {paths : List Str}
      → HasMessageExtension path
      → Chosen entries paths
      → Chosen ((path, true) ∷ entries) (path ∷ paths)
  other_name :
      {path : Str} {entries : List (Str × Bool)} {paths : List Str}
      → ¬ HasMessageExtension path
      → Chosen entries paths
      → Chosen ((path, true) ∷ entries) paths
  not_regular :
      {path : Str} {entries : List (Str × Bool)} {paths : List Str}
      → Chosen entries paths
      → Chosen ((path, false) ∷ entries) paths

is_message_file_iff : (path : Str) → (is_message_file path ≡ true) ↔ HasMessageExtension path
unfolding is_message_file
is_message_file_iff path = ground (
  arith,
  str_eq_iff (extension path) (codes ".log"),
  str_eq_iff (extension path) (codes ".json"),
  str_eq_iff (extension path) (codes ".txt"),
)

message_files-Chosen : (entries : List (Str × Bool)) → Chosen entries (message_files entries)
unfolding message_files
message_files-Chosen [] = end
message_files-Chosen ((path, false) ∷ rest) = not_regular (message_files-Chosen rest)
message_files-Chosen ((path, true) ∷ rest) = elim (Bool-cases (is_message_file path)) [
  | inl p ↦ rw p (taken ((is_message_file_iff path).0 p) (message_files-Chosen rest))
  | inr p ↦
      rw p (other_name (λ h. cc (p, (is_message_file_iff path).1 h)) (message_files-Chosen rest))
]

module _ (files : Files) where
  -- What reading some files one after another gives: a message for each, which is its content without
  -- the newlines at its end, or the error of the first that cannot be opened.
  pub data ReadAll : List Str → Result (List Str) → Type 0 where
    none_left : ReadAll [] (ok [])
    not_opened :
        {path : Str} {rest : List Str}
        → files.read path ≡ none
        → ReadAll (path ∷ rest) (err (cannot_open path))
    one_read :
        {path content message : Str} {rest messages : List Str}
        → files.read path ≡ some content
        → Trimmed content message
        → ReadAll rest (ok messages)
        → ReadAll (path ∷ rest) (ok (message ∷ messages))
    later_not_opened :
        {path content what : Str} {rest : List Str}
        → files.read path ≡ some content
        → ReadAll rest (err what)
        → ReadAll (path ∷ rest) (err what)

  load_files-ReadAll : (paths : List Str) → ReadAll paths (load_files files paths)
  unfolding load_files load_message_file
  load_files-ReadAll [] = none_left
  load_files-ReadAll (path ∷ rest) = elim (Option-cases (files.read path)) [
    | inl e ↦ rw e (not_opened e)
    | inr (content, e) ↦ elim (Result-cases (load_files files rest)) [
      | inl (messages, q) ↦
          rw (e, q) (one_read e (trim-Trimmed content) (rw q at (load_files-ReadAll rest)))
      | inr (what, q) ↦ rw (e, q) (later_not_opened e (rw q at (load_files-ReadAll rest)))
    ]
  ]

-- The files that are read for a directory are the regular ones among the entries of its walk whose
-- name has one of the three extensions, each as often as the walk found it, in the order of their
-- paths. The result has a message for each of them, or is the error of the first that cannot be
-- opened.
pub load_directory-Sorted :
    (files : Files) (path : Str) {entries : List (Str × Bool)}
    → files.walk path ≡ ok entries
    → (chosen : List Str) × (paths : List Str) × Chosen entries chosen
      × Perm chosen paths
      × Sorted paths
      × ReadAll files paths (load_directory files path)
unfolding load_directory
load_directory-Sorted files path {entries} e =
    let (sorted, perm) = sort-Sorted (message_files entries) in
    (
      message_files entries,
      sort (message_files entries),
      message_files-Chosen entries,
      perm,
      sorted,
      rw e (load_files-ReadAll files (sort (message_files entries))),
    )
