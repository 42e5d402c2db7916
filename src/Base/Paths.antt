-- ===== src/Base/Paths.antt =====
-- `std::filesystem::path` as the string of its bytes: the operations that take no look at a file
-- system. (A path that begins with two slashes is read as one that begins with one.)
use Prim.Native.Nat.{ℕ, suc, ◌<◌}
use mathlib.Core.Path.{◌≡◌, refl}
use mathlib.Core.Logic.{◌⊎◌, inl, inr}
use native.Mathlib.Omega.{arith}
use mathlib.Core.Bool.{Bool, true, false, not}
use mathlib.Core.List.{[], ◌∷◌, ◌++◌}
use parser_framework.Base.Lists.{is_empty, length}
use parser_framework.Base.Tests.{◌==◌, if-cases, if◌then◌else◌}
use parser_framework.Base.Text.{Str}

abbrev is_slash : ℕ → Bool
is_slash c = c == b'/'

-- `path.is_absolute()`
unfoldable pub is_absolute : Str → Bool
is_absolute [] = false
is_absolute (c ∷ rest) = is_slash c

-- Whether a separator is missing behind the path in `path / other`.
unfoldable pub has_filename : Str → Bool
has_filename [] = false
has_filename (c ∷ []) = not (is_slash c)
has_filename (c ∷ d ∷ rest) = has_filename (d ∷ rest)

-- `path / other`, where `other` is relative.
unfoldable pub join_path : Str → Str → Str
unfolding has_filename
join_path path other = if has_filename path then path ++ (b'/' ∷ other) else path ++ other

-- Whether all bytes are slashes, so that the path has no relative part.
unfoldable pub is_root : Str → Bool
is_root [] = true
is_root (c ∷ rest) = if is_slash c then is_root rest else false

-- The path without the slashes at its end; a root stays one slash.
unfoldable pub drop_slashes : Str → Str
drop_slashes [] = []
drop_slashes (c ∷ rest) =
    let later = drop_slashes rest in
    if is_slash c then (if is_root rest then [] else c ∷ later) else c ∷ later

abbrev step_directory : ℕ → Str → Str
step_directory c later = if is_empty later then (if is_slash c then c ∷ [] else []) else c ∷ later

-- What stands up to and with the last slash.
unfoldable pub directory_part : Str → Str
directory_part [] = []
directory_part (c ∷ rest) = step_directory c (directory_part rest)

abbrev or_root : Str → Str → Str
or_root directory [] = if is_empty directory then [] else b'/' ∷ []
or_root directory stripped = stripped

-- `path.parent_path()`
unfoldable pub parent_path : Str → Str
unfolding is_root drop_slashes directory_part
parent_path path =
    if is_root path
    then path
    else or_root (directory_part path) (drop_slashes (directory_part path))

-- The same, one byte to the left.
shorter_step :
    (c : ℕ) (rest later : Str)
    → (later ≡ []) ⊎ (length (drop_slashes later) < length rest)
    → (step_directory c later ≡ [])
      ⊎ (length (drop_slashes (step_directory c later)) < suc (length rest))
unfolding drop_slashes is_root
shorter_step c rest [] h = ground arith
shorter_step c rest (x ∷ xs) h = ground arith

-- A directory without its slash is shorter than the path.
directory-shorter :
    (p : Str) → (directory_part p ≡ []) ⊎ (length (drop_slashes (directory_part p)) < length p)
unfolding directory_part
directory-shorter [] = inl refl
directory-shorter (c ∷ rest) = shorter_step c rest (directory_part rest) (directory-shorter rest)

parent_step :
    (c d : ℕ) (rest directory stripped : Str)
    → (directory ≡ []) ⊎ (length stripped < suc (suc (length rest)))
    → (directory ≡ [] → stripped ≡ [])
    → length (or_root directory stripped) < suc (suc (length rest))
parent_step c d rest [] stripped h e = rw (e refl) (omega arith)
parent_step c d rest (x ∷ directory) [] h e = omega arith
parent_step c d rest (x ∷ directory) (y ∷ stripped) h e = ground arith

longer :
    (p : Str)
    → is_root p ≡ false
    → length (or_root (directory_part p) (drop_slashes (directory_part p))) < length p
unfolding is_root directory_part drop_slashes
longer [] h = cc h
longer (c ∷ []) h = ground arith
longer (c ∷ d ∷ rest) h =
    parent_step c d rest (directory_part (c ∷ d ∷ rest))
      (drop_slashes (directory_part (c ∷ d ∷ rest))) (directory-shorter (c ∷ d ∷ rest))
      (λ e. rw e refl)

-- A path that is its own parent is a root; any other is longer than its parent.
pub parent_path-shorter : (p : Str) → (parent_path p ≡ p) ⊎ (length (parent_path p) < length p)
unfolding parent_path
parent_path-shorter p =
    if-cases (λ q. (q ≡ p) ⊎ (length q < length p)) (is_root p) p _ (λ _. inl refl)
      (λ no_root. inr (longer p no_root))
