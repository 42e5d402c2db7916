-- ===== src/Messages.antt =====
-- src/MessageLoader.cpp, over a file system.
pub mod Loaded
pub mod Sort
use Prim.Native.Nat.{Ordering}
use mathlib.Core.List.{reverse}
use parser_framework.Base.{
  ℕ, Bool, true, false, ◌||◌, ◌&&◌, not, List, [], ◌∷◌, ◌++◌, Option, none, some, ◌==◌,
  if◌then◌else◌, drop, Str, codes, str_eq, compare_str, Result, ok, err, ◌>>=◌, ◌>>◌, throw_if,
}

-- What the program asks of the file system.
pub record Files : Type 0 where
  pub exists : Str → Bool
  pub is_regular_file : Str → Bool
  pub is_directory : Str → Bool
  -- The bytes of a file, if it can be opened.
  pub read : Str → Option Str
  -- The entries that `recursive_directory_iterator` goes through, and whether each is a regular file.
  pub walk : Str → Result (List (Str × Bool))

abbrev put_byte : ℕ → List Str → List Str
put_byte c [] = (c ∷ []) ∷ []
put_byte c (first ∷ more) = (c ∷ first) ∷ more

-- The parts of a path between its slashes. (A doubled slash gives an empty part, at the same place in
-- all paths that the program compares.)
unfoldable pub components : Str → List Str
components [] = []
components (c ∷ rest) =
    let later = components rest in if c == b'/' then [] ∷ later else put_byte c later

-- The order of `std::filesystem::path`: part by part.
unfoldable pub compare_components : List Str → List Str → Ordering
compare_components [] [] = Ordering.eq
compare_components [] (y ∷ ys) = Ordering.lt
compare_components (x ∷ xs) [] = Ordering.gt
compare_components (x ∷ xs) (y ∷ ys) = elim (compare_str x y) [
  | Ordering.eq ↦ compare_components xs ys
  | Ordering.lt ↦ Ordering.lt
  | Ordering.gt ↦ Ordering.gt
]

abbrev pub is_gt : Ordering → Bool
is_gt Ordering.gt = true
is_gt _ = false

-- `!(b < a)`
unfoldable pub path_leb : Str → Str → Bool
unfolding compare_components components
path_leb a b = not (is_gt (compare_components (components a) (components b)))

unfoldable pub insert : Str → List Str → List Str
unfolding path_leb
insert path [] = path ∷ []
insert path (first ∷ rest) =
    if path_leb path first then path ∷ first ∷ rest else first ∷ insert path rest

-- `std::sort`
unfoldable pub sort : List Str → List Str
unfolding insert
sort [] = []
sort (path ∷ rest) = insert path (sort rest)

abbrev last_part : Str → List Str → Str
last_part part [] = part
last_part part (next ∷ rest) = last_part next rest

-- From the last dot on.
unfoldable pub from_dot : Str → Option Str
from_dot [] = none
from_dot (c ∷ rest) = elim (from_dot rest) [
  | some found ↦ some found
  | none ↦ if c == b'.' then some (c ∷ rest) else none
]

abbrev or_no_text : Option Str → Str
or_no_text none = []
or_no_text (some found) = found

-- `path.extension()`: a dot at the start of the last part begins no extension.
unfoldable pub extension : Str → Str
unfolding components from_dot
extension path =
    let name = last_part [] (components path) in
    if str_eq name (codes "..") then [] else or_no_text (from_dot (drop 1 name))

unfoldable pub is_message_file : Str → Bool
unfolding extension
is_message_file path =
    let extension = extension path in
    str_eq extension (codes ".log")
    || str_eq extension (codes ".json")
    || str_eq extension (codes ".txt")

abbrev pub is_newline : ℕ → Bool
is_newline c = c == 10 || c == 13

-- The loop of `trim_trailing_newlines`, on the bytes from the last one on.
unfoldable pub pop_newlines : Str → Str
pop_newlines [] = []
pop_newlines (c ∷ rest) =
    let popped = pop_newlines rest in if is_newline c then popped else c ∷ rest

unfoldable pub trim_trailing_newlines : Str → Str
unfolding pop_newlines
trim_trailing_newlines input = reverse (pop_newlines (reverse input))

abbrev pub cannot_open : Str → Str
cannot_open path = codes "Failed to open message file [" ++ (path ++ codes "]")

abbrev no_such_path : Str → Str
no_such_path path = codes "Message path does not exist [" ++ (path ++ codes "]")

abbrev no_file_or_directory : Str → Str
no_file_or_directory path = codes "Message path is not a file or directory [" ++ (path ++ codes "]")

abbrev trimmed : Str → Option Str → Result Str
trimmed path none = err (cannot_open path)
trimmed path (some content) = ok (trim_trailing_newlines content)

-- The loop over the entries.
unfoldable pub message_files : List (Str × Bool) → List Str
unfolding is_message_file
message_files [] = []
message_files ((path, regular) ∷ rest) =
    let later = message_files rest in
    if regular && is_message_file path then path ∷ later else later

module _ (files : Files) where
  unfoldable pub load_message_file : Str → Result Str
  unfolding trim_trailing_newlines
  load_message_file path = trimmed path (files.read path)

  unfoldable pub load_files : List Str → Result (List Str)
  unfolding load_message_file
  load_files [] = ok []
  load_files (path ∷ rest) = do
    message ← load_message_file path
    messages ← load_files rest
    ok (message ∷ messages)

  unfoldable pub load_directory : Str → Result (List Str)
  unfolding load_files message_files sort
  load_directory path = do entries ← files.walk path; load_files (sort (message_files entries))

  -- Behind the test that the path exists.
  unfoldable pub load_existing : Str → Result (List Str)
  unfolding load_files load_directory
  load_existing path =
      if files.is_regular_file path
      then load_files (path ∷ [])
      else if files.is_directory path
      then load_directory path
      else err (no_file_or_directory path)

  unfoldable pub load_messages_from_path : Str → Result (List Str)
  unfolding load_existing
  load_messages_from_path path = do
    throw_if (not (files.exists path)) (no_such_path path)
    load_existing path

  unfoldable pub load_messages_from_paths : List Str → Result (List Str)
  unfolding load_messages_from_path
  load_messages_from_paths [] = ok []
  load_messages_from_paths (path ∷ rest) = do
    loaded ← load_messages_from_path path
    messages ← load_messages_from_paths rest
    ok (loaded ++ messages)
