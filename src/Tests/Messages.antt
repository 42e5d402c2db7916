-- ===== src/Tests/Messages.antt =====
-- A directory of message files through src/MessageLoader.cpp.
use mathlib.Core.List.{Perm}
use parser_framework.Base.{
  List, Str, Bool, ◌≡◌, refl, true, false, [], ◌∷◌, ◌++◌, some, codes, compare_str, str_eq, ok, All,
}
use parser_framework.Messages.Loaded.{FromFile, load_messages_from_paths-FromFile}
use parser_framework.Messages.Sort.{Sorted, Chosen, ReadAll, load_directory-Sorted}
use parser_framework.Messages.{
  load_directory, Files, load_messages_from_paths, load_messages_from_path,
}

abbrev directory : Files
directory = record {
  exists = λ path. true;
  is_regular_file = λ path. false;
  is_directory = λ path. true;
  read = λ path. some (path ++ codes "\nx\n\r\n");
  walk = λ path. ok (
      (codes "d/b.log", true)
      ∷ (codes "d/c.md", true)
      ∷ (codes "d/a/z.txt", true)
      ∷ (codes "d/.json", true)
      ∷ (codes "d/e.json", false)
      ∷ []);
}

loaded-directory :
    load_messages_from_paths directory (codes "d" ∷ [])
    ≡ ok (codes "d/a/z.txt\nx" ∷ codes "d/b.log\nx" ∷ [])
unfolding load_messages_from_paths load_messages_from_path compare_str str_eq
loaded-directory = refl

load_messages_from_paths-FromFile_example :
    All (FromFile directory) (codes "d/a/z.txt\nx" ∷ codes "d/b.log\nx" ∷ [])
load_messages_from_paths-FromFile_example =
    load_messages_from_paths-FromFile directory (codes "d" ∷ []) loaded-directory

abbrev entries : List (Str × Bool)
entries =
    (codes "d/b.log", true)
    ∷ (codes "d/c.md", true)
    ∷ (codes "d/a/z.txt", true)
    ∷ (codes "d/.json", true)
    ∷ (codes "d/e.json", false)
    ∷ []

load_directory-Sorted_example :
    (chosen : List Str) × (paths : List Str) × Chosen entries chosen
    × Perm chosen paths
    × Sorted paths
    × ReadAll directory paths (load_directory directory (codes "d"))
load_directory-Sorted_example = load_directory-Sorted directory (codes "d") refl
