-- ===== src/Messages/Loaded.antt =====
-- What the messages that src/MessageLoader.cpp loads are.
use mathlib.Core.List.{reverse, reverse_aux, reverse-append, reverse-reverse}
use mathlib.Core.Path.{subst}
use parser_framework.Base.{
  ℕ, true, false, List, [], ◌∷◌, ◌++◌, some, ◌≡◌, refl, sym, ap, ◌∙◌, Str, ok, >>=-eq-ok,
  ok-injective, Ensures, Ensures-bind, All, Bool-cases, Option-cases, inl, inr, ◌⊎◌,
}
use parser_framework.Messages.{
  Files, is_newline, pop_newlines, trim_trailing_newlines, load_message_file, load_files,
  load_existing, load_directory, load_messages_from_path, load_messages_from_paths,
}

-- The text without the newlines at its end: its last byte, if it has one, is none.
pub record Trimmed (input output : Str) : Type 0 where
  pub newlines : Str
  pub input_eq : input ≡ output ++ newlines
  pub all_newlines : All (λ c. is_newline c ≡ true) newlines
  pub last :
      (output ≡ [])
      ⊎ ((before : Str) × (c : ℕ) × (output ≡ before ++ c ∷ []) × (is_newline c ≡ false))

All-reverse_aux :
    {A : Type 0} (P : A → Type 0) (xs ys : List A) → All P xs → All P ys → All P (reverse_aux xs ys)
All-reverse_aux P [] ys h k = k
All-reverse_aux P (x ∷ xs) ys h k = All-reverse_aux P xs (x ∷ ys) h.1 (h.0, k)

record Popped (input output : Str) : Type 0 where
  newlines : Str
  input_eq : input ≡ newlines ++ output
  all_newlines : All (λ c. is_newline c ≡ true) newlines
  first : (output ≡ []) ⊎ ((c : ℕ) × (rest : Str) × (output ≡ c ∷ rest) × (is_newline c ≡ false))

pop_newlines-Popped : (s : Str) → Popped s (pop_newlines s)
unfolding pop_newlines
pop_newlines-Popped [] = record {
  newlines = [];
  input_eq = refl;
  all_newlines = tt;
  first = inl refl;
}
pop_newlines-Popped (c ∷ rest) = elim (Bool-cases (is_newline c)) [
  | inl p ↦
      let popped = pop_newlines-Popped rest in
      rw p (record {
        newlines = c ∷ popped.newlines;
        input_eq = ap (◌∷◌ c) popped.input_eq;
        all_newlines = (p, popped.all_newlines);
        first = popped.first;
      })
  | inr p ↦
      rw p (record {
        newlines = [];
        input_eq = refl;
        all_newlines = tt;
        first = inr (c, rest, refl, p);
      })
]

pub trim-Trimmed : (s : Str) → Trimmed s (trim_trailing_newlines s)
unfolding trim_trailing_newlines
trim-Trimmed s =
    let popped = pop_newlines-Popped (reverse s) in
    record {
      newlines = reverse popped.newlines;
      input_eq =
          sym (reverse-reverse s)
          ∙ (ap reverse popped.input_eq
              ∙ reverse-append popped.newlines (pop_newlines (reverse s)));
      all_newlines = All-reverse_aux _ popped.newlines [] popped.all_newlines tt;
      last = elim popped.first [
        | inl e ↦ inl (ap reverse e)
        | inr (c, rest, e, n) ↦
            inr (reverse rest, c, ap reverse e ∙ reverse-append (c ∷ []) rest, n)
      ];
    }

module _ (files : Files) where
  -- The message is the trimmed content of a file that can be read.
  abbrev pub FromFile : Str → Type 0
  FromFile message =
      (path : Str) × (content : Str) × (files.read path ≡ some content) × Trimmed content message

  file-Ensures : (path : Str) → Ensures FromFile (load_message_file files path)
  unfolding load_message_file
  file-Ensures path = elim (Option-cases (files.read path)) [
    | inl e ↦ record { at = λ m h. cc (rw e at h) }
    | inr (content, e) ↦ record {
      at =
          λ m h. subst FromFile (ok-injective (rw e at h)) (path, content, e, trim-Trimmed content);
    }
  ]

  files-Ensures : (paths : List Str) → Ensures (All FromFile) (load_files files paths)
  unfolding load_files
  files-Ensures [] = record { at = λ ms e. subst (All FromFile) (ok-injective e) tt }
  files-Ensures (path ∷ rest) = record {
    at = λ ms e.
        let (m, p, q) = >>=-eq-ok (load_message_file files path) _ e in
        let (later, r, t) = >>=-eq-ok (load_files files rest) _ q in
        subst (All FromFile) (ok-injective t)
          ((file-Ensures path).at m p, (files-Ensures rest).at later r);
  }

  directory-Ensures : (path : Str) → Ensures (All FromFile) (load_directory files path)
  unfolding load_directory
  directory-Ensures path = search (Ensures-bind, files-Ensures)

  existing-Ensures : (path : Str) → Ensures (All FromFile) (load_existing files path)
  unfolding load_existing
  existing-Ensures path = elim (Bool-cases (files.is_regular_file path)) [
    | inl p ↦ rw p (files-Ensures (path ∷ []))
    | inr p ↦ elim (Bool-cases (files.is_directory path)) [
      | inl q ↦ rw (p, q) (directory-Ensures path)
      | inr q ↦ rw (p, q) (record { at = λ ms e. cc e })
    ]
  ]

  path-Ensures : (path : Str) → Ensures (All FromFile) (load_messages_from_path files path)
  unfolding load_messages_from_path
  path-Ensures path = search (Ensures-bind, existing-Ensures)

  All-append : (xs ys : List Str) → All FromFile xs → All FromFile ys → All FromFile (xs ++ ys)
  All-append [] ys h k = k
  All-append (x ∷ xs) ys h k = (h.0, All-append xs ys h.1 k)

  -- Each message that is loaded from some paths is the content of a file that can be read, without
  -- the newlines at its end, all of which are gone.
  pub load_messages_from_paths-FromFile :
      (paths : List Str) {messages : List Str}
      → load_messages_from_paths files paths ≡ ok messages
      → All FromFile messages
  unfolding load_messages_from_paths
  load_messages_from_paths-FromFile [] e = subst (All FromFile) (ok-injective e) tt
  load_messages_from_paths-FromFile (path ∷ rest) e =
      let (loaded, p, q) = >>=-eq-ok (load_messages_from_path files path) _ e in
      let (later, r, t) = >>=-eq-ok (load_messages_from_paths files rest) _ q in
      subst (All FromFile) (ok-injective t) (
        All-append loaded later ((path-Ensures path).at loaded p)
          (load_messages_from_paths-FromFile rest r))
