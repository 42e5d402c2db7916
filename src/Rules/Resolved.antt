-- ===== src/Rules/Resolved.antt =====
-- Which file `resolve_message_path` of src/RuleLoader.cpp finds, and that its loop ends.
use parser_framework.Base.{
  ℕ, zero, suc, ◌<◌, ◌≤◌, true, false, [], ◌∷◌, if-cases, is_empty, length, Str, str_eq, str_eq_iff,
  join_path, parent_path, parent_path-shorter, ◌≡◌, refl, ◌⊎◌, inl, inr, arith,
}
use parser_framework.Messages.{Files}
use parser_framework.Rules.Paths.{Search, candidate, not_found, out_of_fuel, resolve_loop}

-- The parent of the parent, and so on, `k` times.
unfoldable pub nth_parent : ℕ → Str → Str
nth_parent zero path = path
nth_parent (suc k) path = nth_parent k (parent_path path)

empty-parent : (path : Str) → is_empty path ≡ true → parent_path path ≡ path
unfolding parent_path
empty-parent [] e = refl
empty-parent (c ∷ rest) e = cc e

shorter :
    (path : Str) (fuel : ℕ)
    → length path < suc fuel
    → str_eq (parent_path path) path ≡ false
    → length (parent_path path) < fuel
shorter path fuel h other = elim (parent_path-shorter path) [
  | inl e ↦ cc ((str_eq_iff (parent_path path) path).1 e, other)
  | inr l ↦ omega (arith, l, h)
]

module _ (files : Files) (input : Str) where
  -- The `k`-th parent of `base` is a directory under which the input exists.
  abbrev pub FoundIn : Str → ℕ → Type 0
  FoundIn base k =
      (is_empty (nth_parent k base) ≡ false)
      × (files.exists (join_path (nth_parent k base) input) ≡ true)

  abbrev pub NotIn : Str → ℕ → Type 0
  NotIn base k =
      (is_empty (nth_parent k base) ≡ true)
      ⊎ (files.exists (join_path (nth_parent k base) input) ≡ false)

  -- The nearest parent of `base` that has the input below it, or that there is none.
  abbrev pub Nearest : Str → Search → Type 0
  Nearest base (candidate found) =
      (k : ℕ) × FoundIn base k
      × (found ≡ join_path (nth_parent k base) input)
      × ((j : ℕ) → (k ≤ j) ⊎ NotIn base j)
  Nearest base not_found = (k : ℕ) → NotIn base k
  Nearest base out_of_fuel = ⊥

  nth_parent_fixed : (path : Str) → parent_path path ≡ path → (k : ℕ) → nth_parent k path ≡ path
  unfolding nth_parent
  nth_parent_fixed path e zero = refl
  nth_parent_fixed path e (suc k) = rw (e, nth_parent_fixed path e k) refl

  NotIn-fixed : (path : Str) → parent_path path ≡ path → NotIn path 0 → (k : ℕ) → NotIn path k
  unfolding nth_parent
  NotIn-fixed path e h k = rw (nth_parent_fixed path e k) h

  NotIn-parent :
      (path : Str) → NotIn path 0 → ((k : ℕ) → NotIn (parent_path path) k) → (k : ℕ) → NotIn path k
  unfolding nth_parent
  NotIn-parent path h none_is zero = h
  NotIn-parent path h none_is (suc k) = none_is k

  Nearest-parent :
      (path : Str) (s : Search) → NotIn path 0 → Nearest (parent_path path) s → Nearest path s
  unfolding nth_parent
  Nearest-parent path (candidate found) h (k, there_is, e, before) =
      (suc k, there_is, e, before_parent)
    where
      before_parent : (j : ℕ) → (suc k ≤ j) ⊎ NotIn path j
      before_parent zero = inr h
      before_parent (suc j) = elim (before j) [ inl l ↦ inl (omega (arith, l)) | inr n ↦ inr n ]
  Nearest-parent path not_found h none_is = λ k. NotIn-parent path h none_is k
  Nearest-parent path out_of_fuel h n = n

  loop-Nearest :
      (fuel : ℕ) (path : Str)
      → length path < fuel
      → Nearest path (resolve_loop files fuel input path)
  unfolding resolve_loop nth_parent
  loop-Nearest zero path h = omega (arith, h)
  loop-Nearest (suc fuel) path h =
      if-cases (Nearest path) (is_empty path) not_found _
        (λ e. NotIn-fixed path (empty-parent path e) (inl e))
        (λ some_path.
          if-cases (Nearest path) (files.exists (join_path path input)) _ _
            (λ e. (0, (some_path, e), refl, λ j. inl (omega arith)))
            (λ e.
              if-cases (Nearest path) (str_eq (parent_path path) path) not_found _
                (λ same. NotIn-fixed path ((str_eq_iff (parent_path path) path).0 same) (inr e))
                (λ other.
                  Nearest-parent path _ (inr e)
                    (loop-Nearest fuel (parent_path path) (shorter path fuel h other)))))

  -- The search of `resolve_message_path` always ends. It ends with the input under the nearest parent of
  -- the base, which is itself the first of them, below which a file of that name exists; or, if there
  -- is none, without one.
  pub resolve_loop-Nearest :
      (base : Str) → Nearest base (resolve_loop files (suc (length base)) input base)
  resolve_loop-Nearest base = loop-Nearest (suc (length base)) base (omega arith)
