-- ===== src/Engines/Regex/Locate.antt =====
-- The loop of `locate_slices`: it ends, and its slices advance through the text.
use mathlib.Core.Path.{subst}
use parser_framework.Base.{
  ℕ, zero, suc, ◌+◌, ◌≤◌, ◌<◌, true, List, [], ◌∷◌, ◌++◌, none, some, ◌≡◌, refl, arith, leb, leb→le,
  length, Str, ok, Result-cases, Bool-cases, inl, inr, All, append-nil, append_assoc, map,
}
use parser_framework.Engines.Regex.{
  LoopEnd, done, thrown, out_of_fuel, CaptureMatch, search_capture, slice_of, locate_loop,
  locate_all,
}
use parser_framework.Libraries.{Libraries, sequential}
use parser_framework.Types.{SectionSettings, SectionSlice}

-- The ends of the matches grow from `offset` on, but for the last, at which the loop may stop.
abbrev pub Rising : ℕ → List CaptureMatch → Type 0
Rising offset [] = Unit
Rising offset (m ∷ []) = Unit
Rising offset (m ∷ n ∷ rest) = (offset < m.end) × Rising m.end (n ∷ rest)

Rising-cons :
    (offset : ℕ) (m : CaptureMatch) (ms : List CaptureMatch)
    → offset < m.end
    → Rising m.end ms
    → Rising offset (m ∷ ms)
Rising-cons offset m [] h r = tt
Rising-cons offset m (n ∷ ms) h r = (h, r)

-- The slices with which the loop ends; it does not end by its fuel.
abbrev pub EndsWith : LoopEnd (List SectionSlice) → List SectionSlice → Type 0
EndsWith (done found) slices = found ≡ slices
EndsWith (thrown found what) slices = found ≡ slices
EndsWith out_of_fuel slices = ⊥

-- The matches that the loop adds to `slices` from `offset` on. Each is what the search finds from
-- some place of the text.
pub record Advance (lib : Libraries) (text : Str) (base_offset : ℕ) (pattern : Str)
    (group offset : ℕ) (slices : List SectionSlice) (end : LoopEnd (List SectionSlice))
    : Type 0 where
  pub matches : List CaptureMatch
  pub ends : EndsWith end (slices ++ map (slice_of lib base_offset) matches)
  pub rising : Rising offset matches
  pub found :
      All
        (λ m.
          (from : ℕ) × (from ≤ length text)
          × (search_capture lib text pattern group sequential from ≡ ok (some m)))
        matches

module _ (lib : Libraries) (text : Str) (base_offset : ℕ) (pattern : Str) (group : ℕ) where
  Advance-none :
      (offset : ℕ) (slices : List SectionSlice) (end : LoopEnd (List SectionSlice))
      → EndsWith end slices
      → Advance lib text base_offset pattern group offset slices end
  Advance-none offset slices end e = record {
    matches = [];
    ends = rw append-nil e;
    rising = tt;
    found = tt;
  }

  Advance-last :
      (offset : ℕ) (slices : List SectionSlice) (m : CaptureMatch)
      → offset ≤ length text
      → search_capture lib text pattern group sequential offset ≡ ok (some m)
      → Advance lib text base_offset pattern group offset slices
          (done (slices ++ slice_of lib base_offset m ∷ []))
  Advance-last offset slices m within e = record {
    matches = m ∷ [];
    ends = refl;
    rising = tt;
    found = ((offset, within, e), tt);
  }

  EndsWith-subst :
      (end : LoopEnd (List SectionSlice)) (a b : List SectionSlice)
      → a ≡ b
      → EndsWith end a
      → EndsWith end b
  EndsWith-subst end a b e h = subst (EndsWith end) e h

  Advance-more :
      (offset : ℕ) (slices : List SectionSlice) (m : CaptureMatch)
      (end : LoopEnd (List SectionSlice))
      → offset ≤ length text
      → search_capture lib text pattern group sequential offset ≡ ok (some m)
      → offset < m.end
      → Advance lib text base_offset pattern group m.end
          (slices ++ slice_of lib base_offset m ∷ [])
          end
      → Advance lib text base_offset pattern group offset slices end
  Advance-more offset slices m end within e up later = record {
    matches = m ∷ later.matches;
    ends =
        EndsWith-subst end _ _
          (append_assoc slices (slice_of lib base_offset m ∷ [])
            (map (slice_of lib base_offset) later.matches))
          later.ends;
    rising = Rising-cons offset m later.matches up later.rising;
    found = ((offset, within, e), later.found);
  }

  loop-Advance :
      (fuel offset : ℕ) (slices : List SectionSlice)
      → 0 < fuel
      → length text + 1 < fuel + offset
      → Advance lib text base_offset pattern group offset slices
          (locate_loop lib fuel text base_offset pattern group offset slices)
  unfolding locate_loop
  loop-Advance zero offset slices p h = absurd (omega arith)
  loop-Advance (suc fuel) offset slices p h = elim (Bool-cases (leb offset (length text))) [
    | inr beyond ↦ rw (beyond, locate_loop) (Advance-none offset slices _ refl)
    | inl within ↦ elim (Result-cases (search_capture lib text pattern group sequential offset)) [
      | inr (what, e) ↦ rw (within, e, locate_loop) (Advance-none offset slices _ refl)
      | inl (none, e) ↦ rw (within, e, locate_loop) (Advance-none offset slices _ refl)
      | inl (some m, e) ↦ elim (Bool-cases (leb m.end offset)) [
        | inl stuck ↦
            rw (within, e, stuck, locate_loop)
              (Advance-last offset slices m (omega (arith, leb→le offset (length text) within)) e)
        | inr goes ↦
            rw (within, e, goes, locate_loop)
              (Advance-more offset slices m _ (omega (arith, leb→le offset (length text) within)) e
                (ground arith)
                (loop-Advance fuel m.end (slices ++ slice_of lib base_offset m ∷ []) (ground arith)
                  (ground arith)))
      ]
    ]
  ]

-- The search for several slices always ends within its fuel. Its slices are those of a list of
-- matches, in order; each match is one that the search finds from some place of the text, and the
-- ends of the matches grow strictly from one to the next, but for the last.
pub locate_all-Advance :
    (lib : Libraries) (section : SectionSettings) (text : Str) (base_offset : ℕ) (pattern : Str)
    → section.allow_multiple ≡ true
    → Advance lib text base_offset pattern section.locator_group 0 []
        (locate_all lib section text base_offset pattern)
unfolding locate_all
locate_all-Advance lib section text base_offset pattern h = rw h (
    loop-Advance lib text base_offset pattern section.locator_group (suc (suc (length text))) 0 []
      (omega arith) (omega arith))
