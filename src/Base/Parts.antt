-- ===== src/Base/Parts.antt =====
-- Laws of `cut`, `split`, `take` and `drop`: what the parts hold, and how they spell the text.
use Prim.Native.Nat.{ℕ, zero, suc}
use mathlib.Core.Bool.{true, false}
use mathlib.Core.Logic.{◌≢◌, inl, inr}
use mathlib.Core.Path.{◌≡◌, refl, ap}
use mathlib.Core.List.{List, [], ◌∷◌, ◌++◌}
use native.Mathlib.Omega.{arith}
use dkll.Base.Tests.{◌==◌, Bool-cases}
use dkll.Base.Lists.{length, take, drop, All}
use dkll.Base.Strings.{Bytes, Lacks, cut, split, push_head}

pub take-append {ℓ} : {A : Type ℓ} (n : ℕ) (xs ys : List A) → length xs ≡ n → take n (xs ++ ys) ≡ xs
take-append zero [] ys h = refl
take-append zero (x ∷ xs) ys h = absurd (omega arith)
take-append (suc n) [] ys h = absurd (omega arith)
take-append (suc n) (x ∷ xs) ys h = ap (λ t. x ∷ t) (take-append n xs ys (omega arith))

-- Dropping a text and the byte behind it.
pub drop-append {ℓ} :
    {A : Type ℓ} (n : ℕ) (xs ys : List A) (y : A) → length xs ≡ n → drop (suc n) (xs ++ y ∷ ys) ≡ ys
drop-append zero [] ys y h = refl
drop-append zero (x ∷ xs) ys y h = absurd (omega arith)
drop-append (suc n) [] ys y h = absurd (omega arith)
drop-append (suc n) (x ∷ xs) ys y h = drop-append n xs ys y (omega arith)

module _ (sep : ℕ) where
  pub cut-Lacks : (s : Bytes) → Lacks sep (cut s sep).0
  unfolding cut
  cut-Lacks [] = tt
  cut-Lacks (c ∷ s) = ground (arith, cut-Lacks s)

  -- A text that is cut is the two parts with the separator between them.
  pub cut_found : (s : Bytes) → (cut s sep).2 ≡ true → s ≡ (cut s sep).0 ++ sep ∷ (cut s sep).1
  unfolding cut
  cut_found [] h = cc
  cut_found (c ∷ s) h = ground (arith, cut_found s)

  -- Without the separator the first part is all of the text.
  pub cut_missing :
      (s : Bytes) → (cut s sep).2 ≡ false → ((cut s sep).0 ≡ s) × ((cut s sep).1 ≡ []) × Lacks sep s
  unfolding cut
  cut_missing [] h = (refl, refl, tt)
  cut_missing (c ∷ s) h = ground (arith, cut_missing s)

  push_head-Lacks :
      (b c : ℕ) (ps : List Bytes) → c ≢ b → All (Lacks b) ps → All (Lacks b) (push_head c ps)
  push_head-Lacks b c [] h k = ground arith
  push_head-Lacks b c (p ∷ ps) h k = ground arith

  -- No part of a split holds the separator.
  pub split-All-Lacks : (s : Bytes) → All (Lacks sep) (split s sep)
  unfolding split
  split-All-Lacks [] = (tt, tt)
  split-All-Lacks (c ∷ s) = elim (Bool-cases (c == sep)) [
    | inl e ↦ rw e (tt, split-All-Lacks s)
    | inr e ↦ rw e (push_head-Lacks sep c (split s sep) (ground arith) (split-All-Lacks s))
  ]

  -- What the text lacks, every part lacks.
  pub split-All : (b : ℕ) (s : Bytes) → Lacks b s → All (Lacks b) (split s sep)
  unfolding split
  split-All b [] h = (tt, tt)
  split-All b (c ∷ s) (hc, hs) = elim (Bool-cases (c == sep)) [
    | inl e ↦ rw e (tt, split-All b s hs)
    | inr e ↦ rw e (push_head-Lacks b c (split s sep) hc (split-All b s hs))
  ]
