-- ===== src/Base/FilePath/Joined.antt =====
-- What `path.Join` gives for a directory, a name and a file's name.
use Prim.Native.Nat.{ℕ}
use mathlib.Core.Bool.{Bool, true, false, ◌||◌}
use mathlib.Core.Logic.{◌≢◌, inl, inr}
use mathlib.Core.Path.{◌≡◌, refl, ap, ◌∙◌, sym}
use mathlib.Core.List.{
  List, [], ◌∷◌, ◌++◌, reverse, reverse-append, reverse-reverse, append_assoc, append-nil,
}
use native.Mathlib.Omega.{arith}
use dkll.Base.Tests.{Bool-cases, if◌then◌else◌}
use dkll.Base.Lists.{All, All-append, last_or}
use dkll.Base.Strings.{
  Bytes, codes, bytes_eq, bytes_eq_sound, Lacks, split, has_prefix, split_at_sep, split-Lacks,
}
use dkll.Base.FilePath.{dot, dots, up, clean_step, clean_all, slashed, spell, clean, joined, join}

-- A name that stands for itself.
abbrev pub IsPlain : Bytes → Type 0
IsPlain e = (e ≢ []) × (e ≢ dot) × (e ≢ dots) × Lacks b'/' e

pub not_bytes_eq : (s t : Bytes) → s ≢ t → bytes_eq s t ≡ false
not_bytes_eq s t h = elim (Bool-cases (bytes_eq s t)) [
  | inl e ↦ absurd (h (bytes_eq_sound s t e))
  | inr e ↦ e
]

-- A path without its last element.
abbrev pub parent {ℓ} : {A : Type ℓ} → List A → List A
parent [] = []
parent (c ∷ []) = []
parent (c ∷ d ∷ cs) = c ∷ parent (d ∷ cs)

parent-snoc {ℓ} : {A : Type ℓ} (c : A) (cs : List A) → c ∷ cs ≡ parent (c ∷ cs) ++ last_or c cs ∷ []
parent-snoc c [] = refl
parent-snoc c (d ∷ cs) = ap (λ t. c ∷ t) (parent-snoc d cs)

All-last {ℓ κ} :
    {A : Type ℓ} (P : A → Type κ) (c : A) (cs : List A) → P c → All P cs → P (last_or c cs)
All-last P c [] h _ = h
All-last P c (d ∷ cs) h (hd, hs) = All-last P d cs hd hs

-- The directory with one more element, which may be empty, `.` or `..`.
unfoldable pub place : List Bytes → Bytes → List Bytes
place cs e =
    if bytes_eq e [] || bytes_eq e dot
    then cs
    else (if bytes_eq e dots then parent cs else cs ++ e ∷ [])

clean_step-IsPlain :
    (r : Bool) (es : List Bytes) (e : Bytes) → IsPlain e → clean_step r es e ≡ e ∷ es
unfolding clean_step
clean_step-IsPlain r es e (n, d, dd, _) =
    rw (not_bytes_eq e [] n, not_bytes_eq e dot d, not_bytes_eq e dots dd) refl

reverse_cons {ℓ} :
    {A : Type ℓ} (c : A) (cs es : List A) → reverse cs ++ c ∷ es ≡ reverse (c ∷ cs) ++ es
reverse_cons c cs es =
    sym (append_assoc (reverse cs) (c ∷ []) es)
    ∙ ap (λ t. t ++ es) (sym (reverse-append (c ∷ []) cs))

clean_all-IsPlain :
    (r : Bool) (cs es ps : List Bytes)
    → All IsPlain cs
    → clean_all r es (cs ++ ps) ≡ clean_all r (reverse cs ++ es) ps
unfolding clean_all
clean_all-IsPlain r [] es ps _ = refl
clean_all-IsPlain r (c ∷ cs) es ps (h, hs) =
    ap (λ t. clean_all r t (cs ++ ps)) (clean_step-IsPlain r es c h)
    ∙ clean_all-IsPlain r cs (c ∷ es) ps hs
    ∙ ap (λ t. clean_all r t ps) (reverse_cons c cs es)

up-parent :
    (r : Bool) (c : Bytes) (cs : List Bytes)
    → All IsPlain (c ∷ cs)
    → reverse (up r (reverse (c ∷ cs))) ≡ parent (c ∷ cs)
unfolding up
up-parent r c cs (hc, hs) =
    let last = last_or c cs in
    let front = parent (c ∷ cs) in
    let turned : reverse (c ∷ cs) ≡ last ∷ reverse front =
      ap reverse (parent-snoc c cs) ∙ reverse-append front (last ∷ []) in
    let plain : bytes_eq last dots ≡ false =
      not_bytes_eq last dots (All-last IsPlain c cs hc hs).2 in
    let upper : up r (last ∷ reverse front) ≡ reverse front = rw plain refl in
    ap reverse (ap (up r) turned ∙ upper) ∙ reverse-reverse front

if_reverse :
    (a b : Bool) (x y z x' y' z' : List Bytes)
    → reverse x ≡ x'
    → reverse y ≡ y'
    → reverse z ≡ z'
    → reverse (if a then x else (if b then y else z)) ≡ (if a then x' else (if b then y' else z'))
if_reverse true b x y z x' y' z' hx hy hz = hx
if_reverse false true x y z x' y' z' hx hy hz = hy
if_reverse false false x y z x' y' z' hx hy hz = hz

clean_step-place :
    (r : Bool) (c : Bytes) (cs : List Bytes) (e : Bytes)
    → All IsPlain (c ∷ cs)
    → reverse (clean_step r (reverse (c ∷ cs)) e) ≡ place (c ∷ cs) e
unfolding clean_step place
clean_step-place r c cs e h =
    if_reverse _ _ _ _ _ _ _ _ (reverse-reverse (c ∷ cs)) (up-parent r c cs h) (
      reverse-append (e ∷ []) (reverse (c ∷ cs)) ∙ ap (λ t. t ++ e ∷ []) (reverse-reverse (c ∷ cs)))

split-slashed :
    (c : Bytes) (cs : List Bytes) (t : Bytes)
    → All IsPlain (c ∷ cs)
    → split ((c ++ slashed cs) ++ b'/' ∷ t) b'/' ≡ (c ∷ cs) ++ split t b'/'
unfolding slashed
split-slashed c [] t (h, _) =
    ap (λ s. split (s ++ b'/' ∷ t) b'/') (append-nil c) ∙ split_at_sep c t b'/' h.3
split-slashed c (d ∷ cs) t (h, hs) =
    ap (λ s. split s b'/') (append_assoc c (b'/' ∷ (d ++ slashed cs)) (b'/' ∷ t))
    ∙ split_at_sep c ((d ++ slashed cs) ++ b'/' ∷ t) b'/' h.3
    ∙ ap (λ t. c ∷ t) (split-slashed d cs t hs)

relative_head : (d s : Bytes) → d ≢ [] → Lacks b'/' d → has_prefix (d ++ s) (codes "/") ≡ false
unfolding has_prefix
relative_head [] s n l = absurd (n refl)
relative_head (b ∷ d) s n (hb, l) = ground arith

clean-rooted :
    (s : Bytes) (b : Bool)
    → has_prefix s (codes "/") ≡ b
    → clean s ≡ spell b (reverse (clean_all b [] (split s b'/')))
unfolding clean
clean-rooted s b h = ap (λ r. spell r (reverse (clean_all r [] (split s b'/')))) h

-- The elements of a path that is spelled from plain ones, and two more.
module _ (c : Bytes) (cs : List Bytes) (h : All IsPlain (c ∷ cs)) (e f : Bytes) (he : Lacks b'/' e)
    (hf : IsPlain f) where
  clean_all-spell :
      (r : Bool)
      → reverse (clean_all r [] (split ((c ++ slashed cs) ++ b'/' ∷ (e ++ b'/' ∷ f)) b'/'))
        ≡ place (c ∷ cs) e ++ f ∷ []
  unfolding clean_all
  clean_all-spell r =
      let ends = split_at_sep e f b'/' he ∙ ap (λ t. e ∷ t) (split-Lacks f b'/' hf.3) in
      let elements = split-slashed c cs (e ++ b'/' ∷ f) h ∙ ap (λ t. (c ∷ cs) ++ t) ends in
      let stack = clean_step r (reverse (c ∷ cs)) e in
      let walked =
        ap (clean_all r []) elements
        ∙ clean_all-IsPlain r (c ∷ cs) [] (e ∷ f ∷ []) h
        ∙ ap (λ t. clean_all r t (e ∷ f ∷ [])) (append-nil (reverse (c ∷ cs)))
        ∙ clean_step-IsPlain r stack f hf in
      ap reverse walked
      ∙ reverse-append (f ∷ []) stack
      ∙ ap (λ t. t ++ f ∷ []) (clean_step-place r c cs e h)

  buffer_not_empty : (s t : Bytes) → bytes_eq (s ++ b'/' ∷ t) [] ≡ false
  buffer_not_empty [] t = refl
  buffer_not_empty (a ∷ s) t = refl

  joined-spell : (s : Bytes) → s ≢ [] → joined [] (s ∷ e ∷ f ∷ []) ≡ s ++ b'/' ∷ (e ++ b'/' ∷ f)
  unfolding joined
  joined-spell s n =
      rw (not_bytes_eq s [] n, buffer_not_empty s e) (append_assoc s (b'/' ∷ e) (b'/' ∷ f))

  join-clean : (s : Bytes) → s ≢ [] → join (s ∷ e ∷ f ∷ []) ≡ clean (s ++ b'/' ∷ (e ++ b'/' ∷ f))
  unfolding join
  join-clean s n = rw (joined-spell s n, buffer_not_empty s (e ++ b'/' ∷ f)) refl

  spell-not_empty : (r : Bool) → spell r (c ∷ cs) ≢ []
  unfolding spell slashed
  spell-not_empty true q = absurd cc
  spell-not_empty false q = h.0.0 (no_head c (slashed cs) q)
    where
      no_head : (s t : Bytes) → s ++ t ≡ [] → s ≡ []
      no_head [] t q = refl
      no_head (a ∷ s) t q = absurd cc

  -- For a directory that is spelled from plain elements.
  pub join-place :
      (r : Bool) → join (spell r (c ∷ cs) ∷ e ∷ f ∷ []) ≡ spell r (place (c ∷ cs) e ++ f ∷ [])
  unfolding clean spell split slashed has_prefix clean_all clean_step
  join-place true =
      join-clean (spell true (c ∷ cs)) (spell-not_empty true)
      ∙ ap (spell true) (clean_all-spell true)
  join-place false =
      join-clean (spell false (c ∷ cs)) (spell-not_empty false)
      ∙ clean-rooted ((c ++ slashed cs) ++ b'/' ∷ (e ++ b'/' ∷ f)) false (
          ap (λ s. has_prefix s (codes "/")) (append_assoc c (slashed cs) (b'/' ∷ (e ++ b'/' ∷ f)))
          ∙ relative_head c (slashed cs ++ b'/' ∷ (e ++ b'/' ∷ f)) h.0.0 h.0.3)
      ∙ ap (spell false) (clean_all-spell false)

-- A file's name with an extension of four bytes stands for itself.
pub append-IsPlain :
    (s : Bytes) (a b c d : ℕ)
    → Lacks b'/' s
    → Lacks b'/' (a ∷ b ∷ c ∷ d ∷ [])
    → IsPlain (s ++ a ∷ b ∷ c ∷ d ∷ [])
append-IsPlain [] a b c d h k = (λ q. absurd cc, λ q. absurd cc, λ q. absurd cc, k)
append-IsPlain (x ∷ []) a b c d h k = (λ q. absurd cc, λ q. absurd cc, λ q. absurd cc, (h.0, k))
append-IsPlain (x ∷ y ∷ s) a b c d (hx, (hy, h)) k = (
  λ q. absurd cc,
  λ q. absurd cc,
  λ q. not_dots x y s a b c d q,
  (hx, (hy, All-append (λ c. c ≢ b'/') s _ h k)),
)
  where
    not_dots : (x y : ℕ) (s : Bytes) (a b c d : ℕ) → x ∷ y ∷ s ++ a ∷ b ∷ c ∷ d ∷ [] ≢ dots
    not_dots x y [] a b c d q = absurd cc
    not_dots x y (z ∷ s) a b c d q = absurd cc
