-- ===== src/Base/Strings.antt =====
-- Go strings as lists of bytes, and what the program uses of the package `strings`.
use Prim.Native.Char.{code}
use Prim.Native.String.{String}
use Prim.Native.Nat.{ℕ, zero, suc, ◌+◌, ◌-◌}
use mathlib.Core.Bool.{Bool, true, false, ◌&&◌, ◌||◌}
use mathlib.Core.Logic.{◌↔◌, ◌≢◌}
use mathlib.Core.Path.{◌≡◌, refl, ap}
use mathlib.Core.List.{List, [], ◌∷◌, ◌++◌, map, reverse, reverse-append}
use native.Mathlib.Omega.{arith}
use dkll.Base.Tests.{ltb, ◌==◌, if◌then◌else◌}
use dkll.Base.Lists.{length, take, drop, All, length-append}

abbrev pub Bytes : Type 0
Bytes = List ℕ

-- The code points of a literal: its bytes, if it is ASCII.
abbrev pub codes : String → Bytes
codes String.[] = []
codes (String.◌∷◌ c s) = code c ∷ codes s

-- `a == b` of strings.
abbrev pub bytes_eq : Bytes → Bytes → Bool
bytes_eq [] [] = true
bytes_eq (a ∷ s) (b ∷ t) = a == b && bytes_eq s t
bytes_eq [] (b ∷ t) = false
bytes_eq (a ∷ s) [] = false

-- `a < b` of strings: the first difference decides, and a prefix is less.
abbrev pub bytes_lt : Bytes → Bytes → Bool
bytes_lt s [] = false
bytes_lt [] (b ∷ t) = true
bytes_lt (a ∷ s) (b ∷ t) = ltb a b || (a == b && bytes_lt s t)

pub bytes_eq_refl : (s : Bytes) → bytes_eq s s ≡ true
bytes_eq_refl [] = refl
bytes_eq_refl (a ∷ s) = ground (arith, bytes_eq_refl s)

pub bytes_eq_sound : (s t : Bytes) → bytes_eq s t ≡ true → s ≡ t
bytes_eq_sound [] [] h = refl
bytes_eq_sound (a ∷ s) (b ∷ t) h = ground (arith, bytes_eq_sound s t)
bytes_eq_sound [] (b ∷ t) h = cc
bytes_eq_sound (a ∷ s) [] h = cc

pub bytes_eq_iff : (s t : Bytes) → (bytes_eq s t ≡ true) ↔ (s ≡ t)
bytes_eq_iff s t = (bytes_eq_sound s t, λ e. rw e (bytes_eq_refl t))

-- strings.HasPrefix(s, p)
unfoldable pub has_prefix : Bytes → Bytes → Bool
has_prefix s [] = true
has_prefix [] (b ∷ p) = false
has_prefix (a ∷ s) (b ∷ p) = a == b && has_prefix s p

-- strings.HasSuffix(s, p)
unfoldable pub has_suffix : Bytes → Bytes → Bool
unfolding has_prefix
has_suffix s p = has_prefix (reverse s) (reverse p)

-- strings.TrimSuffix(s, p)
unfoldable pub trim_suffix : Bytes → Bytes → Bytes
unfolding has_suffix
trim_suffix s p = if has_suffix s p then take (length s - length p) s else s

-- strings.TrimPrefix(s, p)
unfoldable pub trim_prefix : Bytes → Bytes → Bytes
unfolding has_prefix
trim_prefix s p = if has_prefix s p then drop (length p) s else s

-- strings.Contains(s, p)
unfoldable pub contains : Bytes → Bytes → Bool
unfolding has_prefix
contains [] p = has_prefix [] p
contains (a ∷ s) p = has_prefix (a ∷ s) p || contains s p

-- strings.Cut(s, sep) at a separator of one byte: what is before, what is after, and whether it is there.
unfoldable pub cut : Bytes → ℕ → Bytes × Bytes × Bool
cut [] sep = ([], [], false)
cut (c ∷ s) sep =
    let rest = cut s sep in if c == sep then ([], s, true) else (c ∷ rest.0, rest.1, rest.2)

-- Puts a byte before the first part.
abbrev pub push_head : ℕ → List Bytes → List Bytes
push_head c [] = (c ∷ []) ∷ []
push_head c (p ∷ ps) = (c ∷ p) ∷ ps

-- strings.Split(s, sep) at a separator of one byte.
unfoldable pub split : Bytes → ℕ → List Bytes
split [] sep = [] ∷ []
split (c ∷ s) sep = let rest = split s sep in if c == sep then [] ∷ rest else push_head c rest

add-sub : (n m : ℕ) → n + m - m ≡ n
add-sub n m = omega arith

-- The UTF-8 encodings of the white space of Unicode.
abbrev spaces : List Bytes
spaces =
    (9 ∷ [])
    ∷ (10 ∷ [])
    ∷ (11 ∷ [])
    ∷ (12 ∷ [])
    ∷ (13 ∷ [])
    ∷ (32 ∷ [])
    ∷ (0xc2 ∷ 0x85 ∷ [])
    ∷ (0xc2 ∷ 0xa0 ∷ [])
    ∷ (0xe1 ∷ 0x9a ∷ 0x80 ∷ [])
    ∷ (0xe2 ∷ 0x80 ∷ 0x80 ∷ [])
    ∷ (0xe2 ∷ 0x80 ∷ 0x81 ∷ [])
    ∷ (0xe2 ∷ 0x80 ∷ 0x82 ∷ [])
    ∷ (0xe2 ∷ 0x80 ∷ 0x83 ∷ [])
    ∷ (0xe2 ∷ 0x80 ∷ 0x84 ∷ [])
    ∷ (0xe2 ∷ 0x80 ∷ 0x85 ∷ [])
    ∷ (0xe2 ∷ 0x80 ∷ 0x86 ∷ [])
    ∷ (0xe2 ∷ 0x80 ∷ 0x87 ∷ [])
    ∷ (0xe2 ∷ 0x80 ∷ 0x88 ∷ [])
    ∷ (0xe2 ∷ 0x80 ∷ 0x89 ∷ [])
    ∷ (0xe2 ∷ 0x80 ∷ 0x8a ∷ [])
    ∷ (0xe2 ∷ 0x80 ∷ 0xa8 ∷ [])
    ∷ (0xe2 ∷ 0x80 ∷ 0xa9 ∷ [])
    ∷ (0xe2 ∷ 0x80 ∷ 0xaf ∷ [])
    ∷ (0xe2 ∷ 0x81 ∷ 0x9f ∷ [])
    ∷ (0xe3 ∷ 0x80 ∷ 0x80 ∷ [])
    ∷ []

-- The length of the first of the words that a text begins with; 0 if there is none.
prefix_width : List Bytes → Bytes → ℕ
unfolding has_prefix
prefix_width [] s = 0
prefix_width (w ∷ ws) s = if has_prefix s w then length w else prefix_width ws s

-- Takes such words off the front, as often as the fuel, which is the length of the text, allows.
strip : ℕ → List Bytes → Bytes → Bytes
unfolding prefix_width
strip zero ws s = s
strip (suc fuel) ws s =
    let n = prefix_width ws s in let rest = strip fuel ws (drop n s) in if n == 0 then s else rest

-- strings.TrimSpace(s)
unfoldable pub trim_space : Bytes → Bytes
unfolding strip
trim_space s =
    let t = strip (length s) spaces s in reverse (strip (length t) (map reverse spaces) (reverse t))

abbrev pub Lacks : ℕ → Bytes → Type 0
Lacks b = All (λ c. c ≢ b)

-- A text with no separator is cut at the first separator that follows it.
pub cut_at_sep : (s t : Bytes) (sep : ℕ) → Lacks sep s → cut (s ++ sep ∷ t) sep ≡ (s, t, true)
unfolding cut
cut_at_sep [] t sep _ = ground arith
cut_at_sep (c ∷ s) t sep (hc, hs) = ground (arith, cut_at_sep s t sep hs)

-- It is one part of a split, and a separator begins the next part.
pub split_at_sep :
    (s t : Bytes) (sep : ℕ) → Lacks sep s → split (s ++ sep ∷ t) sep ≡ s ∷ split t sep
unfolding split
split_at_sep [] t sep _ = ground arith
split_at_sep (c ∷ s) t sep (hc, hs) = ground (arith, split_at_sep s t sep hs)

pub split-Lacks : (s : Bytes) (sep : ℕ) → Lacks sep s → split s sep ≡ s ∷ []
unfolding split
split-Lacks [] sep _ = refl
split-Lacks (c ∷ s) sep (hc, hs) = ground (arith, split-Lacks s sep hs)

pub has_prefix-append : (p s : Bytes) → has_prefix (p ++ s) p ≡ true
unfolding has_prefix
has_prefix-append [] [] = refl
has_prefix-append [] (a ∷ s) = refl
has_prefix-append (a ∷ p) s = ground (arith, has_prefix-append p s)

take-append : (s p : Bytes) → take (length s) (s ++ p) ≡ s
take-append [] p = refl
take-append (a ∷ s) p = ap (λ t. a ∷ t) (take-append s p)

-- A suffix that is there is taken off.
pub trim_suffix-append : (s p : Bytes) → trim_suffix (s ++ p) p ≡ s
unfolding trim_suffix
trim_suffix-append s p =
    rw (reverse-append s p, has_prefix-append (reverse p) (reverse s), length-append s p)
      (rw (add-sub (length s) (length p)) (take-append s p))

trims : trim_space (codes " \ta b\n ") ≡ codes "a b"
unfolding trim_space
trims = refl

parts : split (codes "a//b") b'/' ≡ codes "a" ∷ [] ∷ codes "b" ∷ []
unfolding split
parts = refl
