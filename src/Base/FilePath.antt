-- ===== src/Base/FilePath.antt =====
-- What the program uses of the package `path`.
pub mod Joined
use Prim.Native.Nat.{ℕ, zero, suc}
use mathlib.Core.Bool.{Bool, true, false, not, ◌&&◌, ◌||◌}
use mathlib.Core.Logic.{◌≢◌, ◌⊎◌, inl, inr}
use mathlib.Core.Path.{◌≡◌, refl, ap, ◌∙◌, sym}
use mathlib.Core.List.{List, [], ◌∷◌, ◌++◌, reverse, append_assoc}
use native.Mathlib.Omega.{arith}
use dkll.Base.Tests.{◌==◌, Bool-cases, if◌then◌else◌}
use dkll.Base.Lists.{length, take, drop, All, concat}
use dkll.Base.Strings.{Bytes, codes, bytes_eq, Lacks, split, has_prefix, split_at_sep, split-Lacks}

abbrev dot : Bytes
dot = codes "."

abbrev dots : Bytes
dots = codes ".."

-- An element `..`: it takes the element before it off, if there is one that is not `..` itself; a rooted
-- path keeps none in front.
pub up : Bool → List Bytes → List Bytes
up rooted [] = if rooted then [] else dots ∷ []
up rooted (e ∷ es) = if bytes_eq e dots then dots ∷ e ∷ es else es

-- The next element of a path, behind those so far, the last one first.
pub clean_step : Bool → List Bytes → Bytes → List Bytes
unfolding up
clean_step rooted es e =
    if bytes_eq e [] || bytes_eq e dot
    then es
    else (if bytes_eq e dots then up rooted es else e ∷ es)

pub clean_all : Bool → List Bytes → List Bytes → List Bytes
unfolding clean_step
clean_all rooted es [] = es
clean_all rooted es (p ∷ ps) = clean_all rooted (clean_step rooted es p) ps

-- Each element with a `/` in front.
unfoldable pub slashed : List Bytes → Bytes
slashed [] = []
slashed (e ∷ es) = b'/' ∷ (e ++ slashed es)

-- The text of a path.
unfoldable pub spell : Bool → List Bytes → Bytes
unfolding slashed
spell true [] = codes "/"
spell true (e ∷ es) = slashed (e ∷ es)
spell false [] = dot
spell false (e ∷ es) = e ++ slashed es

-- path.Clean(s)
unfoldable pub clean : Bytes → Bytes
unfolding spell clean_all
clean s =
    let rooted = has_prefix s (codes "/") in
    spell rooted (reverse (clean_all rooted [] (split s b'/')))

-- The elements that are not empty up to the first, joined by `/`.
pub joined : Bytes → List Bytes → Bytes
joined buf [] = buf
joined buf (e ∷ es) = joined (if bytes_eq buf [] then e else buf ++ b'/' ∷ e) es

-- path.Join(elem...)
unfoldable pub join : List Bytes → Bytes
unfolding joined clean
join es = let buf = joined [] es in if bytes_eq buf [] then [] else clean buf

-- The text up to and with the last `/`: what `path.Split` gives first.
pub dir_part : Bytes → Bytes
dir_part [] = []
dir_part (c ∷ s) =
    let rest = dir_part s in if c == b'/' || not (bytes_eq rest []) then c ∷ rest else []

-- path.Dir(s)
unfoldable pub dir : Bytes → Bytes
unfolding dir_part clean
dir s = clean (dir_part s)

joins : join (codes "/a/b" ∷ codes "../c" ∷ codes "x.log" ∷ []) ≡ codes "/a/c/x.log"
unfolding join has_prefix split
joins = refl

joins_relative : join (codes "a" ∷ codes "../../c" ∷ codes "x.log" ∷ []) ≡ codes "../c/x.log"
unfolding join has_prefix split
joins_relative = refl

dir_of : dir (codes "/a/b/x.log") ≡ codes "/a/b"
unfolding dir has_prefix split
dir_of = refl

dir_root : dir (codes "x.log") ≡ codes "."
unfolding dir has_prefix split
dir_root = refl
