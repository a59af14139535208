-- ===== src/Cmd/Server/Names.antt =====
-- Where the backup files of hosts and containers stand.
use dkll.Base.{
  ◌≡◌, refl, ap, sym, ◌∙◌, Bool, true, false, List, [], ◌∷◌, ◌++◌, arith, Bytes, codes, All, Lacks,
  split, split_at_sep, split-Lacks, trim_suffix, trim_suffix-append, append_assoc, append-nil,
}
use dkll.Base.FilePath.{slashed, spell}
use dkll.Base.FilePath.Joined.{IsPlain, place, join-place, append-IsPlain, not_bytes_eq}
use dkll.Cmd.Server.{file_name}

log_file : (container : Bytes) → Lacks b'/' container → IsPlain (container ++ codes ".log")
log_file container h =
    append-IsPlain container b'.' b'l' b'o' b'g' h
      (omega arith, (omega arith, (omega arith, (omega arith, tt))))

-- For a location that is spelled from plain elements, rooted or not, and a host and a container with no
-- `/`: the file is in the directory of the host in the location, and it has the name of the container
-- with `.log`; an empty host and `.` stand for the location itself, and `..` for its parent.
pub file_name-place :
    (rooted : Bool) (c : Bytes) (cs : List Bytes) (host container : Bytes)
    → All IsPlain (c ∷ cs)
    → Lacks b'/' host
    → Lacks b'/' container
    → file_name (spell rooted (c ∷ cs)) host container
      ≡ spell rooted (place (c ∷ cs) host ++ (container ++ codes ".log") ∷ [])
unfolding file_name
file_name-place rooted c cs host container h hh hc =
    join-place c cs h host (container ++ codes ".log") hh (log_file container hc) rooted

place-IsPlain : (cs : List Bytes) (e : Bytes) → IsPlain e → place cs e ≡ cs ++ e ∷ []
unfolding place
place-IsPlain cs e (n, d, dd, _) =
    rw (not_bytes_eq e [] n, not_bytes_eq e (codes ".") d, not_bytes_eq e (codes "..") dd) refl

-- The elements of a path are read back.
split-slashed_end :
    (c : Bytes) (cs : List Bytes) → All IsPlain (c ∷ cs) → split (c ++ slashed cs) b'/' ≡ c ∷ cs
unfolding slashed
split-slashed_end c [] (h, _) = ap (λ s. split s b'/') (append-nil c) ∙ split-Lacks c b'/' h.3
split-slashed_end c (d ∷ cs) (h, hs) =
    split_at_sep c (d ++ slashed cs) b'/' h.3 ∙ ap (λ t. c ∷ t) (split-slashed_end d cs hs)

abbrev tail : List Bytes → List Bytes
tail [] = []
tail (x ∷ xs) = xs

spell_unique :
    (rooted : Bool) (c d : Bytes) (cs ds : List Bytes)
    → All IsPlain (c ∷ cs)
    → All IsPlain (d ∷ ds)
    → spell rooted (c ∷ cs) ≡ spell rooted (d ∷ ds)
    → c ∷ cs ≡ d ∷ ds
unfolding spell slashed split
spell_unique true c d cs ds h k e =
    sym (split-slashed_end c cs h) ∙ ap (λ s. tail (split s b'/')) e ∙ split-slashed_end d ds k
spell_unique false c d cs ds h k e =
    sym (split-slashed_end c cs h) ∙ ap (λ s. split s b'/') e ∙ split-slashed_end d ds k

cancel_front :
    (cs : List Bytes) (a b a' b' : Bytes)
    → cs ++ a ∷ b ∷ [] ≡ cs ++ a' ∷ b' ∷ []
    → (a ≡ a') × (b ≡ b')
cancel_front [] a b a' b' e = (cc, cc)
cancel_front (c ∷ cs) a b a' b' e = cancel_front cs a b a' b' (ap tail e)

All-snoc :
    (cs : List Bytes) (a b : Bytes)
    → All IsPlain cs
    → IsPlain a
    → IsPlain b
    → All IsPlain (cs ++ a ∷ b ∷ [])
All-snoc [] a b _ ha hb = (ha, (hb, tt))
All-snoc (c ∷ cs) a b (h, hs) ha hb = (h, All-snoc cs a b hs ha hb)

-- For a location that is spelled from plain elements, rooted or not, two hosts that are plain names, so
-- neither empty nor `.` or `..` and with no `/`, and two containers with no `/`: the files of the two
-- pairs of a host and a container are the same only if the pairs are.
pub file_name_unique :
    (rooted : Bool) (c : Bytes) (cs : List Bytes) (host host' container container' : Bytes)
    → All IsPlain (c ∷ cs)
    → IsPlain host
    → IsPlain host'
    → Lacks b'/' container
    → Lacks b'/' container'
    → file_name (spell rooted (c ∷ cs)) host container
      ≡ file_name (spell rooted (c ∷ cs)) host' container'
    → (host ≡ host') × (container ≡ container')
file_name_unique rooted c cs host host' container container' h hh hh' hc hc' e =
    let elements = λ (s t : Bytes) (p : IsPlain s) (q : Lacks b'/' t).
      file_name-place rooted c cs s t h p.3 q
      ∙ ap (λ l. spell rooted (l ++ (t ++ codes ".log") ∷ [])) (place-IsPlain (c ∷ cs) s p)
      ∙ ap (spell rooted) (append_assoc (c ∷ cs) (s ∷ []) ((t ++ codes ".log") ∷ [])) in
    let all = λ (s t : Bytes) (p : IsPlain s) (q : Lacks b'/' t).
      All-snoc (c ∷ cs) s (t ++ codes ".log") h p (log_file t q) in
    let same =
      spell_unique rooted c c _ _ (all host container hh hc) (all host' container' hh' hc')
        (sym (elements host container hh hc) ∙ e ∙ elements host' container' hh' hc') in
    let (eh, ek) = cancel_front (c ∷ cs) host _ host' _ same in
    (
      eh,
      sym (trim_suffix-append container (codes ".log"))
          ∙ ap (λ s. trim_suffix s (codes ".log")) ek
          ∙ trim_suffix-append container' (codes ".log"),
    )
