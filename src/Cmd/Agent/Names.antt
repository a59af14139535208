-- ===== src/Cmd/Agent/Names.antt =====
-- The names of the files of a container, and when two of them are the same.
use dkll.Base.{
  ℕ, ◌≡◌, ◌≢◌, refl, ap, sym, ◌∙◌, false, [], ◌∷◌, ◌++◌, arith, if◌then◌else◌, Bytes, codes, cut,
  Lacks, All-append, cut_at_sep, append_assoc, reverse, trim_suffix, trim_suffix-append,
}
use mathlib.Core.List.{reverse-append}
use dkll.Cmd.Agent.{slash, log_dir, log_name, err_name}

-- Equal beginnings are cancelled.
cancel : (p s t : Bytes) → p ++ s ≡ p ++ t → s ≡ t
cancel [] s t h = h
cancel (a ∷ p) s t h = cancel p s t cc

-- What follows the location.
abbrev rest : Bytes → Bytes → Bytes
rest [] file = file
rest (g ∷ group) file = (g ∷ group) ++ b'/' ∷ file

name-rest :
    (location group file : Bytes)
    → log_dir location group ++ slash ++ file ≡ location ++ b'/' ∷ rest group file
unfolding log_dir
name-rest location [] file = append_assoc location slash file
name-rest location (g ∷ group) file = simp (append_assoc)

-- Reads the group and the file's name back.
abbrev read : Bytes → Bytes × Bytes
read s = let r = cut s b'/' in if r.2 then (r.0, r.1) else ([], s)

cut-Lacks_none : (s : Bytes) → Lacks b'/' s → (cut s b'/').2 ≡ false
unfolding cut
cut-Lacks_none [] h = refl
cut-Lacks_none (c ∷ s) (hc, hs) = ground (arith, cut-Lacks_none s hs)

read-rest :
    (group file : Bytes)
    → Lacks b'/' group
    → Lacks b'/' file
    → read (rest group file) ≡ (group, file)
read-rest [] file hg hf = rw (cut-Lacks_none file hf) refl
read-rest (g ∷ group) file hg hf = rw (cut_at_sep (g ∷ group) file b'/' hg) refl

module _ (location group group' container container' : Bytes) where
  same_names :
      (ext ext' : Bytes)
      → Lacks b'/' group
      → Lacks b'/' group'
      → Lacks b'/' (container ++ ext)
      → Lacks b'/' (container' ++ ext')
      → log_dir location group ++ slash ++ container ++ ext
        ≡ log_dir location group' ++ slash ++ container' ++ ext'
      → (group ≡ group') × (container ++ ext ≡ container' ++ ext')
  same_names ext ext' hg hg' hc hc' e =
      let path =
        sym (name-rest location group (container ++ ext))
        ∙ sym (append_assoc (log_dir location group ++ slash) container ext)
        ∙ e
        ∙ append_assoc (log_dir location group' ++ slash) container' ext'
        ∙ name-rest location group' (container' ++ ext') in
      let rests = cancel (location ++ slash) _ _ (
        append_assoc location slash (rest group (container ++ ext))
        ∙ path
        ∙ sym (append_assoc location slash (rest group' (container' ++ ext')))) in
      let parts =
        sym (read-rest group (container ++ ext) hg hc)
        ∙ ap read rests
        ∙ read-rest group' (container' ++ ext') hg' hc' in
      (ap (λ p. p.0) parts, ap (λ p. p.1) parts)

same_suffix : (s t ext : Bytes) → s ++ ext ≡ t ++ ext → s ≡ t
same_suffix s t ext e =
    sym (trim_suffix-append s ext) ∙ ap (λ r. trim_suffix r ext) e ∙ trim_suffix-append t ext

-- The last byte of a text; 0 if there is none.
abbrev last_byte : Bytes → ℕ
last_byte s = elim (reverse s) [ [] ↦ 0 | b ∷ bs ↦ b ]

suffixes_differ : (s t : Bytes) → s ++ codes ".log" ≢ t ++ codes ".err"
suffixes_differ s t e =
    let last : b'g' ≡ b'r' =
      sym (ap last_byte' (reverse-append s (codes ".log")))
      ∙ ap last_byte e
      ∙ ap last_byte' (reverse-append t (codes ".err")) in
    omega (arith, last)
  where
    last_byte' : Bytes → ℕ
    last_byte' [] = 0
    last_byte' (b ∷ bs) = b

-- If groups and containers have no `/` in their names: the files of the logs of two containers have the
-- same name only if the group and the container are the same, so have the files of the errors, and no
-- file of logs has the name of a file of errors.
pub log_name_unique :
    (location group group' container container' : Bytes)
    → Lacks b'/' group
    → Lacks b'/' group'
    → Lacks b'/' container
    → Lacks b'/' container'
    → (log_name location group container ≡ log_name location group' container'
        → (group ≡ group') × (container ≡ container'))
      × (err_name location group container ≡ err_name location group' container'
          → (group ≡ group') × (container ≡ container'))
      × (log_name location group container ≢ err_name location group' container')
unfolding log_name err_name
log_name_unique location group group' container container' hg hg' hc hc' =
    let lacks =
      λ (ext : Bytes) (h : Lacks b'/' ext). All-append (λ c. c ≢ b'/') container ext hc h in
    let lacks' =
      λ (ext : Bytes) (h : Lacks b'/' ext). All-append (λ c. c ≢ b'/') container' ext hc' h in
    let same = same_names location group group' container container' in
    (
      λ e.
          let r =
            same (codes ".log") (codes ".log") hg hg' (lacks _ log_lacks) (lacks' _ log_lacks) e in
          (r.0, same_suffix container container' (codes ".log") r.1),
      λ e.
          let r =
            same (codes ".err") (codes ".err") hg hg' (lacks _ err_lacks) (lacks' _ err_lacks) e in
          (r.0, same_suffix container container' (codes ".err") r.1),
      λ e.
          let r =
            same (codes ".log") (codes ".err") hg hg' (lacks _ log_lacks) (lacks' _ err_lacks) e in
          suffixes_differ container container' r.1,
    )
  where
    log_lacks : Lacks b'/' (codes ".log")
    log_lacks = (omega arith, (omega arith, (omega arith, (omega arith, tt))))

    err_lacks : Lacks b'/' (codes ".err")
    err_lacks = (omega arith, (omega arith, (omega arith, (omega arith, tt))))
