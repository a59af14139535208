-- ===== src/Agent/MultiWriter/Results.antt =====
-- What `Write` and `Close` of the multi-writer return, from the results of the single writers.
use dkll.Base.{
  zero_plus, Either-cases, ℕ, suc, ◌+◌, ◌≤◌, ◌<◌, Option-cases, Bool-cases, ◌≡◌, ◌↔◌, ◌⊎◌, inl, inr,
  refl, subst, ap, Bool, true, false, Option, none, some, List, [], ◌∷◌, ◌==◌, arith, if◌then◌else◌,
  Bytes, codes, length, ==_refl,
}
use dkll.Core.{Time}
use dkll.Errors.{Error, MultiError, IsMultiError}
use dkll.Agent.MultiWriter.{
  Writers, JMsg, wrap, MultiWriter, write_each, close_each, close_all, payload, write_result,
  write_all,
}

module _ (world : Writers) where
  open world use {State, Writer, write, close}

  -- The world and the result of each write, one after the other.
  abbrev pub each_write : List Writer → Bytes → State → State × List (Option Error)
  each_write [] p s = (s, [])
  each_write (w ∷ ws) p s =
      let r = write w p s in let rest = each_write ws p r.0 in (rest.0, r.1 ∷ rest.1)

  abbrev pub each_close : List Writer → State → State × List (Option Error)
  each_close [] s = (s, [])
  each_close (w ∷ ws) s =
      let r = close w s in let rest = each_close ws r.0 in (rest.0, r.1 ∷ rest.1)

-- The number of failures in a list of results.
abbrev failures : List (Option Error) → ℕ
failures [] = 0
failures (none ∷ rs) = failures rs
failures (some e ∷ rs) = suc (failures rs)

abbrev pub last_result : Option Error → List (Option Error) → Option Error
last_result d [] = d
last_result d (r ∷ rs) = last_result r rs

-- All writers failed, and there was one.
abbrev pub all_failed : List (Option Error) → Bool
all_failed [] = false
all_failed (none ∷ rs) = false
all_failed (some e ∷ []) = true
all_failed (some e ∷ r ∷ rs) = all_failed (r ∷ rs)

-- How the count of failures tells it.
failures_all :
    (rs : List (Option Error)) (d : Option Error)
    → all_failed rs ≡ true
    → (failures rs ≡ length rs) × ((e : Error) × (last_result d rs ≡ some e))
failures_all [] d h = absurd cc
failures_all (none ∷ rs) d h = absurd cc
failures_all (some e ∷ []) d h = (refl, (e, refl))
failures_all (some e ∷ r ∷ rs) d h =
    let (n, (e', l)) = failures_all (r ∷ rs) (some e) h in (ap suc n, (e', l))

failures_bound : (rs : List (Option Error)) → failures rs ≤ length rs
failures_bound [] = omega arith
failures_bound (none ∷ rs) = omega (arith, failures_bound rs)
failures_bound (some e ∷ rs) = omega (arith, failures_bound rs)

failures_some :
    (r : Option Error) (rs : List (Option Error))
    → all_failed (r ∷ rs) ≡ false
    → failures (r ∷ rs) < length (r ∷ rs)
failures_some none rs h = omega (arith, failures_bound rs)
failures_some (some e) [] h = absurd cc
failures_some (some e) (r ∷ rs) h = omega (arith, failures_some r rs h)

lt_not_eq : {a b : ℕ} → a < b → (a == b) ≡ false
lt_not_eq h = ground arith

ite_same {ℓ} : {A : Type ℓ} (b : Bool) (x : A) → (if b then x else x) ≡ x
ite_same true x = refl
ite_same false x = refl

module _ (world : Writers) where
  open world use {State, Writer, write, close}

  write_each-writes :
      (ws : List Writer) (p : Bytes) (n : ℕ) (d : Option Error) (s : State)
      → write_each world ws p n d s ≡ (
        (each_write world ws p s).0,
        (n + failures (each_write world ws p s).1, last_result d (each_write world ws p s).1),
      )
  unfolding write_each
  write_each-writes [] p n d s = ap (λ k. (s, (k, d))) (omega arith)
  write_each-writes (w ∷ ws) p n d s = elim (Option-cases (write w p s).1) [
    | inl e ↦ rw (e, write_each-writes ws p n none (write w p s).0) refl
    | inr (x, e) ↦
        rw (e, write_each-writes ws p (suc n) (some x) (write w p s).0)
          (ap
            (λ k. (
              (each_write world ws p (write w p s).0).0,
              (k, last_result (some x) (each_write world ws p (write w p s).0).1),
            ))
            (omega arith))
  ]

  length-writes :
      (ws : List Writer) (p : Bytes) (s : State) → length (each_write world ws p s).1 ≡ length ws
  length-writes [] p s = refl
  length-writes (w ∷ ws) p s = ap suc (length-writes ws p (write w p s).0)

  write_result-all_failed :
      (w : MultiWriter world) (p : Bytes) (rs : List (Option Error))
      → length rs ≡ length w.writers
      → write_result world w p (failures rs, last_result none rs)
        ≡ (length p, if all_failed rs then some (codes "all writers failed") else none)
  unfolding write_result wrap
  write_result-all_failed w p [] h = ite_same _ _
  write_result-all_failed w p (r ∷ rs) h = elim (Bool-cases (all_failed (r ∷ rs))) [
    | inl a ↦ let (n, (e, l)) = failures_all (r ∷ rs) none a in rw (l, n, ← h, ==_refl, a) refl
    | inr a ↦ rw (← h, lt_not_eq (failures_some r rs a), a) refl
  ]

  payload-cases :
      (marshal : JMsg → Bytes ⊎ Error) (w : MultiWriter world) (now : Time) (p : Bytes)
      → ((pp : Bytes) × (payload world marshal w now p ≡ inl pp))
        ⊎ ((e : Error) × (payload world marshal w now p ≡ inr e))
  payload-cases marshal w now p = Either-cases (payload world marshal w now p)

  -- In either mode, once there is a payload: every destination is written it, one after the other, and
  -- the result is the length of the message, with an error exactly if there are destinations and every
  -- write failed. Without a payload nothing is written, and the result is 0 with an error.
  pub write_all-all_failed :
      (marshal : JMsg → Bytes ⊎ Error) (w : MultiWriter world) (now : Time) (p : Bytes) (s : State)
      → ((pp : Bytes) × (payload world marshal w now p ≡ inl pp)
          × (write_all world marshal w now p s ≡ (
            (each_write world w.writers pp s).0,
            (
              length p,
              if all_failed (each_write world w.writers pp s).1
                  then some (codes "all writers failed")
                  else none,
            ),
          )))
        ⊎ ((e : Error) × (payload world marshal w now p ≡ inr e)
            × (write_all world marshal w now p s
                ≡ (s, (0, some (codes "can't convert message to json")))))
  unfolding write_all
  write_all-all_failed marshal w now p s = elim (payload-cases marshal w now p) [
    | inl (pp, e) ↦ inl (
      pp,
      e,
      rw (e, write_all, write_each-writes w.writers pp 0 none s, zero_plus)
          (ap (λ r. ((each_write world w.writers pp s).0, r))
            (write_result-all_failed w p _ (length-writes w.writers pp s))),
    )
    | inr (x, e) ↦ inr (x, e, rw (e, write_all) refl)
  ]

  close_each-closes :
      (m : MultiError) (laws : IsMultiError m) (ws : List Writer) (d : Option Error) (s : State)
      → close_each world m ws (m.append m.empty d) s
        ≡ ((each_close world ws s).0, m.append m.empty (last_result d (each_close world ws s).1))
  unfolding close_each
  close_each-closes m laws [] d s = refl
  close_each-closes m laws (w ∷ ws) d s = close_each-closes m laws ws (close w s).1 (close w s).0

  close_each-each_close :
      (m : MultiError) (ws : List Writer) (es : m.Errors) (s : State)
      → (close_each world m ws es s).0 ≡ (each_close world ws s).0
  unfolding close_each
  close_each-each_close m [] es s = refl
  close_each-each_close m (w ∷ ws) es s =
      close_each-each_close m ws (m.append m.empty (close w s).1) (close w s).0

  pub close_all-each_close :
      (m : MultiError) (w : MultiWriter world) (s : State)
      → (close_all world m w s).0 ≡ (each_close world w.writers s).0
  unfolding close_all
  close_all-each_close m w s = close_each-each_close m w.writers m.empty s

  one_error-none :
      (m : MultiError) (laws : IsMultiError m) (d : Option Error)
      → (m.error_or_nil (m.append m.empty d) ≡ none) ↔ (d ≡ none)
  one_error-none m laws none = (λ _. refl, λ _. rw (laws.skips) laws.nil_of_empty)
  one_error-none m laws (some e) = (λ h. absurd (laws.error_of_append m.empty e h), λ h. absurd cc)

  -- Every destination is closed, one after the other, and the result of `Close` is nil exactly if the
  -- last one closed without an error: the errors of those before it are dropped.
  pub close_all-last :
      (m : MultiError) (laws : IsMultiError m) (w : MultiWriter world) (s : State)
      → ((close_all world m w s).0 ≡ (each_close world w.writers s).0)
        × (((close_all world m w s).1 ≡ none)
            ↔ (last_result none (each_close world w.writers s).1 ≡ none))
  unfolding close_all
  close_all-last m laws w s =
      let all = close_each-closes m laws w.writers none s in
      let start = laws.skips m.empty in
      subst
        (λ es.
          ((close_each world m w.writers es s).0 ≡ (each_close world w.writers s).0)
          × ((m.error_or_nil (close_each world m w.writers es s).1 ≡ none)
              ↔ (last_result none (each_close world w.writers s).1 ≡ none)))
        start (rw all (refl, one_error-none m laws _))
