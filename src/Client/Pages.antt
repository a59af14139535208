-- ===== src/Client/Pages.antt =====
-- The pages of a server put together: what the client prints of the entries after a given one.
use dkll.Base.{
  ℕ, zero, suc, ◌≤◌, ◌<◌, ◌≡◌, inl, inr, refl, sym, ap, ap₂, subst, ◌∙◌, true, false, Bool,
  Bool-cases, if◌then◌else◌, List, [], ◌∷◌, ◌++◌, append_assoc, if_true, take, drop,
  take-append-drop, last_or, length, arith, Bytes,
}
use dkll.Core.{LogEntry, Request}
use dkll.Client.{
  DisplayParams, Terminal, Ending, returned, running, out, out_all, Run, after, wait_next, turn,
  activate_loop, start_tail, activate,
}

-- The identifier of the last entry, or the one before it.
abbrev pub final_id : Bytes → List LogEntry → Bytes
final_id i [] = i
final_id i (e ∷ es) = final_id e.id es

final_id-append :
    (i : Bytes) (xs ys : List LogEntry) → final_id i (xs ++ ys) ≡ final_id (final_id i xs) ys
final_id-append i [] ys = refl
final_id-append i (x ∷ xs) ys = final_id-append x.id xs ys

final_id-last : (x : LogEntry) (xs : List LogEntry) → final_id x.id xs ≡ (last_or x xs).id
final_id-last x [] = refl
final_id-last x (y ∷ xs) = final_id-last y xs

-- A list is what comes before its last element, and that element.
init_of : LogEntry → List LogEntry → List LogEntry
init_of x [] = []
init_of x (y ∷ ys) = x ∷ init_of y ys

init_of-last : (x : LogEntry) (xs : List LogEntry) → init_of x xs ++ last_or x xs ∷ [] ≡ x ∷ xs
unfolding init_of
init_of-last x [] = refl
init_of-last x (y ∷ ys) = ap (λ t. x ∷ t) (init_of-last y ys)

length-drop {ℓ} : {A : Type ℓ} (n : ℕ) (xs : List A) → length (drop n xs) ≤ length xs
length-drop zero xs = omega arith
length-drop (suc n) [] = omega arith
length-drop (suc n) (x ∷ xs) = omega (arith, length-drop n xs)

-- The entries before the last one of a page, that one, and those after the page.
split_page :
    (all : List LogEntry) (n : ℕ) (pre : List LogEntry) (e x : LogEntry) (xs : List LogEntry)
    → all ≡ pre ++ e ∷ x ∷ xs
    → all ≡ (pre ++ e ∷ init_of x (take n xs)) ++ last_or x (take n xs) ∷ drop n xs
split_page all n pre e x xs h =
    let init = init_of x (take n xs) in
    let last = last_or x (take n xs) in
    h
    ∙ ap (λ l. pre ++ e ∷ l)
        (sym (take-append-drop (suc n) (x ∷ xs))
          ∙ (ap (λ l. l ++ drop n xs) (sym (init_of-last x (take n xs)))
              ∙ append_assoc init (last ∷ []) (drop n xs)))
    ∙ sym (append_assoc pre (e ∷ init) (last ∷ drop n xs))

-- A request after an entry.
abbrev pub asking : Request → Bytes → Request
asking base i = record base { last_id = i }

module _ (env : Terminal) (c : DisplayParams) where
  open env use {World, post_find, is_cancelled}

  -- A server that has these entries, and answers such a request by a page of what follows the entry, and
  -- a client that is not interrupted.
  pub record IsPaged (base : Request) (all : List LogEntry) (n : ℕ) : Type 0 where
    pub pages :
        (w : World) (pre : List LogEntry) (e : LogEntry) (post : List LogEntry)
        → all ≡ pre ++ e ∷ post
        → post_find (asking base e.id) w ≡ (w, inl (take (suc n) post))
    pub not_cancelled : (w : World) → is_cancelled w ≡ (w, false)

  out_all-append :
      (xs ys : List LogEntry) → out_all env c (xs ++ ys) ≡ out_all env c xs ++ out_all env c ys
  unfolding out_all
  out_all-append [] ys = refl
  out_all-append (x ∷ xs) ys =
      ap (λ t. out env c x ++ t) (out_all-append xs ys) ∙ sym (append_assoc (out env c x) _ _)

  -- The run that prints the entries after the one with this identifier, and ends so.
  abbrev pub shown : Ending → Request → Bytes → World → List LogEntry → Run env c
  shown end base i w post = record {
    world = w;
    printed = out_all env c post;
    request = asking base (final_id i post);
    ending = end;
  }

  module _ (base : Request) (all : List LogEntry) (n : ℕ) (paged : IsPaged base all n) where
    wait_next-on :
        (next : Request) (w : World) (k : Request → World → Run env c)
        → wait_next env c next (is_cancelled w) k ≡ k next w
    unfolding wait_next
    wait_next-on next w k = rw (paged.not_cancelled w) refl

    turn-page :
        (end : Ending) (i : Bytes) (w : World) (x : LogEntry) (xs rest : List LogEntry)
        (k : Request → World → Run env c)
        → k (asking base (last_or x xs).id) w ≡ shown end base (last_or x xs).id w rest
        → turn env c (asking base i) (w, inl (x ∷ xs)) k ≡ shown end base i w ((x ∷ xs) ++ rest)
    unfolding turn out_all after
    turn-page end i w x xs rest k h =
        ap (after env c (out_all env c (x ∷ xs)))
          (wait_next-on (asking base (last_or x xs).id) w k ∙ h)
        ∙ ap₂ (λ p j. record { world = w; printed = p; request = asking base j; ending = end })
            (sym (out_all-append (x ∷ xs) rest))
            (ap (λ j. final_id j rest) (sym (final_id-last x xs))
              ∙ sym (final_id-append x.id xs rest))

    -- If the client stands so after its turns without entries, it prints the entries and stands so.
    loop-shown :
        (end : Ending)
        → ((t : ℕ) (i : Bytes) (w : World)
            → post_find (asking base i) w ≡ (w, inl [])
            → activate_loop env c (suc t) (asking base i) w ≡ shown end base i w [])
        → (turns : ℕ) (w : World) (pre : List LogEntry) (e : LogEntry) (post : List LogEntry)
        → all ≡ pre ++ e ∷ post
        → length post < turns
        → activate_loop env c turns (asking base e.id) w ≡ shown end base e.id w post
    unfolding activate_loop
    loop-shown end idle zero w pre e post h b = absurd (omega (arith, b))
    loop-shown end idle (suc t) w pre e [] h b = idle t e.id w (paged.pages w pre e [] h)
    loop-shown end idle (suc t) w pre e (x ∷ xs) h b = rw (paged.pages w pre e (x ∷ xs) h) (
        subst
          (λ ys.
            turn env c (asking base e.id) (w, inl (x ∷ take n xs))
              (λ r v. activate_loop env c t r v)
            ≡ shown end base e.id w ys)
          (take-append-drop (suc n) (x ∷ xs))
          (turn-page end e.id w x (take n xs) (drop n xs) _ (
            loop-shown end idle t w (pre ++ e ∷ init_of x (take n xs)) (last_or x (take n xs))
              (drop n xs) (split_page all n pre e x xs h) (omega (arith, b, length-drop n xs)))))

    follow-idle :
        (i : Bytes) (w : World)
        → c.follow_mode ≡ true
        → post_find (asking base i) w ≡ (w, inl [])
        → (t : ℕ) → activate_loop env c t (asking base i) w ≡ shown running base i w []
    unfolding activate_loop turn out_all after
    follow-idle i w follow f zero = refl
    follow-idle i w follow f (suc t) =
        rw (f, follow)
          (ap (after env c []) (wait_next-on (asking base i) w _ ∙ follow-idle i w follow f t))

    ending-idle :
        (t : ℕ) (i : Bytes) (w : World)
        → post_find (asking base i) w ≡ (w, inl [])
        → activate_loop env c (suc t) (asking base i) w
          ≡ shown (if c.follow_mode then running else returned) base i w []
    unfolding activate_loop turn out_all
    ending-idle t i w f = elim (Bool-cases c.follow_mode) [
      | inl e ↦ rw e (follow-idle i w e f (suc t))
      | inr e ↦ rw (f, e) refl
    ]

    -- A client asking from one of the server's entries on, at a server that gets no more entries, with
    -- more turns than there are entries after that one: whatever the size of the pages, it prints what it
    -- shows of each of them, once and in the server's order, and its request goes on after the last of
    -- them. If it follows it still runs, and otherwise it has returned.
    pub activate_loop-shown :
        (turns : ℕ) (w : World) (pre : List LogEntry) (e : LogEntry) (post : List LogEntry)
        → all ≡ pre ++ e ∷ post
        → length post < turns
        → activate_loop env c turns (asking base e.id) w
          ≡ shown (if c.follow_mode then running else returned) base e.id w post
    activate_loop-shown = loop-shown (if c.follow_mode then running else returned) ending-idle

  module _ (base : Request) (all : List LogEntry) (n : ℕ) (paged : IsPaged base all n)
      (follow : c.follow_mode ≡ false) where
    -- The run that prints the entries and ends.
    abbrev pub printing : Bytes → World → List LogEntry → Run env c
    printing i w post = shown returned base i w post

    -- A client that does not follow, asking from one of the server's entries on, with turns enough for
    -- one entry each: it prints what it shows of each entry after that one, once and in the server's
    -- order, whatever the size of the pages, and returns a request that goes on after the last of them.
    pub activate_loop-pages :
        (turns : ℕ) (w : World) (pre : List LogEntry) (e : LogEntry) (post : List LogEntry)
        → all ≡ pre ++ e ∷ post
        → length post < turns
        → activate_loop env c turns (asking base e.id) w ≡ printing e.id w post
    activate_loop-pages turns w pre e post h b =
        activate_loop-shown base all n paged turns w pre e post h b
        ∙ ap (λ (b : Bool). shown (if b then running else returned) base e.id w post) follow

    -- In tail mode the client asks for the last entry first: it prints what came after that one, and
    -- nothing of what came before.
    pub activate-tail :
        (turns : ℕ) (w : World) (pre : List LogEntry) (e : LogEntry) (post : List LogEntry)
        → c.tail_mode ≡ true
        → env.get_last w ≡ (w, inl e)
        → all ≡ pre ++ e ∷ post
        → length post < turns
        → activate env c turns base w ≡ printing e.id w post
    unfolding activate start_tail
    activate-tail turns w pre e post t g h b =
        if_true c.tail_mode _ _ t
        ∙ ap (start_tail env c turns base) g
        ∙ activate_loop-pages turns w pre e post h b
