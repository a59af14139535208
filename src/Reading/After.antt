-- ===== src/Reading/After.antt =====
-- Which entries of a collection a request after one of them selects.
use dkll.Base.{
  ℕ, zero, suc, ◌≡◌, inl, inr, refl, ap, subst, ◌∙◌, Bool, true, false, ◌&&◌, List, [], ◌∷◌, ◌++◌,
  map, take, keep, All, Bool-cases, if◌then◌else◌, Bytes, leb, ltb, length, arith,
}
use dkll.Core.{is_zero, Request}
use dkll.Server.Mongo.{Driver, IsDriver, MongoLogEntry}
use dkll.Server.Mongo.Query.{Bounds}
use dkll.Server.Mongo.Query.Meaning.{any_or_listed, unlisted, admits}
use dkll.Server.Mongo.Store.{Database}
use dkll.Server.Mongo.Store.Published.{get_bid-hex}
use dkll.Server.Mongo.Store.Selection.{keep-IsAscending, IsAscending, IsDatabase}
use dkll.Client.Pages.{asking}

module _ {ℓ κ} {A : Type ℓ} {B : Type κ} where
  pub take-map : (f : A → B) (n : ℕ) (xs : List A) → map f (take n xs) ≡ take n (map f xs)
  take-map f zero xs = refl
  take-map f (suc n) [] = refl
  take-map f (suc n) (x ∷ xs) = ap (λ t. f x ∷ t) (take-map f n xs)

  pub map-append : (f : A → B) (xs ys : List A) → map f (xs ++ ys) ≡ map f xs ++ map f ys
  map-append f [] ys = refl
  map-append f (x ∷ xs) ys = ap (λ t. f x ∷ t) (map-append f xs ys)

  pub map-map {μ} :
      {C : Type μ} (g : B → C) (f : A → B) (xs : List A) → map g (map f xs) ≡ map (λ x. g (f x)) xs
  map-map g f [] = refl
  map-map g f (x ∷ xs) = ap (λ t. g (f x) ∷ t) (map-map g f xs)

  pub All-map {μ} :
      (P : B → Type μ) (f : A → B) (xs : List A) → All (λ x. P (f x)) xs → All P (map f xs)
  All-map P f [] h = tt
  All-map P f (x ∷ xs) (h, hs) = (h, All-map P f xs hs)

  pub length-map : (f : A → B) (xs : List A) → length (map f xs) ≡ length xs
  length-map f [] = refl
  length-map f (x ∷ xs) = ap suc (length-map f xs)

  -- A list that is split after it was mapped was split before.
  pub map-split :
      (f : A → B) (ws : List A) (pre : List B) (e : B) (post : List B)
      → map f ws ≡ pre ++ e ∷ post
      → (before : List A) × (x : A) × (after : List A) × (ws ≡ before ++ x ∷ after)
        × (f x ≡ e)
        × (map f after ≡ post)
  map-split f [] [] e post h = absurd cc
  map-split f [] (p ∷ pre) e post h = absurd cc
  map-split f (w ∷ ws) [] e post h = ([], w, ws, refl, cc, cc)
  map-split f (w ∷ ws) (p ∷ pre) e post h =
      let (before, x, after, q, r, s) = map-split f ws pre e post cc in
      (w ∷ before, x, after, ap (λ t. w ∷ t) q, r, s)

keep-and {ℓ} :
    {A : Type ℓ} (p q : A → Bool) (xs : List A) → keep (λ x. p x && q x) xs ≡ keep p (keep q xs)
keep-and p q [] = refl
keep-and p q (x ∷ xs) = ground (arith, keep-and p q xs)

pub All-behind {ℓ κ} :
    {A : Type ℓ} (P : A → Type κ) (before : List A) (x : A) (after : List A)
    → All P (before ++ x ∷ after)
    → All P after
All-behind P [] x after (_, hs) = hs
All-behind P (b ∷ before) x after (_, hs) = All-behind P before x after hs

All-at {ℓ κ} :
    {A : Type ℓ} (P : A → Type κ) (before : List A) (x : A) (after : List A)
    → All P (before ++ x ∷ after)
    → P x
All-at P [] x after (h, _) = h
All-at P (b ∷ before) x after (_, hs) = All-at P before x after hs

pub keep-All {ℓ} :
    {A : Type ℓ} (p : A → Bool) (xs : List A) → All (λ x. p x ≡ true) xs → keep p xs ≡ xs
keep-All p [] h = refl
keep-All p (x ∷ xs) (h, hs) = rw (h, keep, keep-All p xs hs) refl

module _ (d : Driver) (match_regex : Bytes → Bytes → Bool) (bounds : Bounds) where
  -- What a request asks for, apart from the last entry that was seen.
  abbrev pub wanted : Request → MongoLogEntry d → Bool
  wanted r e =
      leb (if is_zero r.from_ts then bounds.year_2000 else r.from_ts) e.ts
      && (ltb e.ts (if is_zero r.to_ts then bounds.year_2100 else r.to_ts)
          && ((any_or_listed match_regex r.containers e.container
                && unlisted match_regex r.excludes e.container)
              && any_or_listed match_regex r.hosts e.host))

module _ (d : Driver) (laws : IsDriver d) where
  abbrev Entry : Type 0
  Entry = MongoLogEntry d

  not_after : (x y : Entry) → d.lt x.id y.id ≡ true → d.lt y.id x.id ≡ false
  not_after x y h = elim (Bool-cases (d.lt y.id x.id)) [
    | inl e ↦ absurd (cc (laws.lt-irrefl x.id, laws.lt-trans x.id y.id x.id h e))
    | inr e ↦ e
  ]

  -- Of an ascending list, the entries after one of them are those that follow it.
  keep-after :
      (before : List Entry) (x : Entry) (after : List Entry)
      → IsAscending d (before ++ x ∷ after)
      → keep (λ (y : Entry). d.lt x.id y.id) (before ++ x ∷ after) ≡ after
  keep-after [] x after (h, hs) =
      rw (laws.lt-irrefl x.id) (keep-All (λ (y : Entry). d.lt x.id y.id) after h)
  keep-after (b ∷ before) x after (h, hs) =
      rw (not_after b x (All-at (λ (y : Entry). d.lt b.id y.id ≡ true) before x after h))
        (keep-after before x after hs)

  module _ (match_regex : Bytes → Bytes → Bool) (db : Database d)
      (isdb : IsDatabase d match_regex db) (bounds : Bounds) where
    -- What it selects after an entry of the collection are the wanted entries that follow it.
    pub selected-after :
        (r : Request) (m : db.State) (before : List Entry) (x : Entry) (after : List Entry)
        → keep (wanted d match_regex bounds r) (isdb.rows m) ≡ before ++ x ∷ after
        → keep (admits d match_regex bounds (asking r (d.hex x.id))) (isdb.rows m) ≡ after
    unfolding admits
    selected-after r m before x after h =
        ap (λ i. keep (λ (e : Entry). d.lt i e.id && wanted d match_regex bounds r e) (isdb.rows m))
          (get_bid-hex d laws x.id)
        ∙ keep-and (λ (e : Entry). d.lt x.id e.id) (wanted d match_regex bounds r) (isdb.rows m)
        ∙ ap (keep (λ (e : Entry). d.lt x.id e.id)) h
        ∙ keep-after before x after (
            subst (IsAscending d) h (
              keep-IsAscending d laws db (wanted d match_regex bounds r) (isdb.rows m)
                (isdb.rows_ascend m)))
