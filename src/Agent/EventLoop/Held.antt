-- ===== src/Agent/EventLoop/Held.antt =====
-- How many streams of a container the map of the loop holds.
use dkll.Base.{
  zero_plus, ℕ, ◌+◌, ◌≡◌, inl, inr, refl, sym, ap, ◌∙◌, Bool, true, false, Option, none, some, List,
  [], ◌∷◌, if◌then◌else◌, Bytes, bytes_eq, bytes_eq_sound, Bool-cases,
}
use dkll.Agent.EventLoop.{stream_at, delete}

-- 1 for the same container, or else 0.
abbrev pub unit_if : Bool → ℕ
unit_if true = 1
unit_if false = 0

-- How many streams of a container a map has.
abbrev pub held {ℓ} : {V : Type ℓ} → Bytes → List (Bytes × V) → ℕ
held k [] = 0
held k ((j, v) ∷ m) = unit_if (bytes_eq j k) + held k m

-- A map has one stream of a container at most.
abbrev pub held_at {ℓ} : {V : Type ℓ} → Option V → ℕ
held_at none = 0
held_at (some v) = 1

bytes_eq_trans : (a b k : Bytes) → bytes_eq a b ≡ true → bytes_eq a k ≡ bytes_eq b k
bytes_eq_trans a b k h = rw (bytes_eq_sound a b h) refl

bytes_eq-right : (i a k : Bytes) → bytes_eq a k ≡ true → bytes_eq i k ≡ bytes_eq i a
bytes_eq-right i a k h = rw (bytes_eq_sound a k h) refl

-- A map holds a stream of a container exactly if it finds one.
abbrev pub Single {ℓ} : {V : Type ℓ} → List (Bytes × V) → Type 0
Single m = (k : Bytes) → held k m ≡ held_at (stream_at k m)

pub held-delete {ℓ} :
    {V : Type ℓ} (j k : Bytes) (m : List (Bytes × V))
    → held k (delete j m) ≡ (if bytes_eq j k then 0 else held k m)
unfolding delete
held-delete j k [] = elim (Bool-cases (bytes_eq j k)) [ inl e ↦ rw e refl | inr e ↦ rw e refl ]
held-delete j k ((i, v) ∷ m) =
    let ih = held-delete j k m in
    elim (Bool-cases (bytes_eq i j)) [
      | inl e ↦ elim (Bool-cases (bytes_eq j k)) [
        | inl f ↦ rw (e, held, f) (rw f at ih)
        | inr f ↦ rw (e, held, bytes_eq_trans i j k e, f) ((rw f at ih) ∙ sym zero_plus)
      ]
      | inr e ↦ elim (Bool-cases (bytes_eq j k)) [
        | inl f ↦ rw (e, held, bytes_eq-right i j k f, e, f) (zero_plus ∙ (rw f at ih))
        | inr f ↦ rw (e, held, f) (ap (λ n. unit_if (bytes_eq i k) + n) (rw f at ih))
      ]
    ]

pub stream_at-delete {ℓ} :
    {V : Type ℓ} (j k : Bytes) (m : List (Bytes × V))
    → stream_at k (delete j m) ≡ (if bytes_eq j k then none else stream_at k m)
unfolding delete stream_at
stream_at-delete j k [] = elim (Bool-cases (bytes_eq j k)) [ inl e ↦ rw e refl | inr e ↦ rw e refl ]
stream_at-delete j k ((i, v) ∷ m) =
    let ih = stream_at-delete j k m in
    elim (Bool-cases (bytes_eq i j)) [
      | inl e ↦ elim (Bool-cases (bytes_eq j k)) [
        | inl f ↦ rw (e, stream_at, f) (rw f at ih)
        | inr f ↦ rw (e, stream_at, bytes_eq_trans i j k e, f) (rw f at ih)
      ]
      | inr e ↦ elim (Bool-cases (bytes_eq j k)) [
        | inl f ↦ rw (e, stream_at, bytes_eq-right i j k f, e, f) (rw f at ih)
        | inr f ↦ rw (e, stream_at, f) (ap (λ n. if bytes_eq i k then some v else n) (rw f at ih))
      ]
    ]
