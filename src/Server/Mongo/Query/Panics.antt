-- ===== src/Server/Mongo/Query/Panics.antt =====
-- When `makeQuery` panics.
use dkll.Base.{
  ◌≡◌, refl, Bool, true, false, ◌||◌, Option, none, some, List, [], ◌∷◌, arith, Bytes, codes,
  bytes_eq, Option-cases, inl, inr,
}
use dkll.Core.{Request}
use dkll.Server.Mongo.{Driver}
use dkll.Server.Mongo.Query.{
  convert_one, convert_list, Choice, Bounds, among_of, exclude, make_query,
}

abbrev pub is_none {ℓ} : {A : Type ℓ} → Option A → Bool
is_none none = true
is_none (some _) = false

abbrev pub slash : Bytes
slash = codes "/"

-- The text `/` is in a list.
abbrev pub has_slash : List Bytes → Bool
has_slash [] = false
has_slash (t ∷ ts) = bytes_eq t slash || has_slash ts

convert_one-slash : (t : Bytes) → is_none (convert_one t) ≡ bytes_eq t slash
unfolding convert_one
convert_one-slash [] = refl
convert_one-slash (a ∷ []) = ground arith
convert_one-slash (a ∷ b ∷ s) = ground arith

convert_list-slash : (ts : List Bytes) → is_none (convert_list ts) ≡ has_slash ts
unfolding convert_list
convert_list-slash [] = refl
convert_list-slash (t ∷ ts) = ground (arith, convert_one-slash t, convert_list-slash ts)

module _ (d : Driver) where
  among_of-slash : (ts : List Bytes) → is_none (among_of d ts) ≡ has_slash ts
  unfolding among_of
  among_of-slash [] = refl
  among_of-slash (t ∷ ts) = ground (arith, convert_list-slash (t ∷ ts))

  exclude-slash : (ts : List Bytes) (c : Option Choice) → is_none (exclude d ts c) ≡ has_slash ts
  unfolding exclude
  exclude-slash [] c = refl
  exclude-slash (t ∷ ts) none = ground (arith, convert_list-slash (t ∷ ts))
  exclude-slash (t ∷ ts) (some c) = ground (arith, convert_list-slash (t ∷ ts))

  -- `makeQuery` panics exactly if the text `/` is among the containers, the hosts or the excludes of
  -- the request.
  pub make_query-slash :
      (bounds : Bounds) (r : Request)
      → is_none (make_query d bounds r)
        ≡ (has_slash r.containers || (has_slash r.hosts || has_slash r.excludes))
  unfolding make_query
  make_query-slash bounds r = elim (Option-cases (among_of d r.containers)) [
    | inl e ↦ ground (arith, among_of-slash r.containers)
    | inr (cs, e) ↦
        ground
          (arith, among_of-slash r.containers, among_of-slash r.hosts, exclude-slash r.excludes cs)
  ]
