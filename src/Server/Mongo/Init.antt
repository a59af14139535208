-- ===== src/Server/Mongo/Init.antt =====
-- app/server/mongo.go: what `NewMongo` prepares before the store is used.
use dkll.Base.{
  ◌≡◌, ◌↔◌, ◌⊎◌, inl, inr, refl, Bool, true, not, Option, none, some, if◌then◌else◌, codes,
  contains, Bool-cases,
}
use dkll.Errors.{Error}
use dkll.Server.Mongo.{MongoParams, with_defaults}

-- The calls of mongo's driver: a capped collection is created with the size and the number of documents
-- of the parameters, and its indexes are.
pub record Collections : Type 1 where
  pub World : Type 0
  pub Client : Type 0
  pub create_collection : Client → MongoParams → World → World × Option Error
  pub create_indexes : Client → MongoParams → World → World × Option Error

module _ (db : Collections) where
  open db use {World, Client, create_collection, create_indexes}

  -- `Mongo` of mongo.go, when it is made.
  pub record NewMongo : Type 0 where
    pub client : Client
    pub params : MongoParams

  pub indexed : World × Option Error → World × Option Error
  indexed (w, none) = (w, none)
  indexed (w, some e) = (w, some (codes "create indexes"))

  -- An error of the creation, other than that the collection is there, ends `init`.
  pub created : Client → MongoParams → World × Option Error → World × Option Error
  unfolding indexed
  created c p (w, none) = indexed (create_indexes c p w)
  created c p (w, some e) =
      if not (contains e (codes "already exists"))
      then (w, some (codes "initilize collection"))
      else indexed (create_indexes c p w)

  -- `Mongo.init`
  unfoldable pub init : Client → MongoParams → World → World × Option Error
  unfolding created
  init c p w = created c p (create_collection c p w)

  pub made : Client → MongoParams → World × Option Error → World × (NewMongo ⊎ Error)
  made c p (w, none) = (w, inl (record { client = c; params = p }))
  made c p (w, some e) = (w, inr e)

  -- `NewMongo`
  unfoldable pub new_mongo : Client → MongoParams → World → World × (NewMongo ⊎ Error)
  unfolding made init with_defaults
  new_mongo c p w = made c (with_defaults p) (init c (with_defaults p) w)

  -- The collection is there, or has been created.
  abbrev pub is_there : Option Error → Bool
  is_there none = true
  is_there (some e) = contains e (codes "already exists")

  indexed-none : (r : World × Option Error) → ((indexed r).1 ≡ none) ↔ (r.1 ≡ none)
  unfolding indexed
  indexed-none (w, none) = (λ h. refl, λ h. refl)
  indexed-none (w, some e) = (λ h. absurd cc, λ h. absurd cc)

  created_none :
      (c : Client) (p : MongoParams) (r : World × Option Error)
      → ((created c p r).1 ≡ none) ↔ ((is_there r.1 ≡ true) × ((create_indexes c p r.0).1 ≡ none))
  unfolding created
  created_none c p (w, none) =
      let (to, from) = indexed-none (create_indexes c p w) in (λ h. (refl, to h), λ h. from h.1)
  created_none c p (w, some e) =
      let (to, from) = indexed-none (create_indexes c p w) in
      elim (Bool-cases (contains e (codes "already exists"))) [
        | inl h ↦ rw h (λ k. (refl, to k), λ k. from k.1)
        | inr h ↦ rw h (λ k. absurd cc, λ k. absurd (cc (k.0)))
      ]

  made-none :
      (c : Client) (p : MongoParams) (r : World × Option Error)
      → ((made c p r).1 ≡ inl (record { client = c; params = p })) ↔ (r.1 ≡ none)
  unfolding made
  made-none c p (w, none) = (λ h. refl, λ h. refl)
  made-none c p (w, some e) = (λ h. absurd cc, λ h. absurd cc)

  -- `NewMongo` gives a store exactly if the collection could be created or was there already, and its
  -- indexes could be created then; the store has the parameters, with the defaults in place of zeros.
  pub new_mongo-is_there :
      (c : Client) (params : MongoParams) (w : World)
      → let p = with_defaults params in
        let r = create_collection c p w in
        ((new_mongo c params w).1 ≡ inl (record { client = c; params = p }))
        ↔ ((is_there r.1 ≡ true) × ((create_indexes c p r.0).1 ≡ none))
  unfolding new_mongo init
  new_mongo-is_there c params w =
      let p = with_defaults params in
      let (to, from) = made-none c p (init c p w) in
      let (to', from') = created_none c p (create_collection c p w) in
      (λ h. to' (to h), λ h. from (from' h))
