-- ===== src/Journey/Delivered.antt =====
-- What a client prints of the lines that the server accepted.
use dkll.Base.{
  ◌≡◌, inl, inr, refl, sym, ap, subst, ◌∙◌, Bool, Option, none, some, List, [], ◌∷◌, ◌++◌, map,
  concat, append_assoc, append-nil, All, All-append, Bool-cases, Bytes, ℤ, length, ltb, arith,
}
use mathlib.Core.List.{append_cancel_right}
use dkll.Errors.{Error}
use dkll.Core.{LogEntry}
use dkll.Core.Clock.{Location}
use dkll.Core.Entry.{Now, EntryError, new_entry}
use dkll.Core.Entry.Branches.{new_entry-IsMade}
use dkll.Server.Mongo.{Driver, IsDriver}
use dkll.Server.Mongo.Query.{Bounds, Query}
use dkll.Server.Mongo.Store.{Database, Mongo, publish}
use dkll.Server.Mongo.Store.Published.{kept}
use dkll.Server.Mongo.Store.Selection.{IsDatabase}
use dkll.Server.Forwarder.{
  Sinks, Forwarder, Step, line, send, message, tick, cancel, end_writer, end_run, Reach, here, next,
  start,
}
use dkll.Server.Forwarder.Order.{
  pending, entries, line_entries, accepted, publish_all, accepted-Flows,
}
use dkll.Client.{DisplayParams, Terminal}
use dkll.Writing.{store_sinks}
use dkll.Reading.{Surroundings, IsJson, at_handlers}
use dkll.Reading.After.{map-append}
use dkll.Journey.{IsGrowing}
use dkll.Journey.Grown.{IsReady, logged, publish-IsReady, publish-logged, publish-HasGrown}

abbrev HasNoId : LogEntry → Type 0
HasNoId e = e.id ≡ []

new_entry-HasNoId :
    (clock : Now) (tz : Location) (text : Bytes) → HasNoId (new_entry clock tz text).0
unfolding new_entry
new_entry-HasNoId clock tz text = elim (Bool-cases (ltb (length text) 16)) [
  | inl short ↦ rw (short, new_entry) refl
  | inr long ↦ (new_entry-IsMade clock tz text (ground arith)).no_id
]

entries-HasNoId : (r : LogEntry × Option EntryError) → HasNoId r.0 → All HasNoId (entries r)
entries-HasNoId (e, none) h = (h, tt)
entries-HasNoId (e, some x) h = tt

module _ (sinks : Sinks) where
  line_entries-HasNoId :
      {f g : Forwarder sinks} (st : Step sinks f g) → All HasNoId (line_entries sinks st)
  line_entries-HasNoId (line clock tz text i) = entries-HasNoId _ (new_entry-HasNoId clock tz text)
  line_entries-HasNoId (send s room) = tt
  line_entries-HasNoId (message w e) = tt
  line_entries-HasNoId (tick w) = tt
  line_entries-HasNoId cancel = tt
  line_entries-HasNoId (end_writer w x) = tt
  line_entries-HasNoId (end_run i x w) = tt

  accepted-HasNoId : {f g : Forwarder sinks} (r : Reach sinks f g) → All HasNoId (accepted sinks r)
  accepted-HasNoId here = tt
  accepted-HasNoId (next r st) =
      All-append HasNoId (accepted sinks r) _ (accepted-HasNoId r) (line_entries-HasNoId st)

module _ {ℓ κ} {A : Type ℓ} (P : A → Type κ) where
  All-left : (xs ys : List A) → All P (xs ++ ys) → All P xs
  All-left [] ys h = tt
  All-left (x ∷ xs) ys (h, hs) = (h, All-left xs ys hs)

  All-right : (xs ys : List A) → All P (xs ++ ys) → All P ys
  All-right [] ys h = h
  All-right (x ∷ xs) ys (h, hs) = All-right xs ys hs

module _ (d : Driver) (laws : IsDriver d) (match_regex : Bytes → Bytes → Bool) (db : Database d)
    (isdb : IsDatabase d match_regex db) (grow : IsGrowing d match_regex db isdb) (Files : Type 0)
    (write : LogEntry → Files → Files × Option Error) where
  abbrev pub to_store : Sinks
  to_store = store_sinks d db Files write

  abbrev pub Ready : Mongo d db → Type 0
  Ready m = IsReady d laws match_regex db isdb grow m

  abbrev pub log : Mongo d db → List LogEntry
  log m = logged d laws match_regex db isdb grow m

  -- If identifiers have grown until after some batches, they had before them.
  publish_all-HasGrown :
      (bs : List (List LogEntry)) (m : Mongo d db)
      → All HasNoId (concat bs)
      → grow.HasGrown (publish_all to_store bs m).state
      → grow.HasGrown m.state
  unfolding publish_all
  publish_all-HasGrown [] m h grown = grown
  publish_all-HasGrown (b ∷ bs) m h grown =
      publish-HasGrown d laws match_regex db isdb grow b m (All-left HasNoId b (concat bs) h)
        (publish_all-HasGrown bs (publish d db b m).0 (All-right HasNoId b (concat bs) h) grown)

  publish_all-Ready :
      (bs : List (List LogEntry)) (m : Mongo d db)
      → Ready m
      → All HasNoId (concat bs)
      → grow.HasGrown (publish_all to_store bs m).state
      → Ready (publish_all to_store bs m)
        × (log (publish_all to_store bs m) ≡ log m ++ map kept (concat bs))
  unfolding publish_all
  publish_all-Ready [] m ready h grown = (ready, sym (append-nil (log m)))
  publish_all-Ready (b ∷ bs) m ready h grown =
      let one = All-left HasNoId b (concat bs) h in
      let others = All-right HasNoId b (concat bs) h in
      let first = publish_all-HasGrown bs (publish d db b m).0 others grown in
      let (end, all) =
        publish_all-Ready bs (publish d db b m).0
          (publish-IsReady d laws match_regex db isdb grow b m ready one first) others grown in
      (
        end,
        all
            ∙ ap (λ t. t ++ map kept (concat bs))
                (publish-logged d laws match_regex db isdb grow b m ready one first)
            ∙ append_assoc (log m) (map kept b) (map kept (concat bs))
            ∙ ap (λ t. log m ++ t) (sym (map-append kept b (concat bs))),
      )

  -- The entries that are in the buffer, in the channel and held by `Run`.
  abbrev pub under_way : Forwarder to_store → List LogEntry
  under_way f = f.buffer ++ (f.messages ++ pending f.run)

  pub delivered-Ready :
      (m : Mongo d db) (files : Files) (f : Forwarder to_store)
      (r : Reach to_store (start to_store m files) f) (es : List LogEntry)
      → Ready m
      → accepted to_store r ≡ es ++ under_way f
      → grow.HasGrown f.store.state
      → Ready f.store × (log f.store ≡ log m ++ map kept es)
  delivered-Ready m files f r es ready h grown =
      let (flows, small) = accepted-Flows to_store m files r in
      let sent =
        append_cancel_right (concat flows.batches) es (under_way f) (sym flows.ordered ∙ h) in
      let no_ids =
        All-left HasNoId (concat flows.batches) (under_way f)
          (subst (All HasNoId) flows.ordered (accepted-HasNoId to_store r)) in
      let (end, all) =
        publish_all-Ready flows.batches m ready no_ids
          (subst (λ (k : Mongo d db). grow.HasGrown k.state) flows.published grown) in
      (
        subst Ready (sym flows.published) end,
        ap log flows.published ∙ all ∙ ap (λ t. log m ++ map kept t) sent,
      )

  module _ (bounds : Bounds) (env : Surroundings) (json : IsJson d env) (limit : ℤ)
      (c : DisplayParams) where
    -- The handlers over the store in a state.
    abbrev pub handlers : Mongo d db → Terminal
    handlers m = at_handlers d db bounds m env limit
