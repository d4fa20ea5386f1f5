-- ===== src/Pipeline/Enrich/Laws.antt =====
-- src/pipeline/enrich.rs: enrichment adds and never replaces.
use softnix_log_agent.Prelude.{
  ◌≡◌, inl, inr, refl, ap, ◌∙◌, none, some, List, [], ◌∷◌, arith, Option-cases,
}
use Prim.Native.String.{String}
use softnix_log_agent.Event.{Value, Event, get, insert}
use softnix_log_agent.Event.Laws.{get-insert, get-insert_self}
use softnix_log_agent.Pipeline.Enrich.{Host, Enricher, or_insert, or_insert_all, entries, enrich}

module _ {V : Type 0} where
  -- Where a key is present, nothing is inserted under it.
  or_insert-some :
      (k : String) (v w : V) (m : List (String × V)) → get k m ≡ some w → or_insert k v m ≡ m
  unfolding or_insert
  or_insert-some k v w m e = rw (or_insert, e)

  or_insert-none :
      (k : String) (v : V) (m : List (String × V)) → get k m ≡ none → or_insert k v m ≡ insert k v m
  unfolding or_insert
  or_insert-none k v m e = rw (or_insert, e)

  get-or_insert :
      (k j : String) (v w : V) (m : List (String × V))
      → get j m ≡ some w
      → get j (or_insert k v m) ≡ some w
  get-or_insert k j v w m h = elim (Option-cases (get k m)) [
    | inr (x, e) ↦ rw (or_insert-some k v x m e) h
    | inl e ↦
        rw (or_insert-none k v m e) (get-insert k j v m (λ p. cc (h, e, ap (λ z. get z m) p)) ∙ h)
  ]

  -- A key that is present keeps its value.
  pub get-or_insert_all :
      (ds : List (String × V)) (j : String) (w : V) (m : List (String × V))
      → get j m ≡ some w
      → get j (or_insert_all ds m) ≡ some w
  unfolding or_insert_all
  get-or_insert_all [] j w m h = h
  get-or_insert_all ((k, v) ∷ ds) j w m h =
      get-or_insert_all ds j w (or_insert k v m) (get-or_insert k j v w m h)

  -- Behind the insertion a key is present.
  or_insert-present :
      (k : String) (v : V) (m : List (String × V)) → (w : V) × (get k (or_insert k v m) ≡ some w)
  or_insert-present k v m = elim (Option-cases (get k m)) [
    | inr (x, e) ↦ (x, get-or_insert k k v x m e)
    | inl e ↦ (v, rw (or_insert-none k v m e) (get-insert_self k v m))
  ]

  -- All keys of the entries are present.
  abbrev Present : List (String × V) → List (String × V) → Type 0
  Present [] m = Unit
  Present ((k, v) ∷ ds) m = ((w : V) × (get k m ≡ some w)) × Present ds m

  or_insert_all-Present : (ds m : List (String × V)) → Present ds m → or_insert_all ds m ≡ m
  unfolding or_insert_all
  or_insert_all-Present [] m h = refl
  or_insert_all-Present ((k, v) ∷ ds) m ((w, e), h) =
      rw (or_insert-some k v w m e) (or_insert_all-Present ds m h)

  Present-or_insert_all : (ds m : List (String × V)) → Present ds (or_insert_all ds m)
  unfolding or_insert_all
  Present-or_insert_all [] m = tt
  Present-or_insert_all ((k, v) ∷ ds) m =
      let (w, e) = or_insert-present k v m in
      (
        (w, get-or_insert_all ds k w (or_insert k v m) e),
        Present-or_insert_all ds (or_insert k v m),
      )

module _ {Time Num Tree : Type 0} (host : Host Tree) where
  -- A hostname and a custom field that an event has are kept by its enrichment.
  pub enrich-keeps :
      (e : Enricher Num Tree) (ev : Event Time Num Tree) (h key : String) (v : Value Num Tree)
      → ev.hostname ≡ some h
      → get key ev.fields ≡ some v
      → ((enrich host e ev).hostname ≡ some h) × (get key (enrich host e ev).fields ≡ some v)
  unfolding enrich
  enrich-keeps e ev h key v p q =
      (ground arith, get-or_insert_all (entries host e) key v ev.fields q)

  -- To enrich an event twice is to enrich it once.
  pub enrich-enrich :
      (e : Enricher Num Tree) (ev : Event Time Num Tree)
      → enrich host e (enrich host e ev) ≡ enrich host e ev
  unfolding enrich
  enrich-enrich e ev = ground (
    arith,
    or_insert_all-Present (entries host e) (or_insert_all (entries host e) ev.fields)
        (Present-or_insert_all (entries host e) ev.fields),
  )
