-- ===== src/Engine/Route/Deliver.antt =====
-- src/engine.rs: the fan-out of one event by sends that wait.
use softnix_log_agent.Prelude.{
  ◌≡◌, refl, ap, ap₂, sym, ◌∙◌, true, false, List, [], ◌∷◌, ◌++◌, map, append-nil, append_assoc,
  if◌then◌else◌, arith,
}
use softnix_log_agent.Event.{Json, Event}
use softnix_log_agent.Metrics.{Metrics, StatusRegistry}
use softnix_log_agent.Pipeline.Condition.{Texts, CompiledCondition}
use softnix_log_agent.Engine.Route.{RouterEntry, force_send, wants, offer, fan_out}

module _ {Time Num Tree Regex Float : Type 0} (json : Json Time Num Tree)
    (texts : Texts Num Regex Float) (status : StatusRegistry) where
  -- The events that a router wants, in their order.
  unfoldable pub addressed :
      RouterEntry (Event Time Num Tree) (CompiledCondition Num Tree Regex)
      → List (Event Time Num Tree)
      → List (Event Time Num Tree)
  addressed r [] = []
  addressed r (ev ∷ evs) =
      if wants json texts status ev r then ev ∷ addressed r evs else addressed r evs

  -- A router behind a delivery of all that it wants of some events.
  abbrev pub delivered :
      List (Event Time Num Tree)
      → RouterEntry (Event Time Num Tree) (CompiledCondition Num Tree Regex)
      → RouterEntry (Event Time Num Tree) (CompiledCondition Num Tree Regex)
  delivered evs r = record r { queued = r.queued ++ addressed r evs }

  abbrev pub AllOpen :
      List (RouterEntry (Event Time Num Tree) (CompiledCondition Num Tree Regex)) → Type 0
  AllOpen [] = Unit
  AllOpen (r ∷ rs) = (r.closed ≡ false) × AllOpen rs

  pub AllOpen-delivered :
      (evs : List (Event Time Num Tree))
      (rs : List (RouterEntry (Event Time Num Tree) (CompiledCondition Num Tree Regex)))
      → AllOpen rs
      → AllOpen (map (delivered evs) rs)
  AllOpen-delivered evs [] h = tt
  AllOpen-delivered evs (r ∷ rs) (o, h) = (o, AllOpen-delivered evs rs h)

  pub addressed-queued :
      (r : RouterEntry (Event Time Num Tree) (CompiledCondition Num Tree Regex))
      (q evs : List (Event Time Num Tree))
      → addressed (record r { queued = q }) evs ≡ addressed r evs
  unfolding addressed wants
  addressed-queued r q [] = refl
  addressed-queued r q (ev ∷ evs) = ground (arith, addressed-queued r q evs)

  addressed-cons :
      (r : RouterEntry (Event Time Num Tree) (CompiledCondition Num Tree Regex))
      (ev : Event Time Num Tree) (evs : List (Event Time Num Tree))
      → addressed r (ev ∷ evs) ≡ addressed r (ev ∷ []) ++ addressed r evs
  unfolding addressed
  addressed-cons r ev evs = ground arith

  delivered-cons :
      (ev : Event Time Num Tree) (evs : List (Event Time Num Tree))
      (r : RouterEntry (Event Time Num Tree) (CompiledCondition Num Tree Regex))
      → delivered evs (delivered (ev ∷ []) r) ≡ delivered (ev ∷ evs) r
  delivered-cons ev evs r =
      ap (λ q. record r { queued = q })
        (ap (λ z. (r.queued ++ addressed r (ev ∷ [])) ++ z)
            (addressed-queued r (r.queued ++ addressed r (ev ∷ [])) evs)
          ∙ append_assoc r.queued (addressed r (ev ∷ [])) (addressed r evs)
          ∙ ap (λ z. r.queued ++ z) (sym (addressed-cons r ev evs)))

  pub map-delivered :
      (ev : Event Time Num Tree) (evs : List (Event Time Num Tree))
      (rs : List (RouterEntry (Event Time Num Tree) (CompiledCondition Num Tree Regex)))
      → map (delivered evs) (map (delivered (ev ∷ [])) rs) ≡ map (delivered (ev ∷ evs)) rs
  map-delivered ev evs [] = refl
  map-delivered ev evs (r ∷ rs) = ap₂ ◌∷◌ (delivered-cons ev evs r) (map-delivered ev evs rs)

  pub map-delivered_nil :
      (rs : List (RouterEntry (Event Time Num Tree) (CompiledCondition Num Tree Regex)))
      → map (delivered []) rs ≡ rs
  unfolding addressed
  map-delivered_nil [] = refl
  map-delivered_nil (r ∷ rs) =
      ap₂ ◌∷◌ (ap (λ q. record r { queued = q }) (append-nil r.queued)) (map-delivered_nil rs)

  offer-force :
      (ev : Event Time Num Tree)
      (r : RouterEntry (Event Time Num Tree) (CompiledCondition Num Tree Regex)) (m : Metrics)
      → r.closed ≡ false
      → offer json texts status true ev r m ≡ (delivered (ev ∷ []) r, m)
  unfolding offer force_send addressed
  offer-force ev r m o = ground (arith, o, append-nil r.queued)

  pub fan_out-force :
      (ev : Event Time Num Tree)
      (rs : List (RouterEntry (Event Time Num Tree) (CompiledCondition Num Tree Regex)))
      (m : Metrics)
      → AllOpen rs
      → fan_out json texts status true ev rs m ≡ (map (delivered (ev ∷ [])) rs, m)
  unfolding fan_out
  fan_out-force ev [] m h = refl
  fan_out-force ev (r ∷ rs) m (o, h) = rw (offer-force ev r m o, fan_out-force ev rs m h) refl
