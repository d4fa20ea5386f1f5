-- ===== src/Engine/Route/Laws.antt =====
-- src/engine.rs: what each router gets.
use softnix_log_agent.Prelude.{
  ℕ, suc, ◌+◌, ◌^◌, ◌<◌, ◌≡◌, refl, ap, ◌∙◌, Bool, false, not, ◌&&◌, List, [], ◌∷◌, map, fun_ext,
  length, ltb, if◌then◌else◌, arith,
}
use softnix_log_agent.Event.{Json, Event}
use softnix_log_agent.Metrics.{Metrics, StatusRegistry, record_error}
use softnix_log_agent.Pipeline.Condition.{Texts, CompiledCondition}
use softnix_log_agent.Engine.Route.{RouterEntry, force_send, try_send, wants, offer, fan_out}

module _ {Time Num Tree Regex Float : Type 0} (json : Json Time Num Tree)
    (texts : Texts Num Regex Float) (status : StatusRegistry) where
  -- A router that wants the event and has no room for it.
  unfoldable pub saturated :
      Event Time Num Tree
      → RouterEntry (Event Time Num Tree) (CompiledCondition Num Tree Regex)
      → Bool
  saturated ev r =
      wants json texts status ev r && not r.closed && not (ltb (length r.queued) r.capacity)

  abbrev pub count :
      (RouterEntry (Event Time Num Tree) (CompiledCondition Num Tree Regex) → Bool)
      → List (RouterEntry (Event Time Num Tree) (CompiledCondition Num Tree Regex))
      → ℕ
  count f [] = 0
  count f (r ∷ rs) = if f r then suc (count f rs) else count f rs

  offer-alone :
      (f : Bool) (ev : Event Time Num Tree)
      (r : RouterEntry (Event Time Num Tree) (CompiledCondition Num Tree Regex)) (m m' : Metrics)
      → (offer json texts status f ev r m).0 ≡ (offer json texts status f ev r m').0
  unfolding offer force_send try_send
  offer-alone f ev r m m' = ground arith

  offer-dropped :
      (ev : Event Time Num Tree)
      (r : RouterEntry (Event Time Num Tree) (CompiledCondition Num Tree Regex)) (m : Metrics)
      (n : ℕ)
      → m.events_dropped + (if saturated ev r then suc n else n) < 2 ^ 64
      → (offer json texts status false ev r m).1.events_dropped + n
        ≡ m.events_dropped + (if saturated ev r then suc n else n)
  unfolding offer try_send saturated record_error
  offer-dropped ev r m n h = ground arith

  -- What a router gets of an event, and what becomes of its shed counter, does not depend on the
  -- other routers: the loop does to each what it does to it alone. The counter of dropped events
  -- grows by the number of routers that want the event and have no room, if it does not wrap.
  pub fan_out-offer :
      (ev : Event Time Num Tree)
      (rs : List (RouterEntry (Event Time Num Tree) (CompiledCondition Num Tree Regex)))
      (m : Metrics)
      → m.events_dropped + count (saturated ev) rs < 2 ^ 64
      → ((fan_out json texts status false ev rs m).0
          ≡ map (λ r. (offer json texts status false ev r m).0) rs)
        × ((fan_out json texts status false ev rs m).1.events_dropped
            ≡ m.events_dropped + count (saturated ev) rs)
  unfolding fan_out
  fan_out-offer ev [] m h = (refl, omega arith)
  fan_out-offer ev (r ∷ rs) m h =
      let n = (offer json texts status false ev r m).1 in
      let d = offer-dropped ev r m (count (saturated ev) rs) h in
      let (a, b) = fan_out-offer ev rs n (omega (arith, d)) in
      (
        ap (λ z. (offer json texts status false ev r m).0 ∷ z)
            (a
              ∙ ap
                  (λ (g : RouterEntry (Event Time Num Tree) (CompiledCondition Num Tree Regex)
                      → RouterEntry (Event Time Num Tree) (CompiledCondition Num Tree Regex)).
                    map g rs)
                  (fun_ext (λ s. offer-alone false ev s n m))),
        b ∙ d,
      )
