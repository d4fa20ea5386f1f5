-- ===== src/Engine/Route/Drain.antt =====
-- src/engine.rs: the arm of `run_pipeline` that drains the channel when it is cancelled.
use softnix_log_agent.Prelude.{
  ℕ, zero, suc, ◌+◌, ◌^◌, ◌≤◌, ◌<◌, ◌≡◌, refl, ap, sym, ◌∙◌, true, false, List, [], ◌∷◌, map,
  length, if◌then◌else◌, arith, inl, inr, Bool-cases, add64,
}
use softnix_log_agent.Event.{Json, Event}
use softnix_log_agent.Pipeline.Condition.{Texts}
use softnix_log_agent.Pipeline.Transform.{Numbers, CompiledStep, apply}
use softnix_log_agent.Pipeline.Enrich.{Host, Enricher, enrich}
use softnix_log_agent.Engine.Budget.{Channel, receive, release}
use softnix_log_agent.Engine.Route.{Pipeline, route_event, drain}
use softnix_log_agent.Engine.Route.Deliver.{
  delivered, AllOpen, AllOpen-delivered, map-delivered, map-delivered_nil, fan_out-force,
}

module _ {Time Num Tree Regex Float : Type 0} (json : Json Time Num Tree)
    (texts : Texts Num Regex Float) (numbers : Numbers Num) (host : Host Tree) where
  -- What the transforms let through, enriched, and the number of events that they drop.
  unfoldable pub passed :
      List (CompiledStep Num Tree Regex)
      → Enricher Num Tree
      → List (Event Time Num Tree)
      → List (Event Time Num Tree)
  passed steps e [] = []
  passed steps e (ev ∷ evs) =
      let (stays, next) = apply json texts numbers steps ev in
      if stays then enrich host e next ∷ passed steps e evs else passed steps e evs

  unfoldable pub filtered_out : List (CompiledStep Num Tree Regex) → List (Event Time Num Tree) → ℕ
  filtered_out steps [] = 0
  filtered_out steps (ev ∷ evs) =
      if (apply json texts numbers steps ev).0
      then filtered_out steps evs
      else suc (filtered_out steps evs)

  -- A pipeline behind the drain of its channel.
  pub record Drained (evs : List (Event Time Num Tree))
      (p p' : Pipeline (Event Time Num Tree) Num Tree Regex) : Type 0 where
    pub emptied : p'.channel.queued ≡ []
    pub routers :
        p'.routers
        ≡ map (delivered json texts p.status (passed p.transformer p.enricher evs)) p.routers
    pub metrics : p'.metrics ≡ record p.metrics {
      events_dropped = p.metrics.events_dropped + filtered_out p.transformer evs;
    }

  passed-keeps :
      (steps : List (CompiledStep Num Tree Regex)) (e : Enricher Num Tree)
      (ev next : Event Time Num Tree) (evs : List (Event Time Num Tree))
      → apply json texts numbers steps ev ≡ (true, next)
      → (passed steps e (ev ∷ evs) ≡ enrich host e next ∷ passed steps e evs)
        × (filtered_out steps (ev ∷ evs) ≡ filtered_out steps evs)
  unfolding passed filtered_out
  passed-keeps steps e ev next evs a = (rw a refl, rw a refl)

  passed-drops :
      (steps : List (CompiledStep Num Tree Regex)) (e : Enricher Num Tree)
      (ev next : Event Time Num Tree) (evs : List (Event Time Num Tree))
      → apply json texts numbers steps ev ≡ (false, next)
      → (passed steps e (ev ∷ evs) ≡ passed steps e evs)
        × (filtered_out steps (ev ∷ evs) ≡ suc (filtered_out steps evs))
  unfolding passed filtered_out
  passed-drops steps e ev next evs a = (rw a refl, rw a refl)

  -- The pipeline behind `receive`, when the next event is known.
  drain-cons :
      (n : ℕ) (p : Pipeline (Event Time Num Tree) Num Tree Regex) (ev : Event Time Num Tree)
      (evs : List (Event Time Num Tree))
      → p.channel.queued ≡ ev ∷ evs
      → drain json texts numbers host (suc n) p
        ≡ drain json texts numbers host n (
            route_event json texts numbers host true ev
              (record p { channel = release ev (record p.channel { queued = evs }) }))
  unfolding drain receive
  drain-cons n p ev evs e = rw e refl

  route_event-keeps :
      (ev next : Event Time Num Tree) (p : Pipeline (Event Time Num Tree) Num Tree Regex)
      → apply json texts numbers p.transformer ev ≡ (true, next)
      → AllOpen json texts p.status p.routers
      → route_event json texts numbers host true ev p ≡ record p {
        routers = map (delivered json texts p.status (enrich host p.enricher next ∷ [])) p.routers;
      }
  unfolding route_event
  route_event-keeps ev next p a h =
      rw (a, fan_out-force json texts p.status (enrich host p.enricher next) p.routers p.metrics h)
        refl

  route_event-drops :
      (ev next : Event Time Num Tree) (p : Pipeline (Event Time Num Tree) Num Tree Regex)
      → apply json texts numbers p.transformer ev ≡ (false, next)
      → p.metrics.events_dropped + 1 < 2 ^ 64
      → route_event json texts numbers host true ev p
        ≡ record p { metrics = record p.metrics { events_dropped = p.metrics.events_dropped + 1 } }
  unfolding route_event
  route_event-drops ev next p a h =
      let e : add64 p.metrics.events_dropped 1 ≡ p.metrics.events_dropped + 1 = omega arith in
      rw (a, e) refl

  Drained-nil :
      (p : Pipeline (Event Time Num Tree) Num Tree Regex) → p.channel.queued ≡ [] → Drained [] p p
  unfolding passed filtered_out
  Drained-nil p e = record {
    emptied = e;
    routers = sym (map-delivered_nil json texts p.status p.routers);
    metrics =
        ap (λ n. record p.metrics { events_dropped = n })
          (let e : p.metrics.events_dropped ≡ p.metrics.events_dropped + 0 = omega arith in e);
  }

  drain-nil :
      (n : ℕ) (p : Pipeline (Event Time Num Tree) Num Tree Regex)
      → p.channel.queued ≡ []
      → drain json texts numbers host n p ≡ p
  unfolding drain receive
  drain-nil zero p e = refl
  drain-nil (suc n) p e = rw e refl

  Drained-keeps :
      (ev next : Event Time Num Tree) (evs : List (Event Time Num Tree))
      (c : Channel (Event Time Num Tree)) (p p' : Pipeline (Event Time Num Tree) Num Tree Regex)
      → apply json texts numbers p.transformer ev ≡ (true, next)
      → Drained evs
          (record p {
            channel = c;
            routers =
                map (delivered json texts p.status (enrich host p.enricher next ∷ [])) p.routers;
          })
          p'
      → Drained (ev ∷ evs) p p'
  Drained-keeps ev next evs c p p' a d =
      let (x, y) = passed-keeps p.transformer p.enricher ev next evs a in
      record {
        emptied = d.emptied;
        routers =
            d.routers
            ∙ map-delivered json texts p.status (enrich host p.enricher next)
                (passed p.transformer p.enricher evs) p.routers
            ∙ ap (λ l. map (delivered json texts p.status l) p.routers) (sym x);
        metrics =
            d.metrics
            ∙ ap (λ n. record p.metrics { events_dropped = p.metrics.events_dropped + n }) (sym y);
      }

  Drained-drops :
      (ev next : Event Time Num Tree) (evs : List (Event Time Num Tree))
      (c : Channel (Event Time Num Tree)) (p p' : Pipeline (Event Time Num Tree) Num Tree Regex)
      → apply json texts numbers p.transformer ev ≡ (false, next)
      → Drained evs
          (record p {
            channel = c;
            metrics = record p.metrics { events_dropped = p.metrics.events_dropped + 1 };
          })
          p'
      → Drained (ev ∷ evs) p p'
  Drained-drops ev next evs c p p' a d =
      let (x, y) = passed-drops p.transformer p.enricher ev next evs a in
      let k : p.metrics.events_dropped + 1 + filtered_out p.transformer evs
          ≡ p.metrics.events_dropped + filtered_out p.transformer (ev ∷ evs) =
        omega (arith, y) in
      record {
        emptied = d.emptied;
        routers = d.routers ∙ ap (λ l. map (delivered json texts p.status l) p.routers) (sym x);
        metrics = d.metrics ∙ ap (λ n. record p.metrics { events_dropped = n }) k;
      }

  -- The drain empties the channel and sheds nothing: on a turn for each queued event, every router
  -- gets, behind what it has and in the order of the channel, all the events that the transforms let
  -- through and that it wants, enriched; the counter of dropped events grows by those that the
  -- transforms drop, and nothing else of the metrics changes. The routers are open, and the counter
  -- does not wrap.
  pub drain-Drained :
      (n : ℕ) (evs : List (Event Time Num Tree)) (p : Pipeline (Event Time Num Tree) Num Tree Regex)
      → p.channel.queued ≡ evs
      → length evs ≤ n
      → AllOpen json texts p.status p.routers
      → p.metrics.events_dropped + filtered_out p.transformer evs < 2 ^ 64
      → Drained evs p (drain json texts numbers host n p)
  unfolding release
  drain-Drained n [] p e l o h = rw (drain-nil n p e) (Drained-nil p e)
  drain-Drained zero (ev ∷ evs) p e l o h = absurd (omega arith)
  drain-Drained (suc n) (ev ∷ evs) p e l o h =
      let c = release ev (record p.channel { queued = evs }) in
      let q = record p { channel = c } in
      let next = (apply json texts numbers p.transformer ev).1 in
      elim (Bool-cases (apply json texts numbers p.transformer ev).0) [
        | inl t ↦
            let a : apply json texts numbers p.transformer ev ≡ (true, next) =
              ap (λ b. (b, next)) t in
            let (_, y) = passed-keeps p.transformer p.enricher ev next evs a in
            rw (drain-cons n p ev evs e, route_event-keeps ev next q a o)
              (Drained-keeps ev next evs c p _ a (
                drain-Drained n evs
                  (record q {
                    routers =
                        map (delivered json texts p.status (enrich host p.enricher next ∷ []))
                          p.routers;
                  })
                  refl (omega arith)
                  (AllOpen-delivered json texts p.status (enrich host p.enricher next ∷ [])
                    p.routers o)
                  (omega (arith, y))))
        | inr t ↦
            let a : apply json texts numbers p.transformer ev ≡ (false, next) =
              ap (λ b. (b, next)) t in
            let (_, y) = passed-drops p.transformer p.enricher ev next evs a in
            rw (drain-cons n p ev evs e, route_event-drops ev next q a (omega (arith, y)))
              (Drained-drops ev next evs c p _ a (
                drain-Drained n evs
                  (record q {
                    metrics = record p.metrics { events_dropped = p.metrics.events_dropped + 1 };
                  })
                  refl (omega arith) o (omega (arith, y))))
      ]
