-- ===== src/Engine/Route.antt =====
-- src/engine.rs: the pipeline task: transform, enrich, and fan out to the routers.
pub mod Laws
pub mod Deliver
pub mod Drain
use softnix_log_agent.Prelude.{
  ℕ, zero, suc, ◌+◌, ◌%◌, Bool, true, false, not, ◌&&◌, Option, none, some, List, [], ◌∷◌, ◌++◌,
  map, length, ltb, if◌then◌else◌, add64,
}
use Prim.Native.String.{String}
use softnix_log_agent.Event.{Json, Event}
use softnix_log_agent.Metrics.{Metrics, StatusRegistry, record_error, output_healthy}
use softnix_log_agent.Pipeline.Condition.{Texts, CompiledCondition, eval_condition}
use softnix_log_agent.Pipeline.Transform.{Numbers, CompiledStep, apply}
use softnix_log_agent.Pipeline.Enrich.{Host, Enricher, enrich}
use softnix_log_agent.Engine.Budget.{Channel, receive}

abbrev pub router_capacity : ℕ
router_capacity = 4096

-- An output's `id` and `failover_for`, its compiled `when`, the channel of its router, and the
-- counter of events shed.
pub record RouterEntry (V Cond : Type 0) : Type 0 where
  pub id : String
  pub failover_for : Option String
  pub when : Option Cond
  pub queued : List V
  pub capacity : ℕ
  pub closed : Bool
  pub shed : ℕ

module _ {V Cond : Type 0} where
  -- `tx.send(ev).await`: the room that it waits for is the router's to make.
  unfoldable pub force_send : V → RouterEntry V Cond → Metrics → RouterEntry V Cond × Metrics
  unfolding record_error
  force_send ev r m =
      if r.closed then (r, record_error m) else (record r { queued = r.queued ++ ev ∷ [] }, m)

  -- `tx.try_send(ev)`, each of its answers
  unfoldable pub try_send : V → RouterEntry V Cond → Metrics → RouterEntry V Cond × Metrics
  unfolding record_error
  try_send ev r m =
      if r.closed
      then (r, record_error m)
      else if ltb (length r.queued) r.capacity
      then (record r { queued = r.queued ++ ev ∷ [] }, m)
      else (
        record r { shed = add64 r.shed 1 },
        record m { events_dropped = add64 m.events_dropped 1 },
      )

module _ {Time Num Tree Regex Float : Type 0} (json : Json Time Num Tree)
    (texts : Texts Num Regex Float) where
  -- Whether a router is passed over: a standby output while its primary is up, or an output whose
  -- condition does not hold.
  unfoldable pub wants :
      StatusRegistry
      → Event Time Num Tree
      → RouterEntry (Event Time Num Tree) (CompiledCondition Num Tree Regex)
      → Bool
  unfolding output_healthy eval_condition
  wants status ev r =
      let standby : Bool = elim r.failover_for [
        | none ↦ false
        | some primary ↦ output_healthy primary status
      ] in
      let matches : Bool = elim r.when [
        | none ↦ true
        | some cond ↦ eval_condition json texts cond ev
      ] in
      not standby && matches

  -- The body of the loop over the routers.
  unfoldable pub offer :
      StatusRegistry
      → Bool
      → Event Time Num Tree
      → RouterEntry (Event Time Num Tree) (CompiledCondition Num Tree Regex)
      → Metrics
      → RouterEntry (Event Time Num Tree) (CompiledCondition Num Tree Regex) × Metrics
  unfolding wants force_send try_send
  offer status force_deliver ev r m =
      if wants status ev r
      then if force_deliver then force_send ev r m else try_send ev r m
      else (r, m)

  unfoldable pub fan_out :
      StatusRegistry
      → Bool
      → Event Time Num Tree
      → List (RouterEntry (Event Time Num Tree) (CompiledCondition Num Tree Regex))
      → Metrics
      → List (RouterEntry (Event Time Num Tree) (CompiledCondition Num Tree Regex)) × Metrics
  fan_out status force_deliver ev [] m = ([], m)
  fan_out status force_deliver ev (r ∷ rs) m =
      let (r', next) = offer status force_deliver ev r m in
      let (rs', last) = fan_out status force_deliver ev rs next in (r' ∷ rs', last)

-- What the pipeline task works with. The gauge of `channel` is `channel_bytes` of the metrics.
pub record Pipeline (V Num Tree Regex : Type 0) : Type 0 where
  pub channel : Channel V
  pub transformer : List (CompiledStep Num Tree Regex)
  pub enricher : Enricher Num Tree
  pub routers : List (RouterEntry V (CompiledCondition Num Tree Regex))
  pub status : StatusRegistry
  pub metrics : Metrics

module _ {Time Num Tree Regex Float : Type 0} (json : Json Time Num Tree)
    (texts : Texts Num Regex Float) (numbers : Numbers Num) (host : Host Tree) where
  unfoldable pub route_event :
      Bool
      → Event Time Num Tree
      → Pipeline (Event Time Num Tree) Num Tree Regex
      → Pipeline (Event Time Num Tree) Num Tree Regex
  unfolding apply enrich fan_out
  route_event force_deliver ev p =
      let (stays, next) = apply json texts numbers p.transformer ev in
      if stays
      then (let (rs, m) =
            fan_out json texts p.status force_deliver (enrich host p.enricher next) p.routers
              p.metrics in
          record p { routers = rs; metrics = m })
      else record p {
        metrics = record p.metrics { events_dropped = add64 p.metrics.events_dropped 1 };
      }

  -- A turn of the loop of `run_pipeline` on an event, before it is cancelled; `none` while the channel
  -- is empty.
  unfoldable pub turn :
      Pipeline (Event Time Num Tree) Num Tree Regex
      → Option (Pipeline (Event Time Num Tree) Num Tree Regex)
  unfolding receive route_event
  turn p = elim (receive p.channel) [
    | none ↦ none
    | some (ev, c) ↦ some (route_event false ev (record p { channel = c }))
  ]

  -- The loop of the arm `cancel.cancelled()`, on fuel.
  unfoldable pub drain :
      ℕ
      → Pipeline (Event Time Num Tree) Num Tree Regex
      → Pipeline (Event Time Num Tree) Num Tree Regex
  unfolding receive route_event
  drain zero p = p
  drain (suc fuel) p = elim (receive p.channel) [
    | none ↦ p
    | some (ev, c) ↦ drain fuel (route_event true ev (record p { channel = c }))
  ]
