-- ===== src/Engine/Tests.antt =====
-- src/engine.rs: runs on concrete events.
use softnix_log_agent.Prelude.{
  ℕ, ◌+◌, ◌*◌, ◌≤◌, ◌≡◌, refl, true, false, none, some, List, [], ◌∷◌, map, done, arith,
}
use Prim.Native.String.{String}
use softnix_log_agent.Event.{Event}
use softnix_log_agent.Metrics.{Metrics, StatusRegistry}
use softnix_log_agent.Buffer.Queue.{DiskQueue, block}
use softnix_log_agent.Buffer.Sample.{byte_codec, queue}
use softnix_log_agent.Pipeline.Sample.{json, texts, numbers, event, host}
use softnix_log_agent.Pipeline.Condition.{CompiledCondition}
use softnix_log_agent.Pipeline.Transform.{apply}
use softnix_log_agent.Engine.Budget.{
  with_budget, with_metrics, event_bytes, permits_for, begin_blocking_send, begin_send, end_send,
  credit,
}
use softnix_log_agent.Engine.Budget.Traffic.{
  Traffic, Reach, here, next, begins, ends, Balanced, bytes_queued,
}
use softnix_log_agent.Engine.Budget.Bounds.{AllSmall, Reach-bytes_queued}
use softnix_log_agent.Engine.Route.{RouterEntry, Pipeline, wants, fan_out, offer, drain}
use softnix_log_agent.Engine.Route.Laws.{saturated, count, fan_out-offer}
use softnix_log_agent.Engine.Route.Drain.{Drained, filtered_out, drain-Drained}
use softnix_log_agent.Engine.Router.{woken, cancelled, push_blocking}
use softnix_log_agent.Engine.Router.Laws.{Answers, push_blocking-Answers}

abbrev Ev : Type 0
Ev = Event ℕ ℕ ℕ

-- A budget of two permits, and a channel for one event.
abbrev idle : Traffic Ev
idle = record {
  channel = record {
    budget = 2;
    gauge = 0;
    attached = true;
    queued = [];
    capacity = 1;
    closed = false;
  };
  waiting = [];
  borrowed = 0;
}

idle-with_budget : idle.channel ≡ with_metrics 0 (with_budget 1 2048)
unfolding with_metrics with_budget
idle-with_budget = refl

idle-Balanced : Balanced 2 idle
idle-Balanced = record {
  attached = refl;
  permits = refl;
  gauge = refl;
  bounded = omega arith;
  permitted = tt;
}

abbrev asked : Traffic Ev
asked = record {
  channel = record {
    budget = 1;
    gauge = 12;
    attached = true;
    queued = [];
    capacity = 1;
    closed = false;
  };
  waiting = record { event = event; permit = some 1 } ∷ [];
  borrowed = 0;
}

abbrev admitted : Traffic Ev
admitted = record {
  channel = record {
    budget = 1;
    gauge = 12;
    attached = true;
    queued = event ∷ [];
    capacity = 1;
    closed = false;
  };
  waiting = [];
  borrowed = 0;
}

admits : Reach idle admitted
unfolding begin_blocking_send begin_send credit permits_for event_bytes end_send
admits =
    next
      (next here (
        begins idle false event (record { event = event; permit = some 1 }) asked.channel
          (omega arith) refl))
      (ends asked [] [] (record { event = event; permit = some 1 }) (done tt) admitted.channel refl
        refl)

admitted-small : AllSmall 2 admitted.channel.queued
unfolding event_bytes
admitted-small = (omega arith, tt)

Reach-bytes_queued_example : bytes_queued admitted.channel.queued ≤ 1024 * 2
Reach-bytes_queued_example = Reach-bytes_queued 2 idle-Balanced admits refl admitted-small

abbrev metrics : Metrics
metrics = record {
  events_received = 0;
  events_sent = 0;
  events_failed = 0;
  events_dropped = 0;
  errors = 0;
  last_error = false;
  channel_bytes = 0;
}

abbrev status : StatusRegistry
status = record { inputs = []; outputs = [] }

-- A router with a channel for one event.
abbrev router : List Ev → RouterEntry Ev (CompiledCondition ℕ ℕ String)
router queued = record {
  id = "out";
  failover_for = none;
  when = none;
  queued = queued;
  capacity = 1;
  closed = false;
  shed = 0;
}

abbrev two_routers : List (RouterEntry Ev (CompiledCondition ℕ ℕ String))
two_routers = router (event ∷ []) ∷ router [] ∷ []

one_saturated : count json texts status (saturated json texts status event) two_routers ≡ 1
unfolding saturated wants
one_saturated = refl

fan_out-offer_example :
    ((fan_out json texts status false event two_routers metrics).0
      ≡ map (λ r. (offer json texts status false event r metrics).0) two_routers)
    × ((fan_out json texts status false event two_routers metrics).1.events_dropped
        ≡ 0 + count json texts status (saturated json texts status event) two_routers)
fan_out-offer_example =
    fan_out-offer json texts status event two_routers metrics (rw one_saturated (omega arith))

abbrev pipeline : Pipeline Ev ℕ ℕ String
pipeline = record {
  channel = record admitted.channel { queued = event ∷ event ∷ [] };
  transformer = [];
  enricher = record {
    hostname = none;
    os = none;
    local_ip = none;
    environment = some "prod";
    site = none;
    tenant = none;
    customer = none;
    tags = [];
    fields = [];
  };
  routers = two_routers;
  status = status;
  metrics = metrics;
}

none_filtered : filtered_out json texts numbers host [] (event ∷ event ∷ []) ≡ 0
unfolding filtered_out apply
none_filtered = refl

drain-Drained_example :
    Drained json texts numbers host
      (event ∷ event ∷ [])
      pipeline
      (drain json texts numbers host 2 pipeline)
drain-Drained_example =
    drain-Drained json texts numbers host 2 (event ∷ event ∷ []) pipeline refl (omega arith)
      (refl, (refl, tt)) (rw none_filtered (omega arith))

abbrev keep_queue : DiskQueue → DiskQueue
keep_queue q = q

push_blocking-Answers_example :
    Answers byte_codec 1 9
      (woken keep_queue ∷ cancelled ∷ [])
      (queue block 18)
      (push_blocking byte_codec 1 9 (woken keep_queue ∷ cancelled ∷ []) (queue block 18)).0
      (push_blocking byte_codec 1 9 (woken keep_queue ∷ cancelled ∷ []) (queue block 18)).1
push_blocking-Answers_example =
    push_blocking-Answers byte_codec 0 9 (woken keep_queue ∷ cancelled ∷ []) (queue block 18) refl
      ((λ q h. h), tt)
