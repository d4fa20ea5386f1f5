-- ===== src/Engine/Router.antt =====
-- src/engine.rs and src/buffer.rs: the router task of a destination, and `push_blocking`, which it
-- calls for a queue with the policy `block`.
pub mod Laws
use softnix_log_agent.Prelude.{
  ℕ, suc, ◌+◌, ◌%◌, ◌^◌, ◌<◌, ◌≤◌, ◌≡◌, refl, ap, Bool, true, false, Option, none, some, List, [],
  ◌∷◌, ◌++◌, Io, done, fail, length, ltb, ◌==◌, if◌then◌else◌, add64, arith,
}
use softnix_log_agent.Metrics.{Metrics, record_error}
use softnix_log_agent.Buffer.Record.{Codec, header_len}
use softnix_log_agent.Buffer.Record.RoundTrip.{IsPayload}
use softnix_log_agent.Buffer.Queue.{
  DiskQueue, FullPolicy, drop_oldest, Pushed, stored, rejected, full, error, looping, push,
}
use softnix_log_agent.Buffer.Fifo.Spec.{Held, Behind, Rep}
use softnix_log_agent.Buffer.Fifo.Spec.{total}
use softnix_log_agent.Buffer.Evict.Push.{Replaced, push-Replaced}

abbrev pub write_error_log_every : ℕ
write_error_log_every = 100

unfoldable pub should_log_write_error : ℕ → Bool
should_log_write_error n = n % write_error_log_every == 1

-- How a wait for space ends: woken, the queue meanwhile changed by its worker, or cancelled.
pub data Wait : Type 0 where
  woken : (DiskQueue → DiskQueue) → Wait
  cancelled : Wait

-- A router task: its queue, the metrics it shares, and its local count of failed writes.
pub record Router : Type 0 where
  pub queue : DiskQueue
  pub metrics : Metrics
  pub write_errors : ℕ

-- The arms of the `match` on a push. The text of the message is not modelled: `last_error` says
-- whether there is one.
unfoldable pub count_push : Pushed → Router → Router
unfolding record_error should_log_write_error
count_push (stored evicted) r =
    if ltb 0 evicted
    then record r {
      metrics = record r.metrics { events_dropped = add64 r.metrics.events_dropped evicted };
    }
    else r
count_push rejected r = record r {
  metrics = record r.metrics { events_dropped = add64 r.metrics.events_dropped 1 };
}
count_push full r = record r {
  metrics = record r.metrics { events_dropped = add64 r.metrics.events_dropped 1 };
}
count_push error r =
    let n = add64 r.write_errors 1 in
    let m = record r.metrics { events_dropped = add64 r.metrics.events_dropped 1 } in
    record r {
      write_errors = n;
      metrics =
          if should_log_write_error n
          then record_error m
          else record m { errors = add64 m.errors 1 };
    }
count_push looping r = r

module _ {E : Type 0} (codec : Codec E) where
  -- `push_blocking`, on the ends of its waits; `none` while it waits or a push has not ended.
  unfoldable pub push_blocking : ℕ → E → List Wait → DiskQueue → Option (Io Bool) × DiskQueue
  unfolding push
  push_blocking fuel ev [] q =
      let (r, p) = push codec fuel ev q in
      (
        elim r [
          | stored _ ↦ some (done true)
          | rejected ↦ some (done true)
          | full ↦ none
          | error ↦ some fail
          | looping ↦ none
        ],
        p,
      )
  push_blocking fuel ev (cancelled ∷ ws) q =
      let (r, p) = push codec fuel ev q in
      (
        elim r [
          | stored _ ↦ some (done true)
          | rejected ↦ some (done true)
          | full ↦ some (done false)
          | error ↦ some fail
          | looping ↦ none
        ],
        p,
      )
  push_blocking fuel ev (woken f ∷ ws) q =
      let (r, p) = push codec fuel ev q in
      let again = push_blocking fuel ev ws (f p) in
      elim r [
        | stored _ ↦ (some (done true), p)
        | rejected ↦ (some (done true), p)
        | full ↦ again
        | error ↦ (some fail, p)
        | looping ↦ (none, p)
      ]

  -- The outcome of `push_blocking` as that of a push.
  abbrev pub blocking_outcome : Option (Io Bool) → Pushed
  blocking_outcome none = looping
  blocking_outcome (some fail) = error
  blocking_outcome (some (done true)) = stored 0
  blocking_outcome (some (done false)) = rejected

  -- The body of the loop of `run_router`.
  unfoldable pub on_event : ℕ → Bool → List Wait → E → Router → Router
  unfolding push_blocking push count_push
  on_event fuel true waits ev r =
      let (o, q) = push_blocking fuel ev waits r.queue in
      count_push (blocking_outcome o) (record r { queue = q })
  on_event fuel false waits ev r =
      let (o, q) = push codec fuel ev r.queue in count_push o (record r { queue = q })
