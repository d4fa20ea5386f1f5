-- ===== src/Outputs/Worker.antt =====
-- src/outputs/worker.rs: the loop of an output worker. A round is a function of what the sink
-- answers; the queue's own failures are in its list of faults. How long a wait lasts is not modelled.
pub mod Round
pub mod Gate
pub mod Flow
pub mod Drain
use softnix_log_agent.Prelude.{
  ℕ, zero, suc, ◌+◌, ◌*◌, ◌%◌, ◌^◌, min, Bool, true, false, Option, none, some, List, [], ◌∷◌, ◌++◌,
  Io, done, fail, length, ltb, if◌then◌else◌, add64,
}
use Prim.Native.String.{String}
use softnix_log_agent.Metrics.{Metrics, OutputStatus, StatusRegistry, record_error, update_output}
use softnix_log_agent.Buffer.Record.{Codec}
use softnix_log_agent.Buffer.Queue.{DiskQueue, has_data}
use softnix_log_agent.Buffer.Reader.{peek_batch, ack, reset_peek}

abbrev pub unhealthy_after : ℕ
unhealthy_after = 3

abbrev pub peek_max_bytes : ℕ
peek_max_bytes = 8 * 1024 * 1024

pub record RetryConfig : Type 0 where
  pub initial_backoff_ms : ℕ
  pub max_backoff_ms : ℕ
  pub batch_size : ℕ

-- `OutputWorker` with what its loop shares and carries.
pub record Worker : Type 0 where
  pub id : String
  pub queue : DiskQueue
  pub retry : RetryConfig
  pub backoff : ℕ
  pub status : StatusRegistry
  pub metrics : Metrics

abbrev pub sent_status : ℕ → OutputStatus → OutputStatus
sent_status n s = record s {
  events_sent = add64 s.events_sent n;
  healthy = true;
  connected = true;
  consecutive_failures = 0;
  last_error = false;
}

abbrev pub failed_status : OutputStatus → OutputStatus
failed_status s = record s {
  retries = add64 s.retries 1;
  consecutive_failures = add64 s.consecutive_failures 1;
  connected = false;
  healthy = ltb (add64 s.consecutive_failures 1) unhealthy_after;
  last_error = true;
}

-- `queue.ack`, with a failure counted
unfoldable pub ack_sent : ℕ → Worker → Worker
unfolding record_error
ack_sent n w =
    let (r, q) = ack n w.queue in
    elim r [
      | done _ ↦ record w { queue = q }
      | fail ↦ record w { queue = q; metrics = record_error w.metrics }
    ]

-- The arm `Ok(n)` of a round: the counters first, then the acknowledgement.
unfoldable pub on_sent : ℕ → Worker → Worker
unfolding update_output
on_sent n w = ack_sent n (record w {
  metrics = record w.metrics { events_sent = add64 w.metrics.events_sent n };
  backoff = w.retry.initial_backoff_ms;
  status = update_output w.id (sent_status n) w.status;
})

-- The arm `Err(e)`, up to the wait.
unfoldable pub on_failed : ℕ → Worker → Worker
unfolding update_output record_error reset_peek
on_failed len w = record w {
  queue = reset_peek w.queue;
  metrics = record_error (record w.metrics { events_failed = add64 w.metrics.events_failed len });
  status = update_output w.id failed_status w.status;
}

-- `backoff = (backoff * 2).min(self.retry.max_backoff_ms)`
unfoldable pub next_backoff : Worker → Worker
next_backoff w = record w { backoff = min (w.backoff * 2 % 2 ^ 64) w.retry.max_backoff_ms }

-- How a round ends: in front of the next, or, cancelled during the wait, with the loop.
pub data Turn : Type 0 where
  again stopped : Worker → Turn

-- A partial answer of the sink is a failure of the whole batch.
unfoldable pub whole_batch : ℕ → Io ℕ → Io ℕ
whole_batch len fail = fail
whole_batch len (done n) = if ltb n len then fail else done n

unfoldable pub on_outcome : ℕ → Bool → Io ℕ → Worker → Turn
unfolding next_backoff
on_outcome len cancelled (done n) w = again (on_sent n w)
on_outcome len cancelled fail w =
    let failed = on_failed len w in
    if cancelled then stopped failed else again (next_backoff failed)

module _ {E : Type 0} (codec : Codec E) where
  -- The batch that a round has read, none where the read failed.
  unfoldable pub read_batch : Worker → List E × Worker
  unfolding record_error
  read_batch w =
      let (peeked, q) = peek_batch codec w.retry.batch_size peek_max_bytes w.queue in
      elim peeked [
        | fail ↦ ([], record w { queue = q; metrics = record_error w.metrics })
        | done batch ↦ (batch, record w { queue = q })
      ]

  -- What a round does with its batch: `sink` answers it, and `cancelled` says whether the wait behind
  -- a failure is cut short.
  unfoldable pub answer_batch : (List E → Io ℕ) → Bool → List E → Worker → Turn
  unfolding whole_batch
  answer_batch sink cancelled [] w = again w
  answer_batch sink cancelled (ev ∷ evs) w =
      on_outcome (length (ev ∷ evs)) cancelled (whole_batch (length (ev ∷ evs)) (sink (ev ∷ evs))) w

  -- One round of the loop, behind `wait_data`.
  unfoldable pub round : (List E → Io ℕ) → Bool → Worker → Turn
  unfolding read_batch answer_batch
  round sink cancelled w =
      let (batch, read) = read_batch w in answer_batch sink cancelled batch read

  -- One pass of the loop: where `wait_data` finds nothing, the worker goes on waiting.
  unfoldable pub pass : (List E → Io ℕ) → Bool → Worker → Turn
  unfolding has_data
  pass sink cancelled w = if has_data w.queue then round sink cancelled w else again w

  -- The answer of the sink to the last batch; `none` if it takes longer than three seconds.
  unfoldable pub flush_batch : List E → Option (Io ℕ) → Worker → Worker
  flush_batch batch none w = record w { queue = reset_peek w.queue }
  flush_batch batch (some fail) w = record w { queue = reset_peek w.queue }
  flush_batch batch (some (done n)) w = record w {
    metrics = record w.metrics { events_sent = add64 w.metrics.events_sent n };
    queue = (ack n w.queue).1;
  }

  -- What follows the loop: one more batch, and the status.
  unfoldable pub finish : (List E → Option (Io ℕ)) → Worker → Worker
  unfolding update_output flush_batch
  finish sink w =
      let (peeked, q) = peek_batch codec w.retry.batch_size peek_max_bytes w.queue in
      let read = record w { queue = q } in
      let flushed : Worker = elim peeked [
        | fail ↦ read
        | done batch ↦ elim batch [
          | [] ↦ read
          | ev ∷ evs ↦ flush_batch (ev ∷ evs) (sink (ev ∷ evs)) read
        ]
      ] in
      record flushed {
        status = update_output w.id (λ s. record s { connected = false }) flushed.status;
      }
