-- ===== src/Engine/Budget.antt =====
-- src/engine.rs: `EventSender` and `ChannelBudget`. A send that waits is split where it waits: for
-- permits, and for room in the channel. The semaphore is never closed.
pub mod Traffic
pub mod Bounds
use softnix_log_agent.Prelude.{
  ℕ, suc, ◌+◌, ◌-◌, ◌*◌, ◌/◌, ◌%◌, ◌^◌, Bool, true, false, Option, none, some, List, [], ◌∷◌, ◌++◌,
  Io, done, fail, length, ltb, if◌then◌else◌, add64,
}
use Prim.Native.String.{String, len}
use softnix_log_agent.Event.{Event}

abbrev pub channel_capacity : ℕ
channel_capacity = 8192

abbrev pub channel_bytes : ℕ
channel_bytes = 64 * 1024 * 1024

-- What the clones of a sender share with the pipeline: the permits of the semaphore, the gauge
-- `agent_channel_bytes` (of a sender with metrics), and the channel.
pub record Channel (V : Type 0) : Type 0 where
  pub budget : ℕ
  pub gauge : ℕ
  pub attached : Bool
  pub queued : List V
  pub capacity : ℕ
  pub closed : Bool

-- A send that waits for room in the channel, with the number of permits that it holds.
pub record Sending (V : Type 0) : Type 0 where
  pub event : V
  pub permit : Option ℕ

module _ {V : Type 0} where
  unfoldable pub with_budget : ℕ → ℕ → Channel V
  with_budget capacity bytes = record {
    budget = bytes / 1024;
    gauge = 0;
    attached = false;
    queued = [];
    capacity = capacity;
    closed = false;
  }

  unfoldable pub with_metrics : ℕ → Channel V → Channel V
  with_metrics gauge c = record c { gauge = gauge; attached = true }

module _ {Time Num Tree : Type 0} where
  unfoldable pub event_bytes : Event Time Num Tree → ℕ
  event_bytes ev = (len ev.message + elim ev.raw_message [ none ↦ 0 | some r ↦ len r ]) % 2 ^ 64

  -- In KB, rounded up, at least one; cut to a `u32`.
  unfoldable pub permits_for : Event Time Num Tree → ℕ
  unfolding event_bytes
  permits_for ev = let kb = (event_bytes ev + 1023) / 1024 in (if ltb kb 1 then 1 else kb) % 2 ^ 32

  unfoldable pub credit :
      Event Time Num Tree → Channel (Event Time Num Tree) → Channel (Event Time Num Tree)
  unfolding event_bytes
  credit ev c = if c.attached then record c { gauge = add64 c.gauge (event_bytes ev) } else c

  -- `fetch_sub`, which wraps
  unfoldable pub uncredit :
      Event Time Num Tree → Channel (Event Time Num Tree) → Channel (Event Time Num Tree)
  unfolding event_bytes
  uncredit ev c =
      if c.attached then record c { gauge = (c.gauge + (2 ^ 64 - event_bytes ev)) % 2 ^ 64 } else c

  -- `send` up to the wait for room; `none` while it waits for permits.
  unfoldable pub begin_send :
      Event Time Num Tree
      → Channel (Event Time Num Tree)
      → Option (Sending (Event Time Num Tree) × Channel (Event Time Num Tree))
  unfolding permits_for credit
  begin_send ev c =
      let n = permits_for ev in
      if ltb c.budget n
      then none
      else some
          (record { event = ev; permit = some n }, credit ev (record c { budget = c.budget - n }))

  -- A round of the loop of `blocking_send`, and what follows the loop up to the wait for room.
  unfoldable pub begin_blocking_send :
      Bool
      → Event Time Num Tree
      → Channel (Event Time Num Tree)
      → Option (Sending (Event Time Num Tree) × Channel (Event Time Num Tree))
  unfolding begin_send credit
  begin_blocking_send cancelled ev c = elim (begin_send ev c) [
    | some r ↦ some r
    | none ↦ if cancelled then some (record { event = ev; permit = none }, credit ev c) else none
  ]

  -- The permits of a send that fails go back to the semaphore.
  unfoldable pub give_back :
      Option ℕ → Channel (Event Time Num Tree) → Channel (Event Time Num Tree)
  give_back none c = c
  give_back (some n) c = record c { budget = c.budget + n }

  -- The end of `send` and `blocking_send`; `none` while the channel has no room.
  unfoldable pub end_send :
      Sending (Event Time Num Tree)
      → Channel (Event Time Num Tree)
      → Option (Io (Unit {0}) × Channel (Event Time Num Tree))
  unfolding give_back uncredit
  end_send s c =
      if c.closed
      then some (fail, uncredit s.event (give_back s.permit c))
      else if ltb (length c.queued) c.capacity
      then some (done tt, record c { queued = c.queued ++ s.event ∷ [] })
      else none

  unfoldable pub release :
      Event Time Num Tree → Channel (Event Time Num Tree) → Channel (Event Time Num Tree)
  unfolding permits_for event_bytes
  release ev c = record c { budget = c.budget + permits_for ev; gauge = c.gauge - event_bytes ev }

  -- The next event of the channel, released.
  unfoldable pub receive :
      Channel (Event Time Num Tree) → Option (Event Time Num Tree × Channel (Event Time Num Tree))
  unfolding release
  receive c = elim c.queued [
    | [] ↦ none
    | ev ∷ evs ↦ some (ev, release ev (record c { queued = evs }))
  ]
