-- ===== src/Buffer/Queue.antt =====
-- src/buffer.rs: `DiskQueue`, its `push` and the queries. A method takes the queue and returns it
-- beside its result. The mutex makes each of them one step.
use softnix_log_agent.Prelude.{
  ℕ, zero, suc, ◌+◌, ◌/◌, Bool, false, ◌&&◌, not, Option, none, some, List, [], Io, done, fail,
  length, ltb, leb, ◌==◌, if◌then◌else◌, add64,
}
use softnix_log_agent.Buffer.Record.{Codec, header_len, encode_record}
use softnix_log_agent.Buffer.Disk.{Cursor, Inner, write, content, draw, write_all}
use softnix_log_agent.Buffer.Segments.{reconcile_write_segment, roll_segment, drop_oldest_segment}

pub data FullPolicy : Type 0 where
  block drop_oldest drop_newest : FullPolicy

-- `saved` is what `cursor.json` holds, `none` if it is missing or unreadable.
pub record DiskQueue : Type 0 where
  pub inner : Inner
  pub saved : Option Cursor
  pub max_bytes : ℕ
  pub seg_bytes : ℕ
  pub policy : FullPolicy
  pub dropped : ℕ
  pub corrupt : ℕ

-- `PushOutcome`, and the ways in which `push` returns no outcome: an error, or a loop that has not
-- ended on its fuel.
pub data Pushed : Type 0 where
  stored : ℕ → Pushed
  rejected full error looping : Pushed

-- How the loop in front of the write ends; `room` with the number of evicted events.
pub data Room : Type 0 where
  room : ℕ → Room
  no_room : Pushed → Room

-- `if inner.writer.is_none() { .. }`: opens the write segment for appending, created if missing
unfoldable pub open_writer : Inner → Io (Unit {0}) × Inner
unfolding draw content
open_writer i = elim i.writer [
  | some _ ↦ (done tt, i)
  | none ↦
      let (f, j) = draw i in
      elim f [
        | some _ ↦ (fail, j)
        | none ↦ (
          done tt,
          record j {
            disk = write j.disk j.write_seg (content j.disk j.write_seg);
            writer = some [];
          },
        )
      ]
]

-- How a round of that loop ends: with the loop, or in front of the next round.
pub data Round : Type 0 where
  stop : Room → DiskQueue → Round
  again : ℕ → DiskQueue → Round

module _ {E : Type 0} (codec : Codec E) where
  -- One round of the loop `while inner.bytes + rec_len > self.max_bytes { .. }`
  unfoldable pub evict : ℕ → DiskQueue → Round
  evict evicted q =
      let (r, i) = drop_oldest_segment codec q.inner in
      elim r [
        | fail ↦ stop (no_room error) (record q { inner = i })
        | done n ↦ again (add64 evicted n) (record q { inner = i; dropped = add64 q.dropped n })
      ]

  unfoldable pub round : ℕ → ℕ → DiskQueue → Round
  round rec_len evicted q =
      if ltb q.max_bytes (add64 q.inner.bytes rec_len)
      then elim q.policy [
        | block ↦ stop (no_room full) q
        | drop_newest ↦ stop (no_room rejected) (record q { dropped = add64 q.dropped 1 })
        | drop_oldest ↦ evict evicted q
      ]
      else stop (room evicted) q

  unfoldable pub make_room : ℕ → ℕ → ℕ → DiskQueue → Room × DiskQueue
  make_room zero rec_len evicted q = (no_room looping, q)
  make_room (suc fuel) rec_len evicted q = elim (round rec_len evicted q) [
    | stop r p ↦ (r, p)
    | again e p ↦ make_room fuel rec_len e p
  ]

  -- the counters behind a successful write, and the roll of a full segment
  unfoldable pub count_record : ℕ → ℕ → Inner → Io (Unit {0}) × Inner
  count_record seg_bytes rec_len i =
      let j = record i {
        write_off = add64 i.write_off rec_len;
        bytes = add64 i.bytes rec_len;
        count = add64 i.count 1;
        write_seg_count = add64 i.write_seg_count 1;
      } in
      if leb seg_bytes j.write_off then roll_segment codec j else (done tt, j)

  -- A failed write: the buffer is discarded, the counters are derived again, and a new segment is
  -- begun. `push` fails whether or not that works.
  unfoldable pub abandon_write : Inner → Inner
  abandon_write i =
      (roll_segment codec (reconcile_write_segment codec (record i { writer = none }))).1

  -- the part of `push` behind the loop, on the fields that it may change
  unfoldable pub append_record : ℕ → List ℕ → Inner → Io (Unit {0}) × Inner
  append_record seg_bytes payload i =
      let (opened, j) = open_writer i in
      elim opened [
        | fail ↦ (fail, j)
        | done _ ↦
            let (written, k) = write_all (encode_record codec payload) j in
            elim written [
              | fail ↦ (fail, abandon_write k)
              | done _ ↦ count_record seg_bytes (header_len + length payload) k
            ]
      ]

  unfoldable pub store : List ℕ → ℕ → DiskQueue → Pushed × DiskQueue
  store payload evicted q =
      let (r, i) = append_record q.seg_bytes payload q.inner in
      (elim r [ fail ↦ error | done _ ↦ stored evicted ], record q { inner = i })

  unfoldable pub push_payload : ℕ → List ℕ → DiskQueue → Pushed × DiskQueue
  push_payload fuel payload q =
      let (r, p) = make_room fuel (header_len + length payload) 0 q in
      elim r [ no_room why ↦ (why, p) | room evicted ↦ store payload evicted p ]

  -- `push`; an event that cannot be serialised changes nothing. The fuel is for the loop.
  unfoldable pub push : ℕ → E → DiskQueue → Pushed × DiskQueue
  push fuel ev q = elim (codec.to_vec ev) [
    | none ↦ (error, q)
    | some payload ↦ push_payload fuel payload q
  ]

unfoldable pub len : DiskQueue → ℕ
len q = q.inner.count

unfoldable pub is_empty : DiskQueue → Bool
unfolding len
is_empty q = len q == 0

unfoldable pub is_full : DiskQueue → Bool
is_full q =
    if q.inner.count == 0
    then false
    else leb q.max_bytes (add64 q.inner.bytes (q.inner.bytes / q.inner.count))

-- The test of `wait_data`: data behind the peek position, and events that are counted.
unfoldable pub has_data : DiskQueue → Bool
has_data q =
    not ((q.inner.peek.seg == q.inner.write_seg) && (q.inner.peek.off == q.inner.write_off))
    && ltb 0 q.inner.count
