-- ===== src/Buffer/Open.antt =====
-- src/buffer.rs: `DiskQueue::open`. The directory listing is the list of the disk's files.
use softnix_log_agent.Prelude.{
  ℕ, ◌*◌, ◌%◌, ◌^◌, Option, none, some, List, [], ◌∷◌, Io, done, fail, ltb, ◌==◌, if◌then◌else◌,
  add64,
}
use softnix_log_agent.Buffer.Record.{Codec}
use softnix_log_agent.Buffer.Disk.{Disk, Cursor, Inner, insert, range_from}
use softnix_log_agent.Buffer.Segments.{metadata, create, set_len, scan_path}
use softnix_log_agent.Buffer.Queue.{DiskQueue, FullPolicy}

-- the `BufferConfig` fields that `open` reads
pub record BufferConfig : Type 0 where
  pub max_size_mb : ℕ
  pub segment_size_mb : ℕ
  pub full_policy : FullPolicy

unfoldable pub seg_numbers : Disk → List ℕ
unfolding insert
seg_numbers [] = []
seg_numbers ((s, _) ∷ d) = insert s (seg_numbers d)

-- `*segments.iter().last().unwrap()`; `open` never asks it of an empty set
unfoldable pub last_or : ℕ → List ℕ → ℕ
last_or d [] = d
last_or d (s ∷ r) = last_or s r

-- The clamp of a cursor to a segment that is there.
unfoldable pub clamp_cursor : List ℕ → ℕ → Cursor → Cursor
unfolding range_from
clamp_cursor segments write_seg c = elim (range_from c.seg segments) [
  | [] ↦ record { seg = write_seg; off = 0 }
  | next ∷ _ ↦ if next == c.seg then c else record { seg = next; off = 0 }
]

module _ {E : Type 0} (codec : Codec E) where
  -- `count += n` for a segment at or behind the cursor
  unfoldable pub count_segment : ℕ → Cursor → Inner → Io ℕ × Inner
  unfolding scan_path
  count_segment seg cursor i =
      if ltb seg cursor.seg
      then (done 0, i)
      else let (scanned, j) = scan_path codec seg (if seg == cursor.seg then cursor.off else 0) i in
        (elim scanned [ none ↦ fail | some (_, n) ↦ done n ], j)

  -- The loop that counts the events not yet acknowledged, and all bytes.
  unfoldable pub count_segments : List ℕ → Cursor → Inner → Io (Unit {0}) × Inner
  count_segments [] cursor i = (done tt, i)
  count_segments (seg ∷ segs) cursor i =
      let (md, j) = metadata seg i in
      elim md [
        | none ↦ (fail, j)
        | some size ↦
            let (r, k) = count_segment seg cursor (record j { bytes = add64 j.bytes size }) in
            elim r [
              | fail ↦ (fail, k)
              | done n ↦ count_segments segs cursor (record k { count = add64 k.count n })
            ]
      ]

  -- The repair of the write segment: it is cut behind its last readable record.
  unfoldable pub repair : Inner → Io (Unit {0}) × Inner
  unfolding scan_path set_len
  repair i =
      let (scanned, j) = scan_path codec i.write_seg 0 i in
      elim scanned [
        | none ↦ (fail, j)
        | some (valid_len, n) ↦ set_len j.write_seg valid_len (record j { write_seg_count = n })
      ]

  -- the part of `open` behind the repair
  unfoldable pub load : Option Cursor → Inner → Io (Unit {0}) × Inner
  unfolding clamp_cursor count_segments metadata
  load saved i =
      let start : Cursor = elim saved [ none ↦ record { seg = 0; off = 0 } | some c ↦ c ] in
      let c = clamp_cursor i.segments i.write_seg start in
      let (r, j) = count_segments i.segments c (record i { cursor = c; peek = c }) in
      elim r [
        | fail ↦ (fail, j)
        | done _ ↦
            let (md, k) = metadata j.write_seg j in
            elim md [ none ↦ (fail, k) | some n ↦ (done tt, record k { write_off = n }) ]
      ]

  -- An `Inner` with nothing loaded.
  abbrev blank : Disk → List (Option ℕ) → List ℕ → Inner
  blank disk faults segments = record {
    disk = disk;
    faults = faults;
    segments = segments;
    write_seg = last_or 0 segments;
    write_off = 0;
    write_seg_count = 0;
    writer = none;
    cursor = record { seg = 0; off = 0 };
    peek = record { seg = 0; off = 0 };
    count = 0;
    bytes = 0;
  }

  -- the listing, and the first segment of an empty directory
  unfoldable pub list_segments : Disk → List (Option ℕ) → Io (Unit {0}) × Inner
  unfolding seg_numbers create last_or
  list_segments disk faults = elim (seg_numbers disk) [
    | [] ↦ create 0 (blank disk faults (0 ∷ []))
    | s ∷ r ↦ (done tt, blank disk faults (s ∷ r))
  ]

  unfoldable pub open_inner : Option Cursor → Disk → List (Option ℕ) → Io (Unit {0}) × Inner
  unfolding list_segments repair load
  open_inner saved disk faults =
      let (listed, i) = list_segments disk faults in
      elim listed [
        | fail ↦ (fail, i)
        | done _ ↦
            let (repaired, j) = repair i in
            elim repaired [ fail ↦ (fail, j) | done _ ↦ load saved j ]
      ]

  -- `DiskQueue::open`: the queue, or what a failed start has left on the disk
  unfoldable pub open_queue :
      BufferConfig → Option Cursor → Disk → List (Option ℕ) → Io DiskQueue × Disk
  unfolding open_inner
  open_queue cfg saved disk faults =
      let (r, i) = open_inner saved disk faults in
      (
        elim r [
          | fail ↦ fail
          | done _ ↦ done (record {
            inner = i;
            saved = saved;
            max_bytes = cfg.max_size_mb * 1024 * 1024 % 2 ^ 64;
            seg_bytes = cfg.segment_size_mb * 1024 * 1024 % 2 ^ 64;
            policy = cfg.full_policy;
            dropped = 0;
            corrupt = 0;
          })
        ],
        i.disk,
      )
