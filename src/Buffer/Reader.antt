-- ===== src/Buffer/Reader.antt =====
-- src/buffer.rs: `peek_batch`, `ack`, `reset_peek` and `oldest_age_secs`.
use softnix_log_agent.Prelude.{
  ℕ, zero, suc, ◌+◌, ◌-◌, Bool, true, false, ◌||◌, ◌&&◌, Option, none, some, List, [], ◌∷◌, ◌++◌,
  Io, done, fail, length, drop, ltb, leb, ◌==◌, if◌then◌else◌, add64, saturating_add64,
}
use softnix_log_agent.Buffer.Record.{Codec, ok, corrupt, eof, read_record}
use softnix_log_agent.Buffer.Disk.{
  Cursor, Inner, read, remove, range_from, range_upto, draw, flush_writer,
}
use softnix_log_agent.Buffer.Segments.{metadata, unlink}
use softnix_log_agent.Buffer.Queue.{DiskQueue}

-- What the two loops of `peek_batch` carry: the batch, its bytes on disk, whether the byte budget
-- refused a record, the position in the segment, and the skipped records.
pub record Batch (E : Type 0) : Type 0 where
  pub out : List E
  pub peeked_bytes : ℕ
  pub budget_hit : Bool
  pub off : ℕ
  pub skipped : ℕ

module _ {E : Type 0} where
  abbrev pub empty_batch : Batch E
  empty_batch = record { out = []; peeked_bytes = 0; budget_hit = false; off = 0; skipped = 0 }

  -- A record that the budget admits: decoded into the batch, or counted as corrupt.
  unfoldable pub take_record : Option E → ℕ → Batch E → Batch E
  take_record (some ev) rec_len b = record b {
    out = b.out ++ ev ∷ [];
    peeked_bytes = saturating_add64 b.peeked_bytes rec_len;
    off = b.off + rec_len;
  }
  take_record none rec_len b = record b {
    peeked_bytes = saturating_add64 b.peeked_bytes rec_len;
    off = b.off + rec_len;
    skipped = suc b.skipped;
  }

  -- `!out.is_empty() && peeked_bytes.saturating_add(rec_len) > max_bytes`
  unfoldable pub over_budget : ℕ → ℕ → Batch E → Bool
  over_budget max_bytes rec_len b =
      ltb 0 (length b.out) && ltb max_bytes (saturating_add64 b.peeked_bytes rec_len)

module _ {E : Type 0} (codec : Codec E) (max max_bytes : ℕ) where
  -- The inner loop: one segment, opened at the position, whose bytes from there on are `file`.
  unfoldable pub peek_records : ℕ → List ℕ → ℕ → Batch E → Batch E
  peek_records zero file file_len b = b
  peek_records (suc fuel) file file_len b = elim (leb max (length b.out)) [
    | true ↦ b
    | false ↦ elim (read_record codec file file_len) [
      | ok payload rec_len ↦ elim (over_budget max_bytes rec_len b) [
        | true ↦ record b { budget_hit = true }
        | false ↦
            peek_records fuel (drop rec_len file) file_len
              (take_record (codec.from_slice payload) rec_len b)
      ]
      | corrupt skip ↦
          peek_records fuel (drop skip file) file_len
            (record b { off = b.off + skip; skipped = suc b.skipped })
      | eof ↦ b
    ]
  ]

  -- One segment of the outer loop. A failure after `k` records keeps the count of those skipped.
  unfoldable pub peek_segment : ℕ → Batch E → Inner → Io (Unit {0}) × Batch E × Inner
  unfolding peek_records draw read
  peek_segment seg b i =
      let (f, j) = draw i in
      elim (read j.disk seg) [
        | none ↦ (fail, b, j)
        | some bs ↦ elim f [
          | some k ↦ (fail, peek_records k (drop b.off bs) (length bs) b, j)
          | none ↦ (done tt, peek_records (suc (length bs)) (drop b.off bs) (length bs) b, j)
        ]
      ]

  -- The outer loop, from the position `pos`.
  unfoldable pub peek_segments : List ℕ → Cursor → Batch E → Inner → Io Cursor × Batch E × Inner
  peek_segments [] pos b i = (done pos, b, i)
  peek_segments (seg ∷ segs) pos b i = elim (leb max (length b.out) || b.budget_hit) [
    | true ↦ (done pos, b, i)
    | false ↦
        let (r, c, j) =
          peek_segment seg (record b { off = if seg == pos.seg then pos.off else 0 }) i in
        elim r [
          | fail ↦ (fail, c, j)
          | done _ ↦ peek_segments segs (record { seg = seg; off = c.off }) c j
        ]
  ]

  -- `peek_batch`; a failed flush goes unnoticed, and a failed read leaves the position alone.
  unfoldable pub peek_batch : DiskQueue → Io (List E) × DiskQueue
  unfolding flush_writer range_from peek_segments peek_segment
  peek_batch q =
      let i = (flush_writer q.inner).1 in
      let (r, b, j) = peek_segments (range_from i.peek.seg i.segments) i.peek empty_batch i in
      elim r [
        | fail ↦ (fail, record q { inner = j; corrupt = add64 q.corrupt b.skipped })
        | done pos ↦ (
          done b.out,
          record q { inner = record j { peek = pos }; corrupt = add64 q.corrupt b.skipped },
        )
      ]

-- One round of the loop of `ack` that deletes consumed segments.
unfoldable pub delete_segment : ℕ → Inner → Inner
unfolding metadata unlink
delete_segment seg i =
    let (md, j) = metadata seg i in
    let freed : ℕ = elim md [ none ↦ j.bytes | some n ↦ j.bytes - n ] in
    let k = unlink seg (record j { bytes = freed }) in record k { segments = remove seg k.segments }

-- `filter(|&s| s != inner.write_seg)`, and the loop over what is left
unfoldable pub delete_done : ℕ → List ℕ → Inner → Inner
delete_done write_seg [] i = i
delete_done write_seg (s ∷ r) i =
    delete_done write_seg r (if s == write_seg then i else delete_segment s i)

-- `ack`: the cursor is moved first and persisted last, so a failed write leaves the moved one.
unfoldable pub ack : ℕ → DiskQueue → Io (Unit {0}) × DiskQueue
unfolding delete_done delete_segment range_upto draw
ack acked_events q =
    let i = record q.inner { cursor = q.inner.peek; count = q.inner.count - acked_events } in
    let j = delete_done i.write_seg (range_upto i.cursor.seg i.segments) i in
    let (f, k) = draw j in
    elim f [
      | some _ ↦ (fail, record q { inner = k })
      | none ↦ (done tt, record q { inner = k; saved = some k.cursor })
    ]

unfoldable pub reset_peek : DiskQueue → DiskQueue
reset_peek q = record q { inner = record q.inner { peek = q.inner.cursor } }

module _ {E : Type 0} (codec : Codec E) where
  -- The event of the first record of a segment, if it can be read and decoded.
  unfoldable pub first_event : ℕ → List ℕ → Option E
  first_event start bs = elim (read_record codec (drop start bs) (length bs)) [
    | ok payload _ ↦ codec.from_slice payload
    | corrupt _ ↦ none
    | eof ↦ none
  ]

  -- The loop of `oldest_age_secs`: it ends at the first decodable event, and at a segment that
  -- cannot be opened (a failure before the first byte); one that cannot be read is passed over.
  unfoldable pub oldest_in : List ℕ → Cursor → Inner → Option E × Inner
  oldest_in [] cursor i = (none, i)
  oldest_in (seg ∷ segs) cursor i =
      let start : ℕ = if seg == cursor.seg then cursor.off else 0 in
      let (f, j) = draw i in
      let rest : Option E × Inner = oldest_in segs cursor j in
      elim (read j.disk seg) [
        | none ↦ (none, j)
        | some bs ↦ elim f [
          | some zero ↦ (none, j)
          | some (suc _) ↦ rest
          | none ↦ elim (first_event start bs) [ some ev ↦ (some ev, j) | none ↦ rest ]
        ]
      ]

  -- The event whose age `oldest_age_secs` reports.
  unfoldable pub oldest_event : DiskQueue → Option E × DiskQueue
  unfolding oldest_in first_event flush_writer range_from draw read
  oldest_event q =
      if q.inner.count == 0
      then (none, q)
      else let i = (flush_writer q.inner).1 in
        let (r, j) = oldest_in (range_from i.cursor.seg i.segments) i.cursor i in
        (r, record q { inner = j })
