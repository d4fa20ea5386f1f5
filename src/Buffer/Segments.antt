-- ===== src/Buffer/Segments.antt =====
-- src/buffer.rs: `roll_segment`, `reconcile_write_segment` and `drop_oldest_segment`.
use softnix_log_agent.Prelude.{
  ℕ, ◌-◌, Option, none, some, [], ◌∷◌, Io, done, fail, length, take, ltb, leb, ◌==◌, if◌then◌else◌,
  add64, saturating_add64,
}
use softnix_log_agent.Buffer.Record.{Codec, scan_segment}
use softnix_log_agent.Buffer.Disk.{
  Cursor, Inner, read, write, remove_file, insert, remove, draw, flush_writer,
}

-- `std::fs::metadata(path)`: the length of a file that is there
unfoldable pub metadata : ℕ → Inner → Option ℕ × Inner
unfolding draw read
metadata seg i =
    let (f, j) = draw i in
    elim f [
      | some _ ↦ (none, j)
      | none ↦ (elim (read j.disk seg) [ none ↦ none | some bs ↦ some (length bs) ], j)
    ]

-- `File::create`: a new file, or an old one cut to nothing
unfoldable pub create : ℕ → Inner → Io (Unit {0}) × Inner
unfolding draw
create seg i =
    let (f, j) = draw i in
    elim f [ some _ ↦ (fail, j) | none ↦ (done tt, record j { disk = write j.disk seg [] }) ]

-- `set_len`, to a length that the file has at least
unfoldable pub set_len : ℕ → ℕ → Inner → Io (Unit {0}) × Inner
unfolding draw read
set_len seg n i =
    let (f, j) = draw i in
    elim f [
      | some _ ↦ (fail, j)
      | none ↦ elim (read j.disk seg) [
        | none ↦ (fail, j)
        | some bs ↦ (done tt, record j { disk = write j.disk seg (take n bs) })
      ]
    ]

-- `remove_file(..).ok()`
unfoldable pub unlink : ℕ → Inner → Inner
unfolding draw
unlink seg i =
    let (f, j) = draw i in elim f [ some _ ↦ j | none ↦ record j { disk = remove_file j.disk seg } ]

module _ {E : Type 0} (codec : Codec E) where
  -- `scan_segment(&path, start, None)`; any of its calls may fail
  unfoldable pub scan_path : ℕ → ℕ → Inner → Option (ℕ × ℕ) × Inner
  unfolding draw read
  scan_path seg start i =
      let (f, j) = draw i in
      elim f [
        | some _ ↦ (none, j)
        | none ↦ (
          elim (read j.disk seg) [
            | none ↦ none
            | some bs ↦ some (scan_segment codec bs start none)
          ],
          j,
        )
      ]

  -- The new `write_off`: the length that was set, or what the file's length is after all.
  unfoldable pub reconciled_end : ℕ → Inner → ℕ × Inner
  reconciled_end valid_len i =
      let (r, j) = set_len i.write_seg valid_len i in
      elim r [
        | done _ ↦ (valid_len, j)
        | fail ↦
            let (m, k) = metadata j.write_seg j in (elim m [ none ↦ k.write_off | some n ↦ n ], k)
      ]

  unfoldable pub reconcile_counts : Option (ℕ × ℕ) → Inner → Inner
  reconcile_counts none i = i
  reconcile_counts (some (valid_len, valid_count)) i =
      let j = record i {
        count = i.count - (i.write_seg_count - valid_count);
        write_seg_count = valid_count;
      } in
      let (end, k) = reconciled_end valid_len j in
      record k { bytes = saturating_add64 (k.bytes - k.write_off) end; write_off = end }

  unfoldable pub reconcile_write_segment : Inner → Inner
  reconcile_write_segment i =
      let (scanned, j) = scan_path i.write_seg 0 i in reconcile_counts scanned j

  -- the part of `roll_segment` behind the flush: every call that may fail precedes the first change
  unfoldable pub roll_next : Inner → Io (Unit {0}) × Inner
  unfolding create
  roll_next i =
      let next = add64 i.write_seg 1 in
      let (r, j) = create next i in
      elim r [
        | fail ↦ (fail, j)
        | done _ ↦ (
          done tt,
          record j {
            write_seg = next;
            write_off = 0;
            write_seg_count = 0;
            segments = insert next j.segments;
          },
        )
      ]

  unfoldable pub roll_segment : Inner → Io (Unit {0}) × Inner
  roll_segment i =
      let (r, j) = flush_writer i in
      let closed = record j { writer = none } in
      elim r [ fail ↦ (fail, reconcile_write_segment closed) | done _ ↦ roll_next closed ]

  -- How many records of the segment at `oldest` were not acknowledged yet.
  unfoldable pub unacked_in : ℕ → Inner → ℕ × Inner
  unacked_in oldest i =
      if ltb oldest i.cursor.seg
      then (0, i)
      else let start = if i.cursor.seg == oldest then i.cursor.off else 0 in
        let (scanned, j) = scan_path oldest start i in
        (elim scanned [ none ↦ 0 | some (_, n) ↦ n ], j)

  -- the part of `drop_oldest_segment` behind the roll
  unfoldable pub drop_segment : ℕ → Inner → Io ℕ × Inner
  drop_segment oldest i =
      let (dropped, j) = unacked_in oldest i in
      let (md, k) = metadata oldest j in
      let freed : ℕ = elim md [ none ↦ k.bytes | some n ↦ k.bytes - n ] in
      let l = unlink oldest (record k { bytes = freed }) in
      let m = record l { segments = remove oldest l.segments; count = l.count - dropped } in
      elim m.segments [
        | [] ↦ (fail, m)
        | next ∷ _ ↦
            let c : Cursor =
              if leb m.cursor.seg oldest then record { seg = next; off = 0 } else m.cursor in
            (
              done dropped,
              record m { cursor = c; peek = if leb m.peek.seg oldest then c else m.peek },
            )
      ]

  -- The two `unwrap`s of the source panic on a queue without segments; they are failures here.
  unfoldable pub drop_oldest_segment : Inner → Io ℕ × Inner
  drop_oldest_segment i = elim i.segments [
    | [] ↦ (fail, i)
    | oldest ∷ _ ↦
        if oldest == i.write_seg
        then (let (r, j) = roll_segment i in
            elim r [ fail ↦ (fail, j) | done _ ↦ drop_segment oldest j ])
        else drop_segment oldest i
  ]
