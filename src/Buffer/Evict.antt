-- ===== src/Buffer/Evict.antt =====
-- src/buffer.rs: `drop_oldest_segment` on a queue of records.
pub mod Loop
pub mod Room
pub mod Push
use softnix_log_agent.Prelude.{
  ℕ, zero, suc, ◌+◌, ◌-◌, ◌<◌, ◌≤◌, ◌%◌, ◌^◌, ◌≡◌, ◌⊎◌, inl, inr, refl, ap, sym, ◌∙◌, subst, Bool,
  true, false, Option, none, some, List, [], ◌∷◌, ◌++◌, Io, done, fail, length, arith, ltb, leb,
  ◌==◌, if◌then◌else◌, lt→ltb, ge→ltb, ne→==, ==-refl, append-nil, append_assoc, Bool-cases,
  Option-cases, add64, drop, length-append, drop-length-append,
}
use softnix_log_agent.Buffer.Record.{Codec, scan_segment, scan_loop, read_record, eof}
use softnix_log_agent.Buffer.Record.Recovery.{
  encode_all, encode_all-append, AllPayloads, scan_segment-behind, length-le-encode_all,
}
use softnix_log_agent.Buffer.Disk.{Cursor, Inner, read, remove_file, draw, remove, buffered}
use softnix_log_agent.Buffer.Segments.{
  metadata, unlink, scan_path, unacked_in, drop_segment, drop_oldest_segment, roll_segment,
}
use softnix_log_agent.Buffer.Fifo.Spec.{Held, numbers, payloads, Holds, Behind, Rep, view}
use softnix_log_agent.Buffer.Fifo.Files.{read-remove_file, Holds-Ordered}
use softnix_log_agent.Buffer.Fifo.Walk.{AllPayloads-append}
use softnix_log_agent.Buffer.Fifo.Trim.{Holds-above, Holds-lt}

module _ {E : Type 0} (codec : Codec E) where
  -- The scan of `drop_oldest_segment`, for a cursor in or behind the oldest segment.
  unacked_in-passed : (s : ℕ) (i : Inner) → s < i.cursor.seg → unacked_in codec s i ≡ (0, i)
  unfolding unacked_in
  unacked_in-passed s i lt = rw (lt→ltb s i.cursor.seg lt)

  unacked_in-held :
      (s : ℕ) (i : Inner) (bs : List ℕ)
      → i.cursor.seg ≡ s
      → i.faults ≡ []
      → read i.disk s ≡ some bs
      → unacked_in codec s i ≡ ((scan_segment codec bs i.cursor.off none).1, i)
  unfolding unacked_in scan_path draw
  unacked_in-held s i bs e f r = ground arith

  -- What the deletion of the oldest segment leaves.
  record Dropped (s t n size : ℕ) (i j : Inner) : Type 0 where
    no_faults : j.faults ≡ []
    segments : j.segments ≡ remove s i.segments
    disk : j.disk ≡ remove_file i.disk s
    write_seg : j.write_seg ≡ i.write_seg
    writer : j.writer ≡ i.writer
    count : j.count ≡ i.count - n
    bytes : j.bytes ≡ i.bytes - size
    cursor : j.cursor ≡ (if leb i.cursor.seg s then record { seg = t; off = 0 } else i.cursor)
    peek : j.peek ≡ (if leb i.peek.seg s then j.cursor else i.peek)

  drop_segment-done :
      (s t n : ℕ) (r : List ℕ) (i : Inner) (bs : List ℕ) (c : Cursor)
      → i.faults ≡ []
      → read i.disk s ≡ some bs
      → remove s i.segments ≡ t ∷ r
      → unacked_in codec s i ≡ (n, i)
      → (if leb i.cursor.seg s then record { seg = t; off = 0 } else i.cursor) ≡ c
      → drop_segment codec s i ≡ (
        done n,
        record i {
          disk = remove_file i.disk s;
          bytes = i.bytes - length bs;
          segments = remove s i.segments;
          count = i.count - n;
          cursor = c;
          peek = if leb i.peek.seg s then c else i.peek;
        },
      )
  unfolding drop_segment metadata unlink draw
  drop_segment-done s t n r i bs c f e m u k = ground arith

  drop_segment-Dropped :
      (s t n : ℕ) (r : List ℕ) (i : Inner) (bs : List ℕ)
      → i.faults ≡ []
      → read i.disk s ≡ some bs
      → remove s i.segments ≡ t ∷ r
      → unacked_in codec s i ≡ (n, i)
      → (j : Inner) × (drop_segment codec s i ≡ (done n, j)) × Dropped s t n (length bs) i j
  drop_segment-Dropped s t n r i bs f e m u = (
    record i {
      disk = remove_file i.disk s;
      bytes = i.bytes - length bs;
      segments = remove s i.segments;
      count = i.count - n;
      cursor = c;
      peek = if leb i.peek.seg s then c else i.peek;
    },
    drop_segment-done s t n r i bs c f e m u refl,
    record {
      no_faults = f;
      segments = refl;
      disk = refl;
      write_seg = refl;
      writer = refl;
      count = refl;
      bytes = refl;
      cursor = refl;
      peek = refl;
    },
  )
    where
      c : Cursor
      c = if leb i.cursor.seg s then record { seg = t; off = 0 } else i.cursor

  read_of_view :
      (i : Inner) (s : ℕ) (x : List ℕ)
      → s < i.write_seg
      → view i s ≡ some x
      → read i.disk s ≡ some x
  unfolding view
  read_of_view i s x lt h = ground (arith, ne→== s i.write_seg (λ e. omega arith))

  view-Dropped :
      (s t n size : ℕ) (i j : Inner)
      → Dropped s t n size i j
      → (u : ℕ) (bs : List ℕ) → s < u
      → view i u ≡ some bs
      → view j u ≡ some bs
  unfolding view
  view-Dropped s t n size i j d u bs lt h =
      ground (arith, d.disk, d.writer, d.write_seg, read-remove_file i.disk s u)

  -- What the eviction of the oldest segment has done: the oldest records that were not acknowledged
  -- are gone and counted, all others stay, and the bytes of the segment are free.
  pub record Evicted (ps : List (List ℕ)) (held : Held) (rest : List (List ℕ)) (n : ℕ) (i j : Inner)
      : Type 0 where
    pub gone : List (List ℕ)
    pub left : List (List ℕ)
    pub split : rest ≡ gone ++ left
    pub counted : n ≡ length gone
    pub rep : Rep codec j held
    pub behind : Behind codec j.cursor held left
    pub count : j.count ≡ i.count - n
    pub bytes : j.bytes ≡ i.bytes - length (encode_all codec ps)
    pub write_seg : j.write_seg ≡ i.write_seg

  module _ (s t : ℕ) (ps qs : List (List ℕ)) (r : Held) (i : Inner)
      (h : Rep codec i ((s, ps) ∷ (t, qs) ∷ r)) where
    lt : s < i.write_seg
    lt = Holds-lt codec (view i) i.write_seg s t ps qs r h.holds

    file : read i.disk s ≡ some (encode_all codec ps)
    file = read_of_view i s (encode_all codec ps) lt h.holds.1

    behind_oldest : remove s i.segments ≡ t ∷ numbers r
    unfolding remove
    behind_oldest = ap (remove s) h.listed ∙ rw (==-refl s)

    Rep-Dropped :
        (n : ℕ) (j : Inner)
        → Dropped s t n (length (encode_all codec ps)) i j
        → Rep codec j ((t, qs) ∷ r)
    Rep-Dropped n j d = record {
      no_faults = d.no_faults;
      listed = d.segments ∙ behind_oldest;
      holds =
          subst (λ w. Holds codec (view j) w ((t, qs) ∷ r)) (sym d.write_seg)
            (Holds-above codec (view i) (view j) i.write_seg s ((t, qs) ∷ r)
              (view-Dropped s t n (length (encode_all codec ps)) i j d)
              (Holds-Ordered codec (view i) i.write_seg ((s, ps) ∷ (t, qs) ∷ r) h.holds) h.holds.3);
    }

    scanned :
        (before behind : List (List ℕ))
        → ps ≡ before ++ behind
        → i.cursor.off ≡ length (encode_all codec before)
        → (scan_segment codec (encode_all codec ps) i.cursor.off none).1 ≡ length behind
    scanned before behind q off =
        rw (q, off)
          (ap (λ (z : ℕ × ℕ). z.1)
            (scan_segment-behind codec before behind
              (AllPayloads-append codec before behind (subst (AllPayloads codec) q h.holds.2))))

    -- Dropping the oldest of several segments.
    pub drop_segment-Evicted :
        (rest : List (List ℕ))
        → Behind codec i.cursor ((s, ps) ∷ (t, qs) ∷ r) rest
        → (n : ℕ) × (j : Inner) × (drop_segment codec s i ≡ (done n, j))
          × Evicted ps ((t, qs) ∷ r) rest n i j
    drop_segment-Evicted rest (inl (e, (before, behind, q, off, rq))) =
        let u : unacked_in codec s i ≡ (length behind, i) =
          unacked_in-held s i (encode_all codec ps) e h.no_faults file
          ∙ ap (λ (z : ℕ). (z, i)) (scanned before behind q off) in
        let (j, eq, d) =
          drop_segment-Dropped s t (length behind) (numbers r) i (encode_all codec ps) h.no_faults
            file behind_oldest u in
        let c : j.cursor ≡ record { seg = t; off = 0 } = d.cursor ∙ ground arith in
        (
          length behind,
          j,
          eq,
          record {
            gone = behind;
            left = payloads ((t, qs) ∷ r);
            split = rq;
            counted = refl;
            rep = Rep-Dropped (length behind) j d;
            behind =
                subst (λ z. Behind codec z ((t, qs) ∷ r) (payloads ((t, qs) ∷ r))) (sym c)
                  (inl (refl, ([], qs, refl, unfold encode_all in refl, refl)));
            count = d.count;
            bytes = d.bytes;
            write_seg = d.write_seg;
          },
        )
    drop_segment-Evicted rest (inr (past, b)) =
        let (j, eq, d) =
          drop_segment-Dropped s t 0 (numbers r) i (encode_all codec ps) h.no_faults file
            behind_oldest (unacked_in-passed s i past) in
        let c : j.cursor ≡ i.cursor = d.cursor ∙ ground arith in
        (
          0,
          j,
          eq,
          record {
            gone = [];
            left = rest;
            split = refl;
            counted = refl;
            rep = Rep-Dropped 0 j d;
            behind = subst (λ z. Behind codec z ((t, qs) ∷ r) rest) (sym c) b;
            count = d.count;
            bytes = d.bytes;
            write_seg = d.write_seg;
          },
        )
