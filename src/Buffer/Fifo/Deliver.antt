-- ===== src/Buffer/Fifo/Deliver.antt =====
-- src/buffer.rs: `peek_batch` and `reset_peek` on a queue of records.
use softnix_log_agent.Prelude.{
  ℕ, ◌<◌, ◌≡◌, ◌⊎◌, inl, inr, refl, ap, sym, ◌∙◌, subst, List, [], ◌++◌, done, length, arith, add64,
}
use softnix_log_agent.Buffer.Record.{Codec}
use softnix_log_agent.Buffer.Disk.{Cursor, Inner, read, flush_writer, range_from}
use softnix_log_agent.Buffer.Queue.{DiskQueue}
use softnix_log_agent.Buffer.Reader.{Batch, peek_segments, empty_batch, peek_batch}
use softnix_log_agent.Buffer.Fifo.Spec.{Held, decode_all, Holds, Behind, Rep, view}
use softnix_log_agent.Buffer.Fifo.Files.{
  Keeps, Flushed, flush_writer-Flushed, flush_writer-read, read-view, Holds-Keeps, Holds-Files,
  Holds-Ordered,
}
use softnix_log_agent.Buffer.Fifo.Walk.{Walk}
use softnix_log_agent.Buffer.Fifo.Walk.Step.{Walk-from}

module _ {E : Type 0} (codec : Codec E) where
  -- A flushed queue stands for the same payloads.
  pub Flushed-Rep :
      (i j : Inner) (held : Held)
      → Flushed i j
      → Keeps (view i) (read j.disk)
      → Rep codec i held
      → Rep codec j held
  Flushed-Rep i j held f k r = record {
    no_faults = f.no_faults;
    listed = f.segments ∙ r.listed;
    holds =
        subst (λ w. Holds codec (view j) w held) (sym f.write_seg)
          (Holds-Keeps codec (view i) (view j) i.write_seg held
            (λ t bs h. read-view j f.empty t bs (k t bs h)) r.holds);
  }

  -- What `peek_batch` has done with the payloads behind the peek position.
  pub record Delivered (max : ℕ) (held : Held) (rest : List (List ℕ)) (q : DiskQueue) (out : List E)
      (q' : DiskQueue) : Type 0 where
    pub taken : List (List ℕ)
    pub left : List (List ℕ)
    pub split : rest ≡ taken ++ left
    pub decoded : out ≡ decode_all codec taken
    pub position : Behind codec q'.inner.peek held left
    pub rep : Rep codec q'.inner held
    pub unacked : q'.inner.cursor ≡ q.inner.cursor
    pub progress : 0 < max → length out ≡ 0 → left ≡ []
    pub keeps : Keeps (view q.inner) (view q'.inner)
    pub write_seg : q'.inner.write_seg ≡ q.inner.write_seg
    pub write_off : q'.inner.write_off ≡ q.inner.write_off
    pub count : q'.inner.count ≡ q.inner.count

  pub Rep-peek :
      (i : Inner) (held : Held) (c : Cursor)
      → Rep codec i held
      → Rep codec (record i { peek = c }) held
  unfolding view
  Rep-peek i held c r = record { no_faults = r.no_faults; listed = r.listed; holds = r.holds }

  Keeps-peek :
      (i j : Inner) (c : Cursor)
      → Flushed i j
      → Keeps (view i) (read j.disk)
      → Keeps (view i) (view (record j { peek = c }))
  unfolding view
  Keeps-peek i j c f k t bs h = read-view j f.empty t bs (k t bs h)

  peek_batch-done :
      (max max_bytes : ℕ) (q : DiskQueue) (j : Inner) (pos : Cursor) (b : Batch E)
      → (let i = (flush_writer q.inner).1 in
          peek_segments codec max max_bytes (range_from i.peek.seg i.segments) i.peek empty_batch i
          ≡ (done pos, b, j))
      → peek_batch codec max max_bytes q ≡ (
        done b.out,
        record q { inner = record j { peek = pos }; corrupt = add64 q.corrupt b.skipped },
      )
  unfolding peek_batch
  peek_batch-done max max_bytes q j pos b p = ground arith

  PeekResult : ℕ → ℕ → Held → List (List ℕ) → DiskQueue → Type 0
  PeekResult max max_bytes held rest q =
      (out : List E) × (q' : DiskQueue) × (peek_batch codec max max_bytes q ≡ (done out, q'))
      × Delivered max held rest q out q'

  Walk-PeekResult :
      (max max_bytes : ℕ) (q : DiskQueue) (held : Held) (rest : List (List ℕ))
      → Flushed q.inner (flush_writer q.inner).1
      → Keeps (view q.inner) (read (flush_writer q.inner).1.disk)
      → Rep codec (flush_writer q.inner).1 held
      → Behind codec (flush_writer q.inner).1.peek held rest
      → (let i = (flush_writer q.inner).1 in
          Walk codec max max_bytes held rest i.peek empty_batch i
            (range_from i.peek.seg i.segments))
      → PeekResult max max_bytes held rest q
  unfolding PeekResult
  Walk-PeekResult max max_bytes q held rest f kp r bh (pos', b', eq, w) = (
    b'.out,
    record q {
      inner = record (flush_writer q.inner).1 { peek = pos' };
      corrupt = add64 q.corrupt b'.skipped;
    },
    peek_batch-done max max_bytes q (flush_writer q.inner).1 pos' b' eq,
    record {
      taken = w.taken;
      left = w.left;
      split = w.split;
      decoded = w.out;
      position = position w.position;
      rep = Rep-peek (flush_writer q.inner).1 held pos' r;
      unacked = f.cursor;
      progress = w.progress;
      keeps = Keeps-peek q.inner (flush_writer q.inner).1 pos' f kp;
      write_seg = f.write_seg;
      write_off = f.write_off;
      count = f.count;
    },
  )
    where
      position :
          ((pos' ≡ (flush_writer q.inner).1.peek) × (w.taken ≡ [])) ⊎ Behind codec pos' held w.left
          → Behind codec pos' held w.left
      position (inl (e, z)) =
          subst (λ c. Behind codec c held w.left) (sym e)
            (subst (Behind codec (flush_writer q.inner).1.peek held)
              (w.split ∙ ap (λ y. y ++ w.left) z) bh)
      position (inr b) = b

  -- A queue without failures delivers, in order, the oldest records that were not peeked. The peek
  -- position moves behind them, and the cursor and the records stay; with a positive `max`, the
  -- batch is empty only if no record is left behind it.
  pub peek_batch-Delivered :
      (max max_bytes : ℕ) (q : DiskQueue) (held : Held) (rest : List (List ℕ))
      → Rep codec q.inner held
      → Behind codec q.inner.peek held rest
      → (out : List E) × (q' : DiskQueue) × (peek_batch codec max max_bytes q ≡ (done out, q'))
        × Delivered max held rest q out q'
  unfolding PeekResult
  peek_batch-Delivered max max_bytes q held rest r bh =
      Walk-PeekResult max max_bytes q held rest f (flush_writer-read q.inner r.no_faults) rep
        (subst (λ c. Behind codec c held rest) (sym f.peek) bh)
        (subst
          (λ segs.
            Walk codec max max_bytes held rest i.peek empty_batch i (range_from i.peek.seg segs))
          (sym rep.listed)
          (Walk-from codec max max_bytes i f.no_faults held rest i.peek empty_batch
            (Holds-Files codec (view q.inner) i.disk q.inner.write_seg held
              (flush_writer-read q.inner r.no_faults) r.holds)
            (Holds-Ordered codec (view q.inner) q.inner.write_seg held r.holds)
            (subst (λ c. Behind codec c held rest) (sym f.peek) bh) (λ _ _. refl)))
    where
      i : Inner
      i = (flush_writer q.inner).1

      f : Flushed q.inner i
      f = flush_writer-Flushed q.inner r.no_faults

      rep : Rep codec i held
      rep = Flushed-Rep q.inner i held f (flush_writer-read q.inner r.no_faults) r
