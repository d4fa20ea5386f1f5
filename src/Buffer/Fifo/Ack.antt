-- ===== src/Buffer/Fifo/Ack.antt =====
-- src/buffer.rs: `ack` on a queue of records.
use softnix_log_agent.Prelude.{ℕ, ◌-◌, ◌≡◌, refl, ap, sym, subst, some, List, [], done, arith}
use softnix_log_agent.Buffer.Record.{Codec}
use softnix_log_agent.Buffer.Disk.{Cursor, Inner, draw, range_upto}
use softnix_log_agent.Buffer.Queue.{DiskQueue}
use softnix_log_agent.Buffer.Reader.{delete_done, ack}
use softnix_log_agent.Buffer.Fifo.Spec.{Held, numbers, Behind, Rep, view, total}
use softnix_log_agent.Buffer.Fifo.Trim.{
  trim, front, NoFiles, Trimmed, delete_done-Trimmed, Behind-trim,
}

module _ {E : Type 0} (codec : Codec E) where
  Rep-cursor :
      (i : Inner) (held : Held) (c : Cursor) (n : ℕ)
      → Rep codec i held
      → Rep codec (record i { cursor = c; count = n }) held
  unfolding view
  Rep-cursor i held c n r = record { no_faults = r.no_faults; listed = r.listed; holds = r.holds }

  view-cursor :
      (i : Inner) (c : Cursor) (n : ℕ) (bs : List ℕ)
      → view i i.write_seg ≡ some bs
      → view (record i { cursor = c; count = n }) i.write_seg ≡ some bs
  unfolding view
  view-cursor i c n bs e = e

  -- What `ack` has done: the cursor and what is persisted of it stand where the peek position is,
  -- the segments in front of it are gone, and the records behind it are still there.
  pub record Acked (n : ℕ) (held : Held) (left : List (List ℕ)) (q q' : DiskQueue) : Type 0 where
    pub rep : Rep codec q'.inner (trim q.inner.peek.seg held)
    pub behind : Behind codec q'.inner.cursor (trim q.inner.peek.seg held) left
    pub cursor : q'.inner.cursor ≡ q.inner.peek
    pub peek : q'.inner.peek ≡ q.inner.peek
    pub saved : q'.saved ≡ some q.inner.peek
    pub count : q'.inner.count ≡ q.inner.count - n
    pub write_seg : q'.inner.write_seg ≡ q.inner.write_seg
    pub write_off : q'.inner.write_off ≡ q.inner.write_off
    pub last :
        (bs : List ℕ)
        → view q.inner q.inner.write_seg ≡ some bs
        → view q'.inner q.inner.write_seg ≡ some bs
    pub files : NoFiles q'.inner.disk (numbers (front q.inner.peek.seg held))
    pub bytes : q'.inner.bytes ≡ q.inner.bytes - total codec (front q.inner.peek.seg held)

  ack-done :
      (n : ℕ) (q : DiskQueue) (j : Inner)
      → (let i = record q.inner { cursor = q.inner.peek; count = q.inner.count - n } in
          delete_done i.write_seg (range_upto i.cursor.seg i.segments) i ≡ j)
      → j.faults ≡ []
      → ack n q ≡ (done tt, record q { inner = j; saved = some j.cursor })
  unfolding ack draw
  ack-done n q j e f = ground arith

  -- Acknowledging what was peeked succeeds on a queue without failures: exactly the peeked records
  -- are behind the persisted cursor, the files of the segments in front of it are gone and their
  -- bytes given back, and every other record stays.
  pub ack-Acked :
      (n : ℕ) (q : DiskQueue) (held : Held) (left : List (List ℕ))
      → Rep codec q.inner held
      → Behind codec q.inner.peek held left
      → (q' : DiskQueue) × (ack n q ≡ (done tt, q')) × Acked n held left q q'
  ack-Acked n q held left r b = (
    record q { inner = j; saved = some j.cursor },
    ack-done n q j (ap (λ segs. delete_done i.write_seg (range_upto i.cursor.seg segs) i) r.listed)
        t.rep.no_faults,
    record {
      rep = t.rep;
      behind =
          subst (λ c. Behind codec c (trim q.inner.peek.seg held) left) (sym t.cursor)
            (Behind-trim codec held q.inner.peek left b);
      cursor = t.cursor;
      peek = t.peek;
      saved = ap some t.cursor;
      count = t.count;
      write_seg = t.write_seg;
      write_off = t.write_off;
      last = λ bs v. t.last bs (view-cursor q.inner q.inner.peek (q.inner.count - n) bs v);
      files = t.files;
      bytes = t.bytes;
    },
  )
    where
      i : Inner
      i = record q.inner { cursor = q.inner.peek; count = q.inner.count - n }

      j : Inner
      j = delete_done i.write_seg (range_upto i.cursor.seg (numbers held)) i

      t : Trimmed codec q.inner.peek.seg held i j
      t =
          delete_done-Trimmed codec held i.write_seg i q.inner.peek left refl
            (Rep-cursor q.inner held q.inner.peek (q.inner.count - n) r) b
