-- ===== src/Outputs/Worker/Gate.antt =====
-- src/outputs/worker.rs and src/buffer.rs: the wait of the worker loop finds data as long as an
-- event is left.
use softnix_log_agent.Prelude.{
  ℕ, ◌-◌, ◌<◌, ◌≤◌, ◌≡◌, ◌⊎◌, inl, inr, refl, ap, sym, ◌∙◌, subst, false, some, List, [], ◌∷◌, ◌++◌,
  Io, done, length, length-append, arith, ge→ltb,
}
use softnix_log_agent.Buffer.Record.{Codec}
use softnix_log_agent.Buffer.Record.Recovery.{encode_all, encode_all-append, length-le-encode_all}
use softnix_log_agent.Buffer.Disk.{Cursor}
use softnix_log_agent.Buffer.Queue.{DiskQueue, has_data}
use softnix_log_agent.Buffer.Reader.{peek_batch}
use softnix_log_agent.Buffer.Fifo.Spec.{Held, payloads, decode_all, Holds, Behind, view}
use softnix_log_agent.Buffer.Fifo.Deliver.{Delivered, peek_batch-Delivered}
use softnix_log_agent.Buffer.Fifo.Trim.{Holds-lt}
use softnix_log_agent.Buffer.Fifo.Ack.{Acked, ack-Acked}
use softnix_log_agent.Outputs.Worker.{Worker, whole_batch, round, peek_max_bytes}
use softnix_log_agent.Outputs.Worker.Round.{
  worker_of, confirmed, Synced, round-nil, round-cons, on_outcome-done,
}

-- The write position stands at the end of the write segment.
abbrev pub AtEnd : DiskQueue → Type 0
AtEnd q =
    (bs : List ℕ) × (view q.inner q.inner.write_seg ≡ some bs) × (q.inner.write_off ≡ length bs)

-- What a batch of `n` confirmed events leaves of the write segment and of the counter.
pub record Reads (n : ℕ) (q q' : DiskQueue) : Type 0 where
  pub write_seg : q'.inner.write_seg ≡ q.inner.write_seg
  pub write_off : q'.inner.write_off ≡ q.inner.write_off
  pub last :
      (bs : List ℕ)
      → view q.inner q.inner.write_seg ≡ some bs
      → view q'.inner q.inner.write_seg ≡ some bs
  pub count : q'.inner.count ≡ q.inner.count - n

pub Reads-AtEnd : (n : ℕ) (q q' : DiskQueue) → Reads n q q' → AtEnd q → AtEnd q'
Reads-AtEnd n q q' r (bs, v, e) =
    (bs, subst (λ s. view q'.inner s ≡ some bs) (sym r.write_seg) (r.last bs v), r.write_off ∙ e)

-- What is false of the test.
pub has_data-false :
    (q : DiskQueue)
    → has_data q ≡ false
    → ((q.inner.peek.seg ≡ q.inner.write_seg) × (q.inner.peek.off ≡ q.inner.write_off))
      ⊎ (q.inner.count ≡ 0)
unfolding has_data
has_data-false q h = ground arith

module _ {E : Type 0} (codec : Codec E) where
  length-encode_all-nil :
      (before behind : List (List ℕ))
      → length (encode_all codec (before ++ behind)) ≤ length (encode_all codec before)
      → behind ≡ []
  length-encode_all-nil before [] h = refl
  length-encode_all-nil before (p ∷ ps) h = absurd (
      omega (
        arith,
        ap length (encode_all-append codec before (p ∷ ps)),
        length-append (encode_all codec before) (encode_all codec (p ∷ ps)),
        length-le-encode_all codec (p ∷ ps),
      ))

  -- Nothing is behind the end of the write segment.
  Behind-end :
      (v : ℕ → _) (w : ℕ) (bs : List ℕ) (held : Held) (c : Cursor) (rest : List (List ℕ))
      → Holds codec v w held
      → Behind codec c held rest
      → c.seg ≡ w
      → v w ≡ some bs
      → c.off ≡ length bs
      → rest ≡ []
  Behind-end v w bs [] c rest h b e f o = elim b [ ]
  Behind-end v w bs ((s, ps) ∷ []) c rest (sw, g, a) (inl (q, (before, behind, sp, off, r))) e f o =
      let x : some bs ≡ some (encode_all codec ps) = sym f ∙ ap v (sym sw) ∙ g in
      let y : bs ≡ encode_all codec ps = ground (arith, x) in
      let z : behind ≡ [] =
        length-encode_all-nil before behind
          (omega (arith, o, off, ap length y, ap (λ l. length (encode_all codec l)) sp)) in
      r ∙ ap (λ l. l ++ payloads []) z
  Behind-end v w bs ((s, ps) ∷ []) c rest h (inr (lt, b)) e f o = elim b [ ]
  Behind-end v w bs ((s, ps) ∷ (t, qs) ∷ k) c rest h (inl (q, b)) e f o =
      let lt : s < w = Holds-lt codec v w s t ps qs k h in absurd (omega (arith, lt, q, e))
  Behind-end v w bs ((s, ps) ∷ (t, qs) ∷ k) c rest (lt, g, a, h) (inr (lt', b)) e f o =
      Behind-end v w bs ((t, qs) ∷ k) c rest h b e f o

  -- Where the wait finds nothing, no event is left, if none of them is missing in the counter.
  pub has_data-nil :
      (q : DiskQueue) (rest : List (List ℕ))
      → Synced codec q rest
      → AtEnd q
      → length (decode_all codec rest) ≤ q.inner.count
      → has_data q ≡ false
      → length (decode_all codec rest) ≤ 0
  unfolding decode_all
  has_data-nil q rest s (bs, v, e) le h = elim (has_data-false q h) [
    | inl (x, y) ↦
        let z =
          Behind-end (view q.inner) q.inner.write_seg bs s.held q.inner.peek s.unread s.rep.holds
            s.peek x v (y ∙ e) in
        omega (arith, ap length (s.same ∙ ap (decode_all codec) z))
    | inr c ↦ omega arith
  ]

  Delivered-Reads :
      (max : ℕ) (held : Held) (unread : List (List ℕ)) (q q' : DiskQueue) (out : List E)
      → Delivered codec max held unread q out q'
      → Reads 0 q q'
  Delivered-Reads max held unread q q' out d = record {
    write_seg = d.write_seg;
    write_off = d.write_off;
    last = λ bs v. d.keeps q.inner.write_seg bs v;
    count = omega (arith, d.count);
  }

  Acked-Reads :
      (n : ℕ) (held : Held) (left : List (List ℕ)) (q p p' : DiskQueue)
      → Reads 0 q p
      → Acked codec n held left p p'
      → Reads n q p'
  Acked-Reads n held left q p p' r a = record {
    write_seg = a.write_seg ∙ r.write_seg;
    write_off = a.write_off ∙ r.write_off;
    last = λ bs v.
        subst (λ s. view p'.inner s ≡ some bs) r.write_seg
          (a.last bs (subst (λ s. view p.inner s ≡ some bs) (sym r.write_seg) (r.last bs v)));
    count = omega (arith, a.count, r.count);
  }

  abbrev pub confirms_all : List E → Io ℕ
  confirms_all batch = done (length batch)

  whole_batch-all : (l : List E) → whole_batch (length l) (confirms_all l) ≡ done (length l)
  unfolding whole_batch
  whole_batch-all l = rw (whole_batch, ge→ltb (length l) (length l) (omega arith)) refl

  Reads-batch :
      (w : Worker) (rest : List (List ℕ)) (s : Synced codec w.queue rest) (q' : DiskQueue)
      (out : List E)
      → peek_batch codec w.retry.batch_size peek_max_bytes w.queue ≡ (done out, q')
      → Delivered codec w.retry.batch_size s.held s.unread w.queue out q'
      → Reads
          (length (confirmed codec confirms_all w))
          w.queue
          (worker_of (round codec confirms_all false w)).queue
  Reads-batch w rest s q' [] e d =
      let (t, f) = round-nil codec confirms_all false w q' e in
      rw (t, f) (Delivered-Reads w.retry.batch_size s.held s.unread w.queue q' [] d)
  Reads-batch w rest s q' (ev ∷ evs) e d =
      let n = length (ev ∷ evs) in
      let (t, f) =
        round-cons codec confirms_all false w q' ev evs (done n) e (whole_batch-all (ev ∷ evs)) in
      let (q'', a, x) = ack-Acked codec n q' s.held d.left d.rep d.position in
      rw (t, f, on_outcome-done codec n n false (record w { queue = q' }) q'' a)
        (Acked-Reads n s.held d.left w.queue q' q''
          (Delivered-Reads w.retry.batch_size s.held s.unread w.queue q' (ev ∷ evs) d) x)

  -- A round takes from the counter what the sink has confirmed, and leaves the write segment.
  pub round-Reads :
      (w : Worker) (rest : List (List ℕ))
      → Synced codec w.queue rest
      → Reads
          (length (confirmed codec confirms_all w))
          w.queue
          (worker_of (round codec confirms_all false w)).queue
  round-Reads w rest s =
      let (out, q', e, d) =
        peek_batch-Delivered codec w.retry.batch_size peek_max_bytes w.queue s.held s.unread s.rep
          s.peek in
      Reads-batch w rest s q' out e d
