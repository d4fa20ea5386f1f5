-- ===== src/Outputs/Worker/Flow.antt =====
-- src/buffer.rs and src/outputs/worker.rs together: the router that pushes into a queue and the
-- worker that sends from it, in any order, also with pushes while a batch is with the sink.
use softnix_log_agent.Prelude.{
  ℕ, suc, ◌+◌, ◌<◌, ◌≤◌, ◌^◌, ◌≡◌, refl, ap, sym, ◌∙◌, subst, Bool, some, List, [], ◌∷◌, ◌++◌, Io,
  done, fail, length, arith, append_assoc, add64,
}
use softnix_log_agent.Buffer.Record.{Codec, header_len}
use softnix_log_agent.Buffer.Record.RoundTrip.{IsPayload}
use softnix_log_agent.Buffer.Disk.{Inner}
use softnix_log_agent.Buffer.Queue.{DiskQueue, push}
use softnix_log_agent.Buffer.Reader.{peek_batch, reset_peek}
use softnix_log_agent.Buffer.Fifo.Spec.{Held, Behind, Rep, decode_all, decode_all-append}
use softnix_log_agent.Buffer.Fifo.Deliver.{peek_batch-Delivered, Rep-peek}
use softnix_log_agent.Buffer.Fifo.Trim.{trim}
use softnix_log_agent.Buffer.Fifo.Ack.{Acked, ack-Acked}
use softnix_log_agent.Buffer.Fifo.Push.{Stored, push-Stored}
use softnix_log_agent.Outputs.Worker.{
  Worker, whole_batch, on_outcome, read_batch, answer_batch, peek_max_bytes,
}
use softnix_log_agent.Outputs.Worker.Round.{
  worker_of, confirmed_of, decoded, on_outcome-fail, on_outcome-done,
}

-- A worker with its queue and the batch that its sink has, the events that the queue has accepted,
-- and those that the sink has confirmed.
pub record System (E : Type 0) : Type 0 where
  pub worker : Worker
  pub batch : List E
  pub accepted : List E
  pub sent : List E

module _ {E : Type 0} (codec : Codec E) where
  abbrev pub push_into : ℕ → E → Worker → Worker
  push_into fuel ev w = record w { queue = (push codec fuel ev w.queue).1 }

  -- What may happen next: a push with room for its record, the read of a batch, where the worker has
  -- none, or the answer of the sink to it, whatever it is.
  pub data Step : System E → System E → Type 0 where
    pushes :
        (s : System E) (fuel : ℕ) (ev : E) (p : List ℕ)
        → codec.to_vec ev ≡ some p
        → IsPayload codec p
        → add64 s.worker.queue.inner.bytes (header_len + length p) ≤ s.worker.queue.max_bytes
        → s.worker.queue.inner.write_seg + 1 < 2 ^ 64
        → Step s (record s {
          worker = push_into (suc fuel) ev s.worker;
          accepted = s.accepted ++ ev ∷ [];
        })
    reads :
        (s : System E)
        → s.batch ≡ []
        → Step s (record s {
          worker = (read_batch codec s.worker).1;
          batch = (read_batch codec s.worker).0;
        })
    answers :
        (s : System E) (sink : List E → Io ℕ) (c : Bool)
        → Step s (record s {
          worker = worker_of (answer_batch codec sink c s.batch s.worker);
          batch = [];
          sent = s.sent ++ confirmed_of s.batch (whole_batch (length s.batch) (sink s.batch));
        })

  pub data Reach (s : System E) : System E → Type 0 where
    here : Reach s s
    next : {t u : System E} → Reach s t → Step t u → Reach s u

  -- A queue without failures whose records behind the cursor are `rest`: those of the batch, and
  -- those behind the peek position.
  pub record Pending (batch : List E) (q : DiskQueue) (rest : List (List ℕ)) : Type 0 where
    pub held : Held
    pub unread : List (List ℕ)
    pub rep : Rep codec q.inner held
    pub cursor : Behind codec q.inner.cursor held rest
    pub peek : Behind codec q.inner.peek held unread
    pub same : decode_all codec rest ≡ batch ++ decode_all codec unread

  -- The queue as a list of events: what was accepted is what was confirmed and what is still behind
  -- the cursor, in this order.
  pub record Flow (s : System E) : Type 0 where
    pub rest : List (List ℕ)
    pub pending : Pending s.batch s.worker.queue rest
    pub history : s.accepted ≡ s.sent ++ decode_all codec rest

  decode_all-push :
      (rest : List (List ℕ)) (p : List ℕ) (ev : E)
      → codec.from_slice p ≡ some ev
      → decode_all codec (rest ++ p ∷ []) ≡ decode_all codec rest ++ ev ∷ []
  unfolding decode_all
  decode_all-push rest p ev e =
      decode_all-append codec rest (p ∷ []) ∙ ap (λ z. decode_all codec rest ++ z) (ground arith)

  Pending-push :
      (batch : List E) (q : DiskQueue) (rest : List (List ℕ)) (s : Pending batch q rest)
      (p : List ℕ) (ev : E) (l : Inner)
      → codec.from_slice p ≡ some ev
      → Stored codec p rest s.unread q.inner l
      → Pending batch (record q { inner = l }) (rest ++ p ∷ [])
  Pending-push batch q rest s p ev l e x = record {
    held = x.now;
    unread = s.unread ++ p ∷ [];
    rep = x.rep;
    cursor = x.unacked;
    peek = x.unpeeked;
    same =
        decode_all-push rest p ev e
        ∙ ap (λ z. z ++ ev ∷ []) s.same
        ∙ append_assoc batch (decode_all codec s.unread) (ev ∷ [])
        ∙ ap (λ z. batch ++ z) (sym (decode_all-push s.unread p ev e));
  }

  read_batch-done :
      (w : Worker) (out : List E) (q' : DiskQueue)
      → peek_batch codec w.retry.batch_size peek_max_bytes w.queue ≡ (done out, q')
      → read_batch codec w ≡ (out, record w { queue = q' })
  unfolding read_batch
  read_batch-done w out q' e = rw (read_batch, e, ap (λ x. x.1) e) refl

  Pending-read :
      (w : Worker) (rest : List (List ℕ))
      → Pending [] w.queue rest
      → Pending (read_batch codec w).0 (read_batch codec w).1.queue rest
  Pending-read w rest s =
      let (out, q', e, d) =
        peek_batch-Delivered codec w.retry.batch_size peek_max_bytes w.queue s.held s.unread s.rep
          s.peek in
      rw (read_batch-done w out q' e) (record {
        held = s.held;
        unread = d.left;
        rep = d.rep;
        cursor = subst (λ c. Behind codec c s.held rest) (sym d.unacked) s.cursor;
        peek = d.position;
        same = s.same ∙ decoded codec w.retry.batch_size s.held s.unread w.queue q' out d;
      })

  -- The batch is to be read again.
  Pending-reset_peek :
      (batch : List E) (q : DiskQueue) (rest : List (List ℕ))
      → Pending batch q rest
      → Pending [] (reset_peek q) rest
  unfolding reset_peek
  Pending-reset_peek batch q rest s = record {
    held = s.held;
    unread = rest;
    rep = Rep-peek codec q.inner s.held q.inner.cursor s.rep;
    cursor = s.cursor;
    peek = s.cursor;
    same = refl;
  }

  -- The batch is acknowledged.
  Pending-Acked :
      (n : ℕ) (batch : List E) (q q' : DiskQueue) (rest : List (List ℕ)) (s : Pending batch q rest)
      → Acked codec n s.held s.unread q q'
      → Pending [] q' s.unread
  Pending-Acked n batch q q' rest s a = record {
    held = trim q.inner.peek.seg s.held;
    unread = s.unread;
    rep = a.rep;
    cursor = a.behind;
    peek =
        subst (λ c. Behind codec c (trim q.inner.peek.seg s.held) s.unread) (a.cursor ∙ sym a.peek)
          a.behind;
    same = refl;
  }

  -- What an answer to a batch leaves of the records behind the cursor.
  Answered : List E → Io ℕ → List (List ℕ) → DiskQueue → Type 0
  Answered batch r rest q =
      (left : List (List ℕ)) × Pending [] q left
      × (decode_all codec rest ≡ confirmed_of batch r ++ decode_all codec left)

  on_outcome-Answered :
      (len : ℕ) (c : Bool) (batch : List E) (w : Worker) (rest : List (List ℕ)) (r : Io ℕ)
      → Pending batch w.queue rest
      → Answered batch r rest (worker_of (on_outcome len c r w)).queue
  unfolding Answered
  on_outcome-Answered len c batch w rest fail s =
      rw (on_outcome-fail codec len c w) (rest, Pending-reset_peek batch w.queue rest s, refl)
  on_outcome-Answered len c batch w rest (done n) s =
      let (q', e, a) = ack-Acked codec n w.queue s.held s.unread s.rep s.peek in
      rw (on_outcome-done codec len n c w q' e)
        (s.unread, Pending-Acked n batch w.queue q' rest s a, s.same)

  confirmed_of-nil : (r : Io ℕ) → confirmed_of {E = E} [] r ≡ []
  confirmed_of-nil fail = refl
  confirmed_of-nil (done n) = refl

  answer_batch-Answered :
      (sink : List E → Io ℕ) (c : Bool) (batch : List E) (w : Worker) (rest : List (List ℕ))
      → Pending batch w.queue rest
      → Answered batch
          (whole_batch (length batch) (sink batch))
          rest
          (worker_of (answer_batch codec sink c batch w)).queue
  unfolding Answered answer_batch
  answer_batch-Answered sink c [] w rest s =
      (rest, s, ap (λ z. z ++ decode_all codec rest) (sym (confirmed_of-nil _)))
  answer_batch-Answered sink c (ev ∷ evs) w rest s =
      on_outcome-Answered (length (ev ∷ evs)) c (ev ∷ evs) w rest
        (whole_batch (length (ev ∷ evs)) (sink (ev ∷ evs))) s

  module _
      (decodes : (ev : E) (p : List ℕ)
        → codec.to_vec ev ≡ some p
        → codec.from_slice p ≡ some ev) where
    Step-Flow : {s t : System E} → Step s t → Flow s → Flow t
    unfolding Answered
    Step-Flow (pushes s fuel ev p t w room lt) f =
        let y = f.pending in
        let (l, e, x) =
          push-Stored codec fuel ev p s.worker.queue y.held f.rest y.unread t w y.rep y.cursor
            y.peek room lt in
        record {
          rest = f.rest ++ p ∷ [];
          pending =
              subst (λ q. Pending s.batch q (f.rest ++ p ∷ [])) (sym (ap (λ r. r.1) e))
                (Pending-push s.batch s.worker.queue f.rest y p ev l (decodes ev p t) x);
          history =
              ap (λ z. z ++ ev ∷ []) f.history
              ∙ append_assoc s.sent (decode_all codec f.rest) (ev ∷ [])
              ∙ ap (λ z. s.sent ++ z) (sym (decode_all-push f.rest p ev (decodes ev p t)));
        }
    Step-Flow (reads s e) f = record {
      rest = f.rest;
      pending =
          Pending-read s.worker f.rest (subst (λ b. Pending b s.worker.queue f.rest) e f.pending);
      history = f.history;
    }
    Step-Flow (answers s sink c) f =
        let (left, y, split) = answer_batch-Answered sink c s.batch s.worker f.rest f.pending in
        record {
          rest = left;
          pending = y;
          history =
              f.history
              ∙ ap (λ z. s.sent ++ z) split
              ∙ sym (append_assoc s.sent _ (decode_all codec left));
        }

    -- A queue on which no call to the operating system fails, its pushes with room and its worker, in
    -- any order and with pushes while a batch is with the sink, whatever the sink answers: what was
    -- accepted is what the sink has confirmed, in the order of acceptance and each event once, and
    -- then what is still held behind the cursor. Of a codec it is assumed that it reads back what it
    -- writes.
    pub Reach-Flow : {s t : System E} → Flow s → Reach s t → Flow t
    Reach-Flow f here = f
    Reach-Flow f (next r st) = Step-Flow st (Reach-Flow f r)
