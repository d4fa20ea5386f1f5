-- ===== src/Outputs/Worker/Round.antt =====
-- src/outputs/worker.rs: what a round does to the records of a queue without failures.
use softnix_log_agent.Prelude.{
  ℕ, ◌≡◌, refl, ap, sym, ◌∙◌, subst, Bool, true, false, List, [], ◌∷◌, ◌++◌, Io, done, fail, length,
  arith,
}
use softnix_log_agent.Buffer.Record.{Codec}
use softnix_log_agent.Buffer.Queue.{DiskQueue}
use softnix_log_agent.Buffer.Reader.{peek_batch, ack, reset_peek}
use softnix_log_agent.Buffer.Fifo.Spec.{Held, decode_all, decode_all-append, Behind, Rep}
use softnix_log_agent.Buffer.Fifo.Deliver.{Delivered, peek_batch-Delivered, Rep-peek}
use softnix_log_agent.Buffer.Fifo.Trim.{trim}
use softnix_log_agent.Buffer.Fifo.Ack.{ack-Acked}
use softnix_log_agent.Outputs.Worker.{
  Worker, Turn, again, stopped, ack_sent, on_sent, on_failed, whole_batch, on_outcome, round,
  peek_max_bytes,
}

abbrev pub worker_of : Turn → Worker
worker_of (again w) = w
worker_of (stopped w) = w

-- What a sink has confirmed of a batch: all of it or nothing.
abbrev pub confirmed_of : {E : Type 0} → List E → Io ℕ → List E
confirmed_of batch fail = []
confirmed_of batch (done n) = batch

module _ {E : Type 0} (codec : Codec E) where
  -- The events that the sink confirms in a round.
  unfoldable pub confirmed : (List E → Io ℕ) → Worker → List E
  unfolding whole_batch
  confirmed sink w = elim (peek_batch codec w.retry.batch_size peek_max_bytes w.queue).0 [
    | fail ↦ []
    | done batch ↦ elim batch [
      | [] ↦ []
      | ev ∷ evs ↦ confirmed_of (ev ∷ evs) (whole_batch (length (ev ∷ evs)) (sink (ev ∷ evs)))
    ]
  ]

  -- A queue between two rounds: what lies between the cursor and the peek position has no event.
  pub record Synced (q : DiskQueue) (rest : List (List ℕ)) : Type 0 where
    pub held : Held
    pub unread : List (List ℕ)
    pub rep : Rep codec q.inner held
    pub cursor : Behind codec q.inner.cursor held rest
    pub peek : Behind codec q.inner.peek held unread
    pub same : decode_all codec rest ≡ decode_all codec unread

  -- A queue behind a round that has confirmed `out`.
  pub record Left (out : List E) (rest : List (List ℕ)) (q : DiskQueue) : Type 0 where
    pub left : List (List ℕ)
    pub synced : Synced q left
    pub split : decode_all codec rest ≡ out ++ decode_all codec left

  pub decoded :
      (max : ℕ) (held : Held) (unread : List (List ℕ)) (q q' : DiskQueue) (out : List E)
      (d : Delivered codec max held unread q out q')
      → decode_all codec unread ≡ out ++ decode_all codec d.left
  decoded max held unread q q' out d =
      ap (decode_all codec) d.split
      ∙ decode_all-append codec d.taken d.left
      ∙ ap (λ z. z ++ decode_all codec d.left) (sym d.decoded)

  module _ (q q' : DiskQueue) (rest : List (List ℕ)) (s : Synced q rest) (max : ℕ) (out : List E)
      (d : Delivered codec max s.held s.unread q out q') where
    -- Nothing was read but records that do not decode.
    read-Left : out ≡ [] → Left [] rest q'
    read-Left e = record {
      left = rest;
      synced = record {
        held = s.held;
        unread = d.left;
        rep = d.rep;
        cursor = subst (λ c. Behind codec c s.held rest) (sym d.unacked) s.cursor;
        peek = d.position;
        same =
            s.same
            ∙ decoded max s.held s.unread q q' out d
            ∙ ap (λ z. z ++ decode_all codec d.left) e;
      };
      split = refl;
    }

    -- The batch is acknowledged.
    pub ack-Left : (n : ℕ) → (q'' : DiskQueue) × (ack n q' ≡ (done tt, q'')) × Left out rest q''
    ack-Left n =
        let (q'', e, a) = ack-Acked codec n q' s.held d.left d.rep d.position in
        (
          q'',
          e,
          record {
            left = d.left;
            synced = record {
              held = trim q'.inner.peek.seg s.held;
              unread = d.left;
              rep = a.rep;
              cursor = a.behind;
              peek =
                  subst (λ c. Behind codec c (trim q'.inner.peek.seg s.held) d.left)
                    (a.cursor ∙ sym a.peek) a.behind;
              same = refl;
            };
            split = s.same ∙ decoded max s.held s.unread q q' out d;
          },
        )

    -- The batch is to be read again.
    reset_peek-Left : Left [] rest (reset_peek q')
    unfolding reset_peek
    reset_peek-Left = record {
      left = rest;
      synced = record {
        held = s.held;
        unread = rest;
        rep = Rep-peek codec q'.inner s.held q'.inner.cursor d.rep;
        cursor = subst (λ c. Behind codec c s.held rest) (sym d.unacked) s.cursor;
        peek = subst (λ c. Behind codec c s.held rest) (sym d.unacked) s.cursor;
        same = refl;
      };
      split = refl;
    }

  -- A round on each answer of the queue and of the sink.
  pub round-nil :
      (sink : List E → Io ℕ) (c : Bool) (w : Worker) (q' : DiskQueue)
      → peek_batch codec w.retry.batch_size peek_max_bytes w.queue ≡ (done [], q')
      → ((worker_of (round codec sink c w)).queue ≡ q') × (confirmed sink w ≡ [])
  unfolding round confirmed
  round-nil sink c w q' e = (ground arith, ground arith)

  pub round-cons :
      (sink : List E → Io ℕ) (c : Bool) (w : Worker) (q' : DiskQueue) (ev : E) (evs : List E)
      (r : Io ℕ)
      → peek_batch codec w.retry.batch_size peek_max_bytes w.queue ≡ (done (ev ∷ evs), q')
      → whole_batch (length (ev ∷ evs)) (sink (ev ∷ evs)) ≡ r
      → (round codec sink c w ≡ on_outcome (length (ev ∷ evs)) c r (record w { queue = q' }))
        × (confirmed sink w ≡ confirmed_of (ev ∷ evs) r)
  unfolding round confirmed
  round-cons sink c w q' ev evs r e o = (ground arith, ground arith)

  pub on_outcome-fail :
      (len : ℕ) (c : Bool) (w : Worker)
      → (worker_of (on_outcome len c fail w)).queue ≡ reset_peek w.queue
  unfolding on_outcome on_failed
  on_outcome-fail len true w = refl
  on_outcome-fail len false w = refl

  pub on_outcome-done :
      (len n : ℕ) (c : Bool) (w : Worker) (q : DiskQueue)
      → ack n w.queue ≡ (done tt, q)
      → (worker_of (on_outcome len c (done n) w)).queue ≡ q
  unfolding on_outcome on_sent ack_sent
  on_outcome-done len n c w q e = ground arith

  Leaves : (List E → Io ℕ) → Bool → Worker → List (List ℕ) → Type 0
  Leaves sink c w rest = Left (confirmed sink w) rest (worker_of (round codec sink c w)).queue

  Leaves-outcome :
      (sink : List E → Io ℕ) (c : Bool) (w : Worker) (rest : List (List ℕ))
      (s : Synced w.queue rest) (q' : DiskQueue) (ev : E) (evs : List E) (r : Io ℕ)
      → peek_batch codec w.retry.batch_size peek_max_bytes w.queue ≡ (done (ev ∷ evs), q')
      → whole_batch (length (ev ∷ evs)) (sink (ev ∷ evs)) ≡ r
      → Delivered codec w.retry.batch_size s.held s.unread w.queue (ev ∷ evs) q'
      → Leaves sink c w rest
  unfolding Leaves
  Leaves-outcome sink c w rest s q' ev evs fail e o d =
      let (t, f) = round-cons sink c w q' ev evs fail e o in
      rw (t, f, on_outcome-fail (length (ev ∷ evs)) c (record w { queue = q' }))
        (reset_peek-Left w.queue q' rest s w.retry.batch_size (ev ∷ evs) d)
  Leaves-outcome sink c w rest s q' ev evs (done n) e o d =
      let (t, f) = round-cons sink c w q' ev evs (done n) e o in
      let (q'', a, l) = ack-Left w.queue q' rest s w.retry.batch_size (ev ∷ evs) d n in
      rw (t, f, on_outcome-done (length (ev ∷ evs)) n c (record w { queue = q' }) q'' a) l

  Leaves-batch :
      (sink : List E → Io ℕ) (c : Bool) (w : Worker) (rest : List (List ℕ))
      (s : Synced w.queue rest) (q' : DiskQueue) (out : List E)
      → peek_batch codec w.retry.batch_size peek_max_bytes w.queue ≡ (done out, q')
      → Delivered codec w.retry.batch_size s.held s.unread w.queue out q'
      → Leaves sink c w rest
  unfolding Leaves
  Leaves-batch sink c w rest s q' [] e d =
      let (t, f) = round-nil sink c w q' e in
      rw (t, f) (read-Left w.queue q' rest s w.retry.batch_size [] d refl)
  Leaves-batch sink c w rest s q' (ev ∷ evs) e d =
      Leaves-outcome sink c w rest s q' ev evs (whole_batch (length (ev ∷ evs)) (sink (ev ∷ evs))) e
        refl d

  -- A round removes from a queue without failures what its sink has confirmed, and nothing else:
  -- the events behind the cursor are those confirmed and those still behind it, in this order.
  pub round-Left :
      (sink : List E → Io ℕ) (c : Bool) (w : Worker) (rest : List (List ℕ))
      → Synced w.queue rest
      → Left (confirmed sink w) rest (worker_of (round codec sink c w)).queue
  unfolding Leaves
  round-Left sink c w rest s =
      let (out, q', e, d) =
        peek_batch-Delivered codec w.retry.batch_size peek_max_bytes w.queue s.held s.unread s.rep
          s.peek in
      Leaves-batch sink c w rest s q' out e d
