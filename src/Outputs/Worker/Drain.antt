-- ===== src/Outputs/Worker/Drain.antt =====
-- src/outputs/worker.rs: a sink that confirms every batch, and the batch behind the loop.
use softnix_log_agent.Prelude.{
  ℕ, zero, suc, ◌+◌, ◌<◌, ◌≤◌, ◌≡◌, ◌⊎◌, inl, inr, refl, ap, sym, ◌∙◌, subst, Bool, Bool-cases,
  true, false, Option, some, List, [], ◌∷◌, ◌++◌, Io, done, length, length-append, arith, ge→ltb,
}
use softnix_log_agent.Buffer.Record.{Codec}
use softnix_log_agent.Buffer.Queue.{DiskQueue, has_data}
use softnix_log_agent.Buffer.Reader.{peek_batch, ack}
use softnix_log_agent.Buffer.Fifo.Spec.{decode_all}
use softnix_log_agent.Buffer.Fifo.Deliver.{Delivered, peek_batch-Delivered}
use softnix_log_agent.Outputs.Worker.{
  Worker, RetryConfig, ack_sent, on_sent, on_failed, whole_batch, on_outcome, round, pass, again,
  flush_batch, finish, peek_max_bytes,
}
use softnix_log_agent.Outputs.Worker.Round.{
  worker_of, confirmed, Synced, Left, round-Left, decoded, ack-Left,
}
use softnix_log_agent.Outputs.Worker.Gate.{
  AtEnd, Reads-AtEnd, has_data-nil, confirms_all, round-Reads,
}

module _ {E : Type 0} (codec : Codec E) where
  -- Passes of the loop with one sink, none of them cut short.
  unfoldable pub rounds : ℕ → (List E → Io ℕ) → Worker → Worker
  rounds zero sink w = w
  rounds (suc n) sink w = rounds n sink (worker_of (pass codec sink false w))

  retry-round :
      (sink : List E → Io ℕ) (c : Bool) (w : Worker)
      → (worker_of (round codec sink c w)).retry ≡ w.retry
  unfolding round on_outcome on_sent on_failed ack_sent
  retry-round sink c w = ground arith

  confirmed-all :
      (w : Worker) (out : List E) (q' : DiskQueue)
      → peek_batch codec w.retry.batch_size peek_max_bytes w.queue ≡ (done out, q')
      → confirmed codec (confirms_all codec) w ≡ out
  unfolding confirmed whole_batch
  confirmed-all w [] q' e = ground arith
  confirmed-all w (ev ∷ evs) q' e = ground (arith, ge→ltb (length (ev ∷ evs)) (length (ev ∷ evs)))

  -- An empty batch means that nothing is left.
  batch-nil :
      (w : Worker) (rest : List (List ℕ))
      → 0 < w.retry.batch_size
      → (s : Synced codec w.queue rest) (q' : DiskQueue) (out : List E)
      → Delivered codec w.retry.batch_size s.held s.unread w.queue out q'
      → out ≡ []
      → decode_all codec rest ≡ []
  unfolding decode_all
  batch-nil w rest h s q' out d nil =
      s.same
      ∙ decoded codec w.retry.batch_size s.held s.unread w.queue q' out d
      ∙ ap (λ z. z ++ decode_all codec d.left) nil
      ∙ ap (decode_all codec) (d.progress h (ap length nil))

  -- A round that confirms nothing has found nothing.
  confirmed-nil :
      (w : Worker) (rest : List (List ℕ))
      → 0 < w.retry.batch_size
      → Synced codec w.queue rest
      → confirmed codec (confirms_all codec) w ≡ []
      → decode_all codec rest ≡ []
  confirmed-nil w rest h s n =
      let (out, q', e, d) =
        peek_batch-Delivered codec w.retry.batch_size peek_max_bytes w.queue s.held s.unread s.rep
          s.peek in
      batch-nil w rest h s q' out d (sym (confirmed-all w out q' e) ∙ n)

  length-left :
      (out : List E) (rest : List (List ℕ)) (q : DiskQueue) (l : Left codec out rest q)
      → length (decode_all codec rest) ≡ length out + length (decode_all codec l.left)
  length-left out rest q l = ap length l.split ∙ length-append out (decode_all codec l.left)

  List-cases : (l : List E) → (l ≡ []) ⊎ (0 < length l)
  List-cases [] = inl refl
  List-cases (x ∷ l) = inr (omega arith)

  length-nil : (l : List E) → length l ≤ 0 → l ≡ []
  length-nil [] h = refl
  length-nil (x ∷ l) h = absurd (omega arith)

  pass-data :
      (sink : List E → Io ℕ) (w : Worker)
      → has_data w.queue ≡ true
      → pass codec sink false w ≡ round codec sink false w
  unfolding pass
  pass-data sink w h = rw (pass, h) refl

  pass-none :
      (sink : List E → Io ℕ) (w : Worker)
      → has_data w.queue ≡ false
      → pass codec sink false w ≡ again w
  unfolding pass
  pass-none sink w h = rw (pass, h) refl

  -- What keeps the wait from missing an event.
  abbrev Ready : Worker → List (List ℕ) → Type 0
  Ready w rest =
      (0 < w.retry.batch_size)
      × AtEnd w.queue
      × (length (decode_all codec rest) ≤ w.queue.inner.count)

  -- One round of a worker that is ready leaves it ready, with fewer events or none.
  round-Ready :
      (n : ℕ) (w : Worker) (rest : List (List ℕ)) (s : Synced codec w.queue rest)
      → Ready w rest
      → length (decode_all codec rest) ≤ suc n
      → (left : List (List ℕ)) × Synced codec
          (worker_of (round codec (confirms_all codec) false w)).queue
          left
        × Ready (worker_of (round codec (confirms_all codec) false w)) left
        × (length (decode_all codec left) ≤ n)
  round-Ready n w rest s (h, a, c) m =
      let v = worker_of (round codec (confirms_all codec) false w) in
      let l = round-Left codec (confirms_all codec) false w rest s in
      let e = length-left (confirmed codec (confirms_all codec) w) rest v.queue l in
      let r = round-Reads codec w rest s in
      let less : length (decode_all codec l.left) ≤ n =
        elim (List-cases (confirmed codec (confirms_all codec) w)) [
          | inl nil ↦ omega (arith, e, ap length (confirmed-nil w rest h s nil))
          | inr more ↦ omega (arith, e)
        ] in
      (
        l.left,
        l.synced,
        (
          subst (λ (r : RetryConfig). 0 < r.batch_size)
              (sym (retry-round (confirms_all codec) false w)) h,
          Reads-AtEnd _ w.queue v.queue r a,
          omega (arith, r.count, e, c),
        ),
        less,
      )

  -- Where the sink confirms every batch, a worker with a positive batch size empties its queue: on a
  -- queue without failures whose write position stands at the end of its last segment and whose
  -- counter misses no event, at the latest on a pass of the loop for each event no event is left
  -- behind the cursor. A pass in which `wait_data` finds nothing does nothing.
  pub rounds-nil :
      (n : ℕ) (w : Worker) (rest : List (List ℕ))
      → 0 < w.retry.batch_size
      → Synced codec w.queue rest
      → AtEnd w.queue
      → length (decode_all codec rest) ≤ w.queue.inner.count
      → length (decode_all codec rest) ≤ n
      → (left : List (List ℕ)) × Synced codec (rounds n (confirms_all codec) w).queue left
        × (decode_all codec left ≡ [])
  unfolding rounds
  rounds-nil zero w rest h s a c m = (rest, s, length-nil (decode_all codec rest) m)
  rounds-nil (suc n) w rest h s a c m = elim (Bool-cases (has_data w.queue)) [
    | inl d ↦
        let (left, s', (h', a', c'), m') = round-Ready n w rest s (h, a, c) m in
        rw (rounds, pass-data (confirms_all codec) w d)
          (rounds-nil n (worker_of (round codec (confirms_all codec) false w)) left h' s' a' c' m')
    | inr d ↦
        let z = has_data-nil codec w.queue rest s a c d in
        rw (rounds, pass-none (confirms_all codec) w d)
          (rounds-nil n w rest h s a c (omega (arith, z)))
  ]

  finish-batch :
      (sink : List E → Option (Io ℕ)) (w : Worker) (n : ℕ) (q' q'' : DiskQueue) (out : List E)
      → peek_batch codec w.retry.batch_size peek_max_bytes w.queue ≡ (done out, q')
      → 0 < length out
      → sink out ≡ some (done n)
      → ack n q' ≡ (done tt, q'')
      → (finish codec sink w).queue ≡ q''
  unfolding finish flush_batch
  finish-batch sink w n q' q'' [] e h o a = absurd (omega arith)
  finish-batch sink w n q' q'' (ev ∷ evs) e h o a = ground arith

  -- The batch behind the loop is acknowledged as a whole whatever number the sink confirms: on a
  -- queue without failures that has an event, each event of the batch is behind the cursor for good.
  pub finish-Left :
      (sink : List E → Option (Io ℕ)) (n : ℕ) (w : Worker) (rest : List (List ℕ))
      → 0 < w.retry.batch_size
      → Synced codec w.queue rest
      → 0 < length (decode_all codec rest)
      → ((out : List E) → sink out ≡ some (done n))
      → (out : List E) × (0 < length out) × Left codec out rest (finish codec sink w).queue
  finish-Left sink n w rest h s more answers =
      let (out, q', e, d) =
        peek_batch-Delivered codec w.retry.batch_size peek_max_bytes w.queue s.held s.unread s.rep
          s.peek in
      let (q'', a, l) = ack-Left codec w.queue q' rest s w.retry.batch_size out d n in
      let p : 0 < length out = elim (List-cases out) [
        | inl nil ↦ absurd (omega (arith, ap length (batch-nil w rest h s q' out d nil)))
        | inr p ↦ p
      ] in
      (
        out,
        p,
        subst (Left codec out rest) (sym (finish-batch sink w n q' q'' out e p (answers out) a)) l,
      )
