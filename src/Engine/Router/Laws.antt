-- ===== src/Engine/Router/Laws.antt =====
-- src/engine.rs and src/buffer.rs: what a router task does with an event.
use softnix_log_agent.Prelude.{
  ℕ, suc, ◌+◌, ◌^◌, ◌<◌, ◌≤◌, ◌≡◌, refl, ap, ◌∙◌, ◌⊎◌, inl, inr, Option-cases, Bool, true, false,
  Option, none, some, List, [], ◌∷◌, Io, done, fail, length, length-append, arith,
}
use softnix_log_agent.Buffer.Record.{Codec, header_len}
use softnix_log_agent.Buffer.Record.RoundTrip.{IsPayload}
use softnix_log_agent.Buffer.Queue.{DiskQueue, drop_oldest, Pushed, stored, full, error, push}
use softnix_log_agent.Buffer.Fifo.Spec.{Held, Behind, Rep}
use softnix_log_agent.Buffer.Fifo.Spec.{total}
use softnix_log_agent.Buffer.Evict.Push.{Replaced, push-Replaced}
use softnix_log_agent.Buffer.Queue.{
  block, make_room, round, stop, push_payload, store, append_record, room, no_room,
}
use softnix_log_agent.Engine.Router.{
  Router, Wait, woken, cancelled, count_push, push_blocking, on_event,
}

module _ {E : Type 0} (codec : Codec E) where
  count_push-stored :
      (k : ℕ) (r : Router)
      → r.metrics.events_dropped + k < 2 ^ 64
      → count_push (stored k) r
        ≡ record r { metrics = record r.metrics { events_dropped = r.metrics.events_dropped + k } }
  unfolding count_push
  count_push-stored k r h = ground arith

  on_event-stored :
      (fuel k : ℕ) (waits : List Wait) (ev : E) (r : Router) (q : DiskQueue)
      → push codec fuel ev r.queue ≡ (stored k, q)
      → on_event codec fuel false waits ev r ≡ count_push (stored k) (record r { queue = q })
  unfolding on_event
  on_event-stored fuel k waits ev r q e = rw e refl

  -- Under `drop_oldest`, on a queue without failures whose counters are far from their wrap, an event
  -- whose record is not larger than the cap is stored behind all others, and the counter of dropped
  -- events grows by the number of those that were discarded for it.
  pub on_event-Replaced :
      (waits : List Wait) (ev : E) (p : List ℕ) (r : Router) (held : Held) (rest : List (List ℕ))
      → codec.to_vec ev ≡ some p
      → IsPayload codec p
      → r.queue.policy ≡ drop_oldest
      → header_len + length p ≤ r.queue.max_bytes
      → r.queue.inner.bytes ≡ total codec held
      → total codec held + (header_len + length p) < 2 ^ 64
      → r.queue.inner.write_seg + length held + 1 < 2 ^ 64
      → r.metrics.events_dropped + length rest < 2 ^ 64
      → Rep codec r.queue.inner held
      → Behind codec r.queue.inner.cursor held rest
      → (k : ℕ) × (r' : Router) × (on_event codec (suc (length held)) false waits ev r ≡ r')
        × Replaced codec p k rest r.queue r'.queue
        × (r'.metrics.events_dropped ≡ r.metrics.events_dropped + k)
  on_event-Replaced waits ev p r held rest w o policy small sum wraps segs evs rep b =
      let (k, q', e, x) =
        push-Replaced codec ev p r.queue held rest w o policy small sum wraps segs (omega arith) rep
          b in
      let le : k ≤ length rest =
        omega (arith, x.evicted, ap length x.split, length-append x.gone x.left) in
      (
        k,
        _,
        on_event-stored (suc (length held)) k waits ev r q' e
            ∙ count_push-stored k (record r { queue = q' }) (omega arith),
        x,
        refl,
      )

  -- Under `block`, no push is rejected, and one that finds no room changes nothing.
  round-block :
      (n e : ℕ) (q : DiskQueue)
      → q.policy ≡ block
      → (round codec n e q ≡ stop (no_room full) q) ⊎ (round codec n e q ≡ stop (room e) q)
  unfolding round
  round-block n e q b = ground arith

  make_room-block :
      (fuel n : ℕ) (q : DiskQueue)
      → q.policy ≡ block
      → (make_room codec (suc fuel) n 0 q ≡ (no_room full, q))
        ⊎ (make_room codec (suc fuel) n 0 q ≡ (room 0, q))
  unfolding make_room
  make_room-block fuel n q b = ground (arith, round-block n 0 q b)

  store-written :
      (r : Io (Unit {0})) (p : List ℕ) (k : ℕ) (q : DiskQueue)
      → (append_record codec q.seg_bytes p q.inner).0 ≡ r
      → ((q' : DiskQueue) × (store codec p k q ≡ (stored k, q')))
        ⊎ ((q' : DiskQueue) × (store codec p k q ≡ (error, q')))
  unfolding store
  store-written (done _) p k q e =
      inl (record q { inner = (append_record codec q.seg_bytes p q.inner).1 }, rw (store, e) refl)
  store-written fail p k q e =
      inr (record q { inner = (append_record codec q.seg_bytes p q.inner).1 }, rw (store, e) refl)

  -- How a push under `block` ends.
  Blocked : (E → DiskQueue → Pushed × DiskQueue) → E → DiskQueue → Type 0
  Blocked f ev q =
      (f ev q ≡ (full, q))
      ⊎ (((k : ℕ) × (q' : DiskQueue) × (f ev q ≡ (stored k, q')))
          ⊎ ((q' : DiskQueue) × (f ev q ≡ (error, q'))))

  push-Blocked :
      (fuel : ℕ) (ev : E) (q : DiskQueue) → q.policy ≡ block → Blocked (push codec (suc fuel)) ev q
  unfolding push push_payload Blocked
  push-Blocked fuel ev q b = elim (Option-cases (codec.to_vec ev)) [
    | inl e ↦ inr (inr (q, rw (push, e) refl))
    | inr (p, e) ↦ elim (make_room-block fuel (header_len + length p) q b) [
      | inl m ↦ inl (rw (push, push_payload, e, m, ap (λ x. x.1) m) refl)
      | inr m ↦ elim (store-written _ p 0 q refl) [
        | inl (q', t) ↦ inr (inl (0, q', rw (push, push_payload, e, m, ap (λ x. x.1) m, t) refl))
        | inr (q', t) ↦ inr (inr (q', rw (push, push_payload, e, m, ap (λ x. x.1) m, t) refl))
      ]
    ]
  ]

  -- The waits leave the policy as it is.
  abbrev pub KeepBlock : List Wait → Type 0
  KeepBlock [] = Unit
  KeepBlock (cancelled ∷ ws) = KeepBlock ws
  KeepBlock (woken f ∷ ws) =
      ((q : DiskQueue) → q.policy ≡ block → (f q).policy ≡ block) × KeepBlock ws

  -- The queue behind the waits up to the first cancellation, and whether there is one, where the
  -- push itself changes nothing.
  unfoldable pub waited : List Wait → DiskQueue → Bool × DiskQueue
  waited [] q = (false, q)
  waited (cancelled ∷ ws) q = (true, q)
  waited (woken f ∷ ws) q = waited ws (f q)

  -- What an answer of `push_blocking` means for the waits and the queue that it began with.
  abbrev pub Answers : ℕ → E → List Wait → DiskQueue → Option (Io Bool) → DiskQueue → Type 0
  Answers fuel ev ws q none q' = (waited ws q ≡ (false, q')) × (push codec fuel ev q' ≡ (full, q'))
  Answers fuel ev ws q (some (done false)) q' =
      (waited ws q ≡ (true, q')) × (push codec fuel ev q' ≡ (full, q'))
  Answers fuel ev ws q (some (done true)) q' =
      (b : DiskQueue) × (k : ℕ) × (push codec fuel ev b ≡ (stored k, q'))
  Answers fuel ev ws q (some fail) q' = (b : DiskQueue) × (push codec fuel ev b ≡ (error, q'))

  -- One wait in front.
  Answers-woken :
      (fuel : ℕ) (ev : E) (f : DiskQueue → DiskQueue) (ws : List Wait) (q : DiskQueue)
      (o : Option (Io Bool)) (q' : DiskQueue)
      → Answers fuel ev ws (f q) o q'
      → Answers fuel ev (woken f ∷ ws) q o q'
  unfolding waited
  Answers-woken fuel ev f ws q none q' a = a
  Answers-woken fuel ev f ws q (some (done true)) q' a = a
  Answers-woken fuel ev f ws q (some (done false)) q' a = a
  Answers-woken fuel ev f ws q (some fail) q' a = a

  -- Under `block`, where the worker leaves the policy as it is and does whatever else to the queue
  -- during the waits: a push that waits answers true only behind a push that has stored the event,
  -- and fails only where the push does. It answers false only at the first cancellation of its
  -- waits, and is without an answer only where none of them is cancelled; the queue then has no
  -- room, and is what the waits have made of it.
  pub push_blocking-Answers :
      (fuel : ℕ) (ev : E) (ws : List Wait) (q : DiskQueue)
      → q.policy ≡ block
      → KeepBlock ws
      → Answers
          (suc fuel)
          ev
          ws
          q
          (push_blocking codec (suc fuel) ev ws q).0
          (push_blocking codec (suc fuel) ev ws q).1
  unfolding push_blocking Blocked waited
  push_blocking-Answers fuel ev [] q b h = elim (push-Blocked fuel ev q b) [
    | inl e ↦ rw (push_blocking, e) (refl, e)
    | inr (inl (k, q', e)) ↦ rw (push_blocking, e) (q, k, e)
    | inr (inr (q', e)) ↦ rw (push_blocking, e) (q, e)
  ]
  push_blocking-Answers fuel ev (cancelled ∷ ws) q b h = elim (push-Blocked fuel ev q b) [
    | inl e ↦ rw (push_blocking, e) (refl, e)
    | inr (inl (k, q', e)) ↦ rw (push_blocking, e) (q, k, e)
    | inr (inr (q', e)) ↦ rw (push_blocking, e) (q, e)
  ]
  push_blocking-Answers fuel ev (woken f ∷ ws) q b (keep, h) = elim (push-Blocked fuel ev q b) [
    | inl e ↦
        rw (push_blocking, e, ap (λ x. x.1) e)
          (Answers-woken (suc fuel) ev f ws q _ _
            (push_blocking-Answers fuel ev ws (f q) (keep q b) h))
    | inr (inl (k, q', e)) ↦ rw (push_blocking, e, ap (λ x. x.1) e) (q, k, e)
    | inr (inr (q', e)) ↦ rw (push_blocking, e, ap (λ x. x.1) e) (q, e)
  ]
