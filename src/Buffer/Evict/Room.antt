-- ===== src/Buffer/Evict/Room.antt =====
-- src/buffer.rs: the loop of `push` under the `drop_oldest` policy.
use softnix_log_agent.Prelude.{
  ℕ, zero, suc, ◌+◌, ◌<◌, ◌≤◌, ◌^◌, ◌≡◌, ◌⊎◌, inl, inr, refl, ap, sym, ◌∙◌, some, List, [], ◌∷◌,
  ◌++◌, done, length, arith, leb, lt→ltb, ge→ltb, add64, append_assoc, length-append, Bool-cases,
}
use softnix_log_agent.Buffer.Record.{Codec, header_len}
use softnix_log_agent.Buffer.Record.Recovery.{encode_all}
use softnix_log_agent.Buffer.Disk.{Inner}
use softnix_log_agent.Buffer.Segments.{drop_oldest_segment}
use softnix_log_agent.Buffer.Queue.{
  DiskQueue, drop_oldest, looping, room, no_room, again, evict, round, make_room, push,
  push_payload,
}
use softnix_log_agent.Buffer.Fifo.Spec.{Held, Behind, Rep, total}
use softnix_log_agent.Buffer.Evict.Loop.{
  remaining, oldest, DroppedOldest, drop_oldest_segment-DroppedOldest,
}

module _ {E : Type 0} (codec : Codec E) where
  round-evict :
      (n e m : ℕ) (q : DiskQueue) (j : Inner)
      → q.policy ≡ drop_oldest
      → q.max_bytes < add64 q.inner.bytes n
      → drop_oldest_segment codec q.inner ≡ (done m, j)
      → round codec n e q ≡ again (add64 e m) (record q { inner = j; dropped = add64 q.dropped m })
  unfolding round evict
  round-evict n e m q j p lt d = ground (arith, lt→ltb q.max_bytes (add64 q.inner.bytes n) lt)

  make_room-again :
      (fuel n e k : ℕ) (q p : DiskQueue)
      → round codec n e q ≡ again k p
      → make_room codec (suc fuel) n e q ≡ make_room codec fuel n k p
  unfolding make_room
  make_room-again fuel n e k q p h = ground arith

  pub make_room-room :
      (fuel n e : ℕ) (q : DiskQueue)
      → add64 q.inner.bytes n ≤ q.max_bytes
      → make_room codec (suc fuel) n e q ≡ (room e, q)
  unfolding make_room round
  make_room-room fuel n e q h = ground (arith, ge→ltb q.max_bytes (add64 q.inner.bytes n) h)

  -- A record that is larger than the whole cap: no number of rounds makes room for it.
  make_room-oversized :
      (fuel n e : ℕ) (q : DiskQueue) (held : Held) (rest : List (List ℕ))
      → q.policy ≡ drop_oldest
      → q.max_bytes < n
      → q.inner.bytes + n < 2 ^ 64
      → q.inner.write_seg + fuel < 2 ^ 64
      → Rep codec q.inner held
      → Behind codec q.inner.cursor held rest
      → (q' : DiskQueue) × (make_room codec fuel n e q ≡ (no_room looping, q'))
  unfolding make_room
  make_room-oversized zero n e q held rest p big fits segs r b = (q, refl)
  make_room-oversized (suc fuel) n e q held rest p big fits segs r b =
      let (m, j, eq, d) =
        drop_oldest_segment-DroppedOldest codec held rest q.inner (omega arith) r b in
      let q1 : DiskQueue = record q { inner = j; dropped = add64 q.dropped m } in
      let lt : q.max_bytes < add64 q.inner.bytes n = omega arith in
      let (q', h) =
        make_room-oversized fuel n (add64 e m) q1 (remaining held d.next) d.left p big
          (omega (arith, d.bytes)) (omega (arith, d.write_seg)) d.rep d.behind in
      (q', make_room-again fuel n e (add64 e m) q q1 (round-evict n e m q j p lt eq) ∙ h)

  push-looping :
      (fuel : ℕ) (ev : E) (p : List ℕ) (q q' : DiskQueue)
      → codec.to_vec ev ≡ some p
      → make_room codec fuel (header_len + length p) 0 q ≡ (no_room looping, q')
      → push codec fuel ev q ≡ (looping, q')
  unfolding push push_payload
  push-looping fuel ev p q q' t h = ground arith

  -- Under `drop_oldest`, a push of a record that is larger than the cap of its queue does not end:
  -- whatever the number of rounds that its loop is given, the loop goes on. The queue has no
  -- failures, and its counters are far from their wrap.
  pub push-oversized :
      (fuel : ℕ) (ev : E) (p : List ℕ) (q : DiskQueue) (held : Held) (rest : List (List ℕ))
      → codec.to_vec ev ≡ some p
      → q.policy ≡ drop_oldest
      → q.max_bytes < header_len + length p
      → q.inner.bytes + (header_len + length p) < 2 ^ 64
      → q.inner.write_seg + fuel < 2 ^ 64
      → Rep codec q.inner held
      → Behind codec q.inner.cursor held rest
      → (q' : DiskQueue) × (push codec fuel ev q ≡ (looping, q'))
  push-oversized fuel ev p q held rest t o big fits segs r b =
      let (q', h) =
        make_room-oversized fuel (header_len + length p) 0 q held rest o big fits segs r b in
      (q', push-looping fuel ev p q q' t h)

  -- What the loop has done where it ends with room: the oldest records that were not acknowledged
  -- are gone and counted, all others stay behind the cursor, and the new record fits.
  pub record MadeRoom (n e k segs : ℕ) (rest : List (List ℕ)) (q q' : DiskQueue) : Type 0 where
    pub now : Held
    pub gone : List (List ℕ)
    pub left : List (List ℕ)
    pub split : rest ≡ gone ++ left
    pub counted : k ≡ e + length gone
    pub rep : Rep codec q'.inner now
    pub behind : Behind codec q'.inner.cursor now left
    pub fits : add64 q'.inner.bytes n ≤ q'.max_bytes
    pub max_bytes : q'.max_bytes ≡ q.max_bytes
    pub seg_bytes : q'.seg_bytes ≡ q.seg_bytes
    pub write_seg : q'.inner.write_seg ≤ q.inner.write_seg + segs

  MadeRoom-now :
      (n e segs : ℕ) (rest : List (List ℕ)) (q : DiskQueue) (held : Held)
      → add64 q.inner.bytes n ≤ q.max_bytes
      → Rep codec q.inner held
      → Behind codec q.inner.cursor held rest
      → MadeRoom n e e segs rest q q
  MadeRoom-now n e segs rest q held h r b = record {
    now = held;
    gone = [];
    left = rest;
    split = refl;
    counted = omega arith;
    rep = r;
    behind = b;
    fits = h;
    max_bytes = refl;
    seg_bytes = refl;
    write_seg = omega arith;
  }

  -- One round in front of the others.
  MadeRoom-again :
      (n e m k segs : ℕ) (held : Held) (rest : List (List ℕ)) (q q' : DiskQueue) (j : Inner)
      → e + length rest < 2 ^ 64
      → (d : DroppedOldest codec held rest m q.inner j)
      → MadeRoom n
          (add64 e m)
          k
          segs
          d.left
          (record q { inner = j; dropped = add64 q.dropped m })
          q'
      → MadeRoom n e k (suc segs) rest q q'
  MadeRoom-again n e m k segs held rest q q' j lt d x =
      let l : length rest ≡ length d.gone + length d.left =
        ap length d.split ∙ length-append d.gone d.left in
      record {
        now = x.now;
        gone = d.gone ++ x.gone;
        left = x.left;
        split = d.split ∙ ap (λ z. d.gone ++ z) x.split ∙ sym (append_assoc d.gone x.gone x.left);
        counted = omega (arith, x.counted, d.counted, l, length-append d.gone x.gone);
        rep = x.rep;
        behind = x.behind;
        fits = x.fits;
        max_bytes = x.max_bytes;
        seg_bytes = x.seg_bytes;
        write_seg = omega (arith, x.write_seg, d.write_seg);
      }

  length-left :
      (m : ℕ) (held : Held) (rest : List (List ℕ)) (i j : Inner)
      (d : DroppedOldest codec held rest m i j)
      → m + length d.left ≡ length rest
  length-left m held rest i j d =
      omega (arith, d.counted, length-append d.gone d.left, ap length d.split)

  -- The bytes of what an eviction leaves.
  total-remaining :
      (held : Held) (next : ℕ)
      → total codec held
        ≡ length (encode_all codec (oldest held)) + total codec (remaining held next)
  unfolding total encode_all
  total-remaining [] next = refl
  total-remaining ((s, ps) ∷ []) next = refl
  total-remaining ((s, ps) ∷ (t, qs) ∷ r) next = refl

  total-blank : (s : ℕ) → total codec ((s, []) ∷ []) ≡ 0
  unfolding total encode_all
  total-blank s = refl

  abbrev pub MakesRoom : ℕ → ℕ → ℕ → ℕ → List (List ℕ) → DiskQueue → Type 0
  MakesRoom fuel n e segs rest q =
      (k : ℕ) × (q' : DiskQueue) × (make_room codec fuel n e q ≡ (room k, q'))
      × MadeRoom n e k segs rest q q'

  -- A round that evicts, and what the next rounds do.
  make_room-evict :
      (fuel n e segs : ℕ) (q : DiskQueue) (held : Held) (rest : List (List ℕ))
      → q.policy ≡ drop_oldest
      → q.max_bytes < add64 q.inner.bytes n
      → q.inner.write_seg + 1 < 2 ^ 64
      → e + length rest < 2 ^ 64
      → Rep codec q.inner held
      → Behind codec q.inner.cursor held rest
      → ((m : ℕ) (j : Inner) (d : DroppedOldest codec held rest m q.inner j)
          → MakesRoom fuel n
              (add64 e m)
              segs
              d.left
              (record q { inner = j; dropped = add64 q.dropped m }))
      → MakesRoom (suc fuel) n e (suc segs) rest q
  make_room-evict fuel n e segs q held rest p over lt wraps r b next =
      let (m, j, eq, d) = drop_oldest_segment-DroppedOldest codec held rest q.inner lt r b in
      let (k, q', h, x) = next m j d in
      (
        k,
        q',
        make_room-again fuel n e (add64 e m) q (record q { inner = j; dropped = add64 q.dropped m })
              (round-evict n e m q j p over eq)
            ∙ h,
        MadeRoom-again n e m k segs held rest q q' j wraps d x,
      )

  make_room-fitting :
      (fuel n e segs : ℕ) (q : DiskQueue) (held : Held) (rest : List (List ℕ))
      → add64 q.inner.bytes n ≤ q.max_bytes
      → Rep codec q.inner held
      → Behind codec q.inner.cursor held rest
      → MakesRoom (suc fuel) n e segs rest q
  make_room-fitting fuel n e segs q held rest fit r b =
      (e, q, make_room-room fuel n e q fit, MadeRoom-now n e segs rest q held fit r b)

  fits-cases : (a b : ℕ) → (a ≤ b) ⊎ (b < a)
  fits-cases a b = elim (Bool-cases (leb a b)) [
    | inl h ↦ inl (ground arith)
    | inr h ↦ inr (ground arith)
  ]

  -- The loop ends with room for a record that is not larger than the cap, on a round for each
  -- segment and one more.
  pub make_room-MadeRoom :
      (n e : ℕ) (q : DiskQueue) (held : Held) (rest : List (List ℕ))
      → q.policy ≡ drop_oldest
      → n ≤ q.max_bytes
      → q.inner.bytes ≡ total codec held
      → total codec held + n < 2 ^ 64
      → q.inner.write_seg + length held < 2 ^ 64
      → e + length rest < 2 ^ 64
      → Rep codec q.inner held
      → Behind codec q.inner.cursor held rest
      → MakesRoom (suc (length held)) n e (length held) rest q
  make_room-MadeRoom n e q [] rest p small sum wraps segs evs r b = elim b [ ]
  make_room-MadeRoom n e q ((s, ps) ∷ []) rest p small sum wraps segs evs r b =
      elim (fits-cases (add64 q.inner.bytes n) q.max_bytes) [
        | inl fit ↦ make_room-fitting 1 n e 1 q ((s, ps) ∷ []) rest fit r b
        | inr over ↦ make_room-evict 1 n e 0 q ((s, ps) ∷ []) rest p over segs evs r b (λ m j d.
            make_room-fitting 0 n (add64 e m) 0
              (record q { inner = j; dropped = add64 q.dropped m })
              (remaining ((s, ps) ∷ []) d.next) d.left
              (omega
                (arith, d.bytes, sum, total-remaining ((s, ps) ∷ []) d.next, total-blank d.next))
              d.rep d.behind)
      ]
  make_room-MadeRoom n e q ((s, ps) ∷ (t, qs) ∷ h) rest p small sum wraps segs evs r b =
      elim (fits-cases (add64 q.inner.bytes n) q.max_bytes) [
        | inl fit ↦
            make_room-fitting (suc (suc (length h))) n e (suc (suc (length h))) q
              ((s, ps) ∷ (t, qs) ∷ h) rest fit r b
        | inr over ↦
            make_room-evict (suc (suc (length h))) n e (suc (length h)) q ((s, ps) ∷ (t, qs) ∷ h)
              rest p over (omega arith) evs r b
              (λ m j d.
                make_room-MadeRoom n (add64 e m)
                  (record q { inner = j; dropped = add64 q.dropped m }) ((t, qs) ∷ h) d.left p small
                  (omega (arith, d.bytes, sum, total-remaining ((s, ps) ∷ (t, qs) ∷ h) d.next))
                  (omega (arith, total-remaining ((s, ps) ∷ (t, qs) ∷ h) d.next))
                  (omega (arith, d.write_seg))
                  (omega (arith, length-left m ((s, ps) ∷ (t, qs) ∷ h) rest q.inner j d)) d.rep
                  d.behind)
      ]
