-- ===== src/Engine/Budget/Bounds.antt =====
-- src/engine.rs: the channel between inputs and pipeline under any interleaving of its users.
use softnix_log_agent.Prelude.{
  ℕ, ◌+◌, ◌-◌, ◌*◌, ◌^◌, ◌≤◌, ◌<◌, ◌≡◌, ◌⊎◌, inl, inr, refl, ap, ◌∙◌, subst, Bool, true, Option,
  none, some, List, [], ◌∷◌, ◌++◌, Io, done, fail, arith,
}
use softnix_log_agent.Event.{Event}
use softnix_log_agent.Engine.Budget.{
  Channel, Sending, event_bytes, permits_for, credit, uncredit, begin_send, begin_blocking_send,
  give_back, end_send, release, receive,
}
use softnix_log_agent.Engine.Budget.Traffic.{
  held_by, Traffic, held, charged, bytes_sending, bytes_queued, held-append, charged-append,
  bytes_sending-append, bytes_queued-append, AllPermitted, AllPermitted-middle, AllPermitted-snoc,
  lent, borrows, Step, begins, ends, receives, closes, Reach, here, next, Balanced,
}

module _ {Time Num Tree : Type 0} where
  begin-cases :
      (cancelled : Bool) (ev : Event Time Num Tree) (s : Sending (Event Time Num Tree))
      (c c' : Channel (Event Time Num Tree))
      → begin_blocking_send cancelled ev c ≡ some (s, c')
      → ((permits_for ev ≤ c.budget)
          × (s ≡ record { event = ev; permit = some (permits_for ev) })
          × (c' ≡ credit ev (record c { budget = c.budget - permits_for ev })))
        ⊎ ((s ≡ record { event = ev; permit = none }) × (c' ≡ credit ev c))
  unfolding begin_blocking_send begin_send
  begin-cases cancelled ev s c c' e = ground arith

  credit-gauge :
      (ev : Event Time Num Tree) (c : Channel (Event Time Num Tree))
      → c.attached ≡ true
      → c.gauge + event_bytes ev < 2 ^ 64
      → credit ev c ≡ record c { gauge = c.gauge + event_bytes ev }
  unfolding credit
  credit-gauge ev c a h = ground arith

  uncredit-gauge :
      (ev : Event Time Num Tree) (c : Channel (Event Time Num Tree))
      → c.attached ≡ true
      → c.gauge < 2 ^ 64
      → event_bytes ev ≤ c.gauge
      → uncredit ev c ≡ record c { gauge = c.gauge - event_bytes ev }
  unfolding uncredit
  uncredit-gauge ev c a h l = ground arith

  module _ (total : ℕ) where
    begins-Balanced :
        (t : Traffic (Event Time Num Tree)) (cancelled : Bool) (ev : Event Time Num Tree)
        (s : Sending (Event Time Num Tree)) (c : Channel (Event Time Num Tree))
        → t.channel.gauge + event_bytes ev < 2 ^ 64
        → begin_blocking_send cancelled ev t.channel ≡ some (s, c)
        → Balanced total t
        → Balanced total (record t { channel = c; waiting = t.waiting ++ s ∷ [] })
    begins-Balanced t cancelled ev s c h e b = elim (begin-cases cancelled ev s t.channel c e) [
      | inl (le, es, ec) ↦
          let k =
            ec
            ∙ credit-gauge ev (record t.channel { budget = t.channel.budget - permits_for ev })
                b.attached h in
          rw (k, es)
            (record {
              attached = b.attached;
              permits = omega (
                arith,
                b.permits,
                held-append t.waiting (record { event = ev; permit = some (permits_for ev) } ∷ []),
              );
              gauge = omega (
                arith,
                b.gauge,
                bytes_sending-append t.waiting
                    (record { event = ev; permit = some (permits_for ev) } ∷ []),
              );
              bounded = h;
              permitted =
                  AllPermitted-snoc t.waiting
                    (record { event = ev; permit = some (permits_for ev) }) b.permitted (inr refl);
            })
      | inr (es, ec) ↦
          let k = ec ∙ credit-gauge ev t.channel b.attached h in
          rw (k, es)
            (record {
              attached = b.attached;
              permits = omega (
                arith,
                b.permits,
                held-append t.waiting (record { event = ev; permit = none } ∷ []),
              );
              gauge = omega (
                arith,
                b.gauge,
                bytes_sending-append t.waiting (record { event = ev; permit = none } ∷ []),
              );
              bounded = h;
              permitted =
                  AllPermitted-snoc t.waiting (record { event = ev; permit = none }) b.permitted
                    (inl refl);
            })
    ]

    -- The sums over the waiting sends, with one of them taken out.
    held-middle :
        (xs ys : List (Sending (Event Time Num Tree))) (s : Sending (Event Time Num Tree))
        → held (xs ++ s ∷ ys) ≡ held_by s.permit + held (xs ++ ys)
    held-middle xs ys s = omega (arith, held-append xs (s ∷ ys), held-append xs ys)

    bytes_sending-middle :
        (xs ys : List (Sending (Event Time Num Tree))) (s : Sending (Event Time Num Tree))
        → bytes_sending (xs ++ s ∷ ys) ≡ event_bytes s.event + bytes_sending (xs ++ ys)
    bytes_sending-middle xs ys s =
        omega (arith, bytes_sending-append xs (s ∷ ys), bytes_sending-append xs ys)

    end-cases :
        (s : Sending (Event Time Num Tree)) (c c' : Channel (Event Time Num Tree))
        (r : Io (Unit {0}))
        → end_send s c ≡ some (r, c')
        → ((r ≡ fail) × (c' ≡ uncredit s.event (give_back s.permit c)))
          ⊎ ((r ≡ done tt) × (c' ≡ record c { queued = c.queued ++ s.event ∷ [] }))
    unfolding end_send
    end-cases s c c' r e = ground arith

    give_back-budget :
        (p : Option ℕ) (c : Channel (Event Time Num Tree))
        → give_back p c ≡ record c { budget = c.budget + held_by p }
    unfolding give_back
    give_back-budget none c = let e : c.budget + 0 ≡ c.budget = omega arith in rw e refl
    give_back-budget (some n) c = refl

    ends-Balanced :
        (t : Traffic (Event Time Num Tree)) (xs ys : List (Sending (Event Time Num Tree)))
        (s : Sending (Event Time Num Tree)) (r : Io (Unit {0})) (c : Channel (Event Time Num Tree))
        → t.waiting ≡ xs ++ s ∷ ys
        → end_send s t.channel ≡ some (r, c)
        → Balanced total t
        → Balanced total
            (record { channel = c; waiting = xs ++ ys; borrowed = t.borrowed + borrows s r })
    ends-Balanced t xs ys s r c w e b =
        let (p, ps) = AllPermitted-middle xs ys s (subst AllPermitted w b.permitted) in
        let hm = ap held w ∙ held-middle xs ys s in
        let bm = ap bytes_sending w ∙ bytes_sending-middle xs ys s in
        elim (end-cases s t.channel c r e) [
          | inl (er, ec) ↦
              let k =
                ec
                ∙ ap (uncredit s.event) (give_back-budget s.permit t.channel)
                ∙ uncredit-gauge s.event
                    (record t.channel { budget = t.channel.budget + held_by s.permit }) b.attached
                    b.bounded (omega (arith, b.gauge, bm)) in
              rw (k, er)
                (record {
                  attached = b.attached;
                  permits = omega (arith, b.permits, hm);
                  gauge = omega (arith, b.gauge, bm);
                  bounded = omega (arith, b.bounded);
                  permitted = ps;
                })
          | inr (er, ec) ↦
              rw (ec, er)
                (record {
                  attached = b.attached;
                  permits = elim p [
                    | inl np ↦ omega (
                      arith,
                      b.permits,
                      hm,
                      ap held_by np,
                      ap (lent s.event) np,
                      charged-append t.channel.queued (s.event ∷ []),
                    )
                    | inr sp ↦ omega (
                      arith,
                      b.permits,
                      hm,
                      ap held_by sp,
                      ap (lent s.event) sp,
                      charged-append t.channel.queued (s.event ∷ []),
                    )
                  ];
                  gauge =
                      omega
                        (arith, b.gauge, bm, bytes_queued-append t.channel.queued (s.event ∷ []));
                  bounded = b.bounded;
                  permitted = ps;
                })
        ]

    receive-cases :
        (ev : Event Time Num Tree) (c c' : Channel (Event Time Num Tree))
        → receive c ≡ some (ev, c')
        → (evs : List (Event Time Num Tree)) × (c.queued ≡ ev ∷ evs)
          × (c' ≡ record c {
            queued = evs;
            budget = c.budget + permits_for ev;
            gauge = c.gauge - event_bytes ev;
          })
    unfolding receive release
    receive-cases ev c c' e = ground arith

    receives-Balanced :
        (t : Traffic (Event Time Num Tree)) (ev : Event Time Num Tree)
        (c : Channel (Event Time Num Tree))
        → receive t.channel ≡ some (ev, c)
        → Balanced total t
        → Balanced total (record t { channel = c })
    receives-Balanced t ev c e b =
        let (evs, q, k) = receive-cases ev t.channel c e in
        rw k (record {
          attached = b.attached;
          permits = omega (arith, b.permits, ap charged q);
          gauge = omega (arith, b.gauge, ap bytes_queued q);
          bounded = omega (arith, b.bounded);
          permitted = b.permitted;
        })

    Step-Balanced :
        {t u : Traffic (Event Time Num Tree)} → Step t u → Balanced total t → Balanced total u
    Step-Balanced (begins t cancelled ev s c h e) b = begins-Balanced t cancelled ev s c h e b
    Step-Balanced (ends t xs ys s r c w e) b = ends-Balanced t xs ys s r c w e b
    Step-Balanced (receives t ev c e) b = receives-Balanced t ev c e b
    Step-Balanced (closes t) b = record {
      attached = b.attached;
      permits = b.permits;
      gauge = b.gauge;
      bounded = b.bounded;
      permitted = b.permitted;
    }

    pub Reach-Balanced :
        {t u : Traffic (Event Time Num Tree)} → Balanced total t → Reach t u → Balanced total u
    Reach-Balanced b here = b
    Reach-Balanced b (next r s) = Step-Balanced s (Reach-Balanced b r)

    -- No event is so large that its permits are cut to a `u32`.
    abbrev pub AllSmall : List (Event Time Num Tree) → Type 0
    AllSmall [] = Unit
    AllSmall (ev ∷ evs) = (event_bytes ev < 2 ^ 41) × AllSmall evs

    event_bytes-le :
        (ev : Event Time Num Tree)
        → event_bytes ev < 2 ^ 41
        → event_bytes ev ≤ 1024 * permits_for ev
    unfolding permits_for
    event_bytes-le ev h = ground arith

    bytes_queued-le :
        (evs : List (Event Time Num Tree)) → AllSmall evs → bytes_queued evs ≤ 1024 * charged evs
    bytes_queued-le [] h = omega arith
    bytes_queued-le (ev ∷ evs) (s, h) = omega (arith, event_bytes-le ev s, bytes_queued-le evs h)

    -- The channel is bounded in bytes: as long as no cancelled send has let an event in without
    -- permits, the events queued in it have together at most as many bytes as the budget, whatever
    -- the order of the users' steps. No event is of 2 TiB or more.
    pub Reach-bytes_queued :
        {t u : Traffic (Event Time Num Tree)}
        → Balanced total t
        → Reach t u
        → u.borrowed ≡ 0
        → AllSmall u.channel.queued
        → bytes_queued u.channel.queued ≤ 1024 * total
    Reach-bytes_queued b r n h =
        let k = Reach-Balanced b r in omega (arith, k.permits, n, bytes_queued-le _ h)
