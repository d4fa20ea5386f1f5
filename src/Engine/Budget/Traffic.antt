-- ===== src/Engine/Budget/Traffic.antt =====
-- src/engine.rs: the channel between inputs and pipeline and what its users may do.
use softnix_log_agent.Prelude.{
  ℕ, ◌+◌, ◌^◌, ◌<◌, ◌≡◌, ◌⊎◌, Bool, true, Option, none, some, List, [], ◌∷◌, ◌++◌, Io, done, fail,
  arith,
}
use softnix_log_agent.Event.{Event}
use softnix_log_agent.Engine.Budget.{
  Channel, Sending, event_bytes, permits_for, begin_blocking_send, end_send, receive,
}

abbrev pub held_by : Option ℕ → ℕ
held_by none = 0
held_by (some n) = n

-- The channel, the sends that wait for room, and the permits of queued or received events that were
-- admitted without one.
pub record Traffic (V : Type 0) : Type 0 where
  pub channel : Channel V
  pub waiting : List (Sending V)
  pub borrowed : ℕ

module _ {Time Num Tree : Type 0} where
  -- The permits that waiting sends hold, and those that queued events were admitted under.
  abbrev pub held : List (Sending (Event Time Num Tree)) → ℕ
  held [] = 0
  held (s ∷ ss) = held_by s.permit + held ss

  abbrev pub charged : List (Event Time Num Tree) → ℕ
  charged [] = 0
  charged (ev ∷ evs) = permits_for ev + charged evs

  abbrev pub bytes_sending : List (Sending (Event Time Num Tree)) → ℕ
  bytes_sending [] = 0
  bytes_sending (s ∷ ss) = event_bytes s.event + bytes_sending ss

  abbrev pub bytes_queued : List (Event Time Num Tree) → ℕ
  bytes_queued [] = 0
  bytes_queued (ev ∷ evs) = event_bytes ev + bytes_queued evs

  pub held-append :
      (xs ys : List (Sending (Event Time Num Tree))) → held (xs ++ ys) ≡ held xs + held ys
  held-append [] ys = omega arith
  held-append (x ∷ xs) ys = omega (arith, held-append xs ys)

  pub charged-append :
      (xs ys : List (Event Time Num Tree)) → charged (xs ++ ys) ≡ charged xs + charged ys
  charged-append [] ys = omega arith
  charged-append (x ∷ xs) ys = omega (arith, charged-append xs ys)

  pub bytes_sending-append :
      (xs ys : List (Sending (Event Time Num Tree)))
      → bytes_sending (xs ++ ys) ≡ bytes_sending xs + bytes_sending ys
  bytes_sending-append [] ys = omega arith
  bytes_sending-append (x ∷ xs) ys = omega (arith, bytes_sending-append xs ys)

  pub bytes_queued-append :
      (xs ys : List (Event Time Num Tree))
      → bytes_queued (xs ++ ys) ≡ bytes_queued xs + bytes_queued ys
  bytes_queued-append [] ys = omega arith
  bytes_queued-append (x ∷ xs) ys = omega (arith, bytes_queued-append xs ys)

  abbrev pub Permitted : Sending (Event Time Num Tree) → Type 0
  Permitted s = (s.permit ≡ none) ⊎ (s.permit ≡ some (permits_for s.event))

  abbrev pub AllPermitted : List (Sending (Event Time Num Tree)) → Type 0
  AllPermitted [] = Unit
  AllPermitted (s ∷ ss) = Permitted s × AllPermitted ss

  pub AllPermitted-middle :
      (xs ys : List (Sending (Event Time Num Tree))) (s : Sending (Event Time Num Tree))
      → AllPermitted (xs ++ s ∷ ys)
      → Permitted s × AllPermitted (xs ++ ys)
  AllPermitted-middle [] ys s h = h
  AllPermitted-middle (x ∷ xs) ys s (p, h) =
      let (q, r) = AllPermitted-middle xs ys s h in (q, (p, r))

  pub AllPermitted-snoc :
      (xs : List (Sending (Event Time Num Tree))) (s : Sending (Event Time Num Tree))
      → AllPermitted xs
      → Permitted s
      → AllPermitted (xs ++ s ∷ [])
  AllPermitted-snoc [] s h p = (p, tt)
  AllPermitted-snoc (x ∷ xs) s (q, h) p = (q, AllPermitted-snoc xs s h p)

  abbrev pub lent : Event Time Num Tree → Option ℕ → ℕ
  lent ev none = permits_for ev
  lent ev (some _) = 0

  abbrev pub borrows : Sending (Event Time Num Tree) → Io (Unit {0}) → ℕ
  borrows s fail = 0
  borrows s (done _) = lent s.event s.permit

  -- What any of the users may do next, the end of the receiver included.
  pub data Step : Traffic (Event Time Num Tree) → Traffic (Event Time Num Tree) → Type 0 where
    begins :
        (t : Traffic (Event Time Num Tree)) (cancelled : Bool) (ev : Event Time Num Tree)
        (s : Sending (Event Time Num Tree)) (c : Channel (Event Time Num Tree))
        → t.channel.gauge + event_bytes ev < 2 ^ 64
        → begin_blocking_send cancelled ev t.channel ≡ some (s, c)
        → Step t (record t { channel = c; waiting = t.waiting ++ s ∷ [] })
    ends :
        (t : Traffic (Event Time Num Tree)) (xs ys : List (Sending (Event Time Num Tree)))
        (s : Sending (Event Time Num Tree)) (r : Io (Unit {0})) (c : Channel (Event Time Num Tree))
        → t.waiting ≡ xs ++ s ∷ ys
        → end_send s t.channel ≡ some (r, c)
        → Step t (record { channel = c; waiting = xs ++ ys; borrowed = t.borrowed + borrows s r })
    receives :
        (t : Traffic (Event Time Num Tree)) (ev : Event Time Num Tree)
        (c : Channel (Event Time Num Tree))
        → receive t.channel ≡ some (ev, c)
        → Step t (record t { channel = c })
    closes :
        (t : Traffic (Event Time Num Tree))
        → Step t (record t { channel = record t.channel { closed = true } })

  pub data Reach (t : Traffic (Event Time Num Tree)) : Traffic (Event Time Num Tree) → Type 0 where
    here : Reach t t
    next : {u v : Traffic (Event Time Num Tree)} → Reach t u → Step u v → Reach t v

  -- No permit is lost and none but the borrowed are made up; the gauge is exact.
  pub record Balanced (total : ℕ) (t : Traffic (Event Time Num Tree)) : Type 0 where
    pub attached : t.channel.attached ≡ true
    pub permits : t.channel.budget + held t.waiting + charged t.channel.queued ≡ total + t.borrowed
    pub gauge : t.channel.gauge ≡ bytes_sending t.waiting + bytes_queued t.channel.queued
    pub bounded : t.channel.gauge < 2 ^ 64
    pub permitted : AllPermitted t.waiting
