-- ===== src/Buffer/Fifo/Append/Roll.antt =====
-- src/buffer.rs: `push` and `roll_segment` on a queue of records.
use softnix_log_agent.Prelude.{
  ℕ, ◌+◌, ◌<◌, ◌^◌, ◌≡◌, inl, inr, refl, ap, sym, ◌∙◌, subst, true, Option, none, some, List, [],
  ◌∷◌, ◌++◌, done, arith, ◌==◌, if◌then◌else◌, ge→ltb, ne→==, append-nil, append_assoc, add64,
}
use softnix_log_agent.Buffer.Record.{Codec, encode_record}
use softnix_log_agent.Buffer.Record.RoundTrip.{IsPayload}
use softnix_log_agent.Buffer.Record.Recovery.{encode_all, encode_all-append, AllPayloads}
use softnix_log_agent.Buffer.Disk.{Cursor, Inner, write, draw, flush_writer, insert}
use softnix_log_agent.Buffer.Segments.{create, roll_next, roll_segment}
use softnix_log_agent.Buffer.Fifo.Spec.{Held, numbers, payloads, Holds, Behind, Rep, view}
use softnix_log_agent.Buffer.Fifo.Files.{read-write, flush_writer-read, flush_writer-Flushed}
use softnix_log_agent.Buffer.Fifo.Trim.{Holds-lt}
use softnix_log_agent.Buffer.Fifo.Append.{Alike, Extends, flush_writer-done}

-- One more payload in the newest segment.
unfoldable pub append_last : Held → List ℕ → Held
append_last [] p = []
append_last ((s, ps) ∷ []) p = (s, ps ++ p ∷ []) ∷ []
append_last ((s, ps) ∷ (t, qs) ∷ r) p = (s, ps) ∷ append_last ((t, qs) ∷ r) p

numbers-append_last : (h : Held) (p : List ℕ) → numbers (append_last h p) ≡ numbers h
unfolding append_last
numbers-append_last [] p = refl
numbers-append_last ((s, ps) ∷ []) p = refl
numbers-append_last ((s, ps) ∷ (t, qs) ∷ r) p = ap (◌∷◌ s) (numbers-append_last ((t, qs) ∷ r) p)

module _ {E : Type 0} (codec : Codec E) where
  AllPayloads-snoc :
      (ps : List (List ℕ)) (p : List ℕ)
      → AllPayloads codec ps
      → IsPayload codec p
      → AllPayloads codec (ps ++ p ∷ [])
  AllPayloads-snoc [] p a v = (v, tt)
  AllPayloads-snoc (q ∷ ps) p a v = (a.0, AllPayloads-snoc ps p a.1 v)

  encode_all-snoc :
      (ps : List (List ℕ)) (p : List ℕ)
      → encode_all codec (ps ++ p ∷ []) ≡ encode_all codec ps ++ encode_record codec p
  unfolding encode_all
  encode_all-snoc ps p =
      encode_all-append codec ps (p ∷ [])
      ∙ ap (λ z. encode_all codec ps ++ z) (append-nil (encode_record codec p))

  payloads-append_last :
      (s : ℕ) (ps : List (List ℕ)) (h : Held) (p : List ℕ)
      → payloads (append_last ((s, ps) ∷ h) p) ≡ payloads ((s, ps) ∷ h) ++ p ∷ []
  unfolding append_last
  payloads-append_last s ps [] p =
      append-nil (ps ++ p ∷ []) ∙ ap (λ z. z ++ p ∷ []) (sym (append-nil ps))
  payloads-append_last s ps ((t, qs) ∷ r) p =
      ap (λ z. ps ++ z) (payloads-append_last t qs r p)
      ∙ sym (append_assoc ps (payloads ((t, qs) ∷ r)) (p ∷ []))

  pub Behind-append_last :
      (c : Cursor) (h : Held) (rest : List (List ℕ)) (p : List ℕ)
      → Behind codec c h rest
      → Behind codec c (append_last h p) (rest ++ p ∷ [])
  unfolding append_last
  Behind-append_last c [] rest p b = b
  Behind-append_last c ((s, ps) ∷ []) rest p (inl (e, (before, behind, q, off, r))) = inl (
    e,
    (
      before,
      behind ++ p ∷ [],
      ap (λ z. z ++ p ∷ []) q ∙ append_assoc before behind (p ∷ []),
      off,
      ap (λ z. z ++ p ∷ []) (r ∙ append-nil behind) ∙ sym (append-nil (behind ++ p ∷ [])),
    ),
  )
  Behind-append_last c ((s, ps) ∷ []) rest p (inr (lt, b)) = elim b [ ]
  Behind-append_last c ((s, ps) ∷ (t, qs) ∷ h) rest p (inl (e, (before, behind, q, off, r))) = inl (
    e,
    (
      before,
      behind,
      q,
      off,
      ap (λ z. z ++ p ∷ []) r
          ∙ append_assoc behind (payloads ((t, qs) ∷ h)) (p ∷ [])
          ∙ ap (λ z. behind ++ z) (sym (payloads-append_last t qs h p)),
    ),
  )
  Behind-append_last c ((s, ps) ∷ (t, qs) ∷ h) rest p (inr (lt, b)) =
      inr (lt, Behind-append_last c ((t, qs) ∷ h) rest p b)

  Holds-append_last :
      (v v' : ℕ → Option (List ℕ)) (w : ℕ) (h : Held) (p : List ℕ)
      → ((t : ℕ) (x : List ℕ)
          → v t ≡ some x
          → v' t ≡ some (if t == w then x ++ encode_record codec p else x))
      → IsPayload codec p
      → Holds codec v w h
      → Holds codec v' w (append_last h p)
  unfolding append_last
  Holds-append_last v v' w [] p k i h = h
  Holds-append_last v v' w ((s, ps) ∷ []) p k i (e, f, a) = (
    e,
    k s (encode_all codec ps) f ∙ ap some (rw (eq e) (sym (encode_all-snoc ps p))),
    AllPayloads-snoc ps p a i,
  )
    where
      eq : s ≡ w → (s == w) ≡ true
      eq q = ground arith
  Holds-append_last v v' w ((s, ps) ∷ (t, qs) ∷ []) p k i (lt, f, a, h) = (
    lt,
    k s (encode_all codec ps) f
        ∙ ap some
            (rw (ne→== s w (λ q. omega (arith, Holds-lt codec v w s t ps qs [] (lt, f, a, h))))),
    a,
    Holds-append_last v v' w ((t, qs) ∷ []) p k i h,
  )
  Holds-append_last v v' w ((s, ps) ∷ (t, qs) ∷ (u, os) ∷ r) p k i (lt, f, a, h) = (
    lt,
    k s (encode_all codec ps) f
        ∙ ap some (
            rw (
              ne→== s w
                (λ q. omega (arith, Holds-lt codec v w s t ps qs ((u, os) ∷ r) (lt, f, a, h))))),
    a,
    Holds-append_last v v' w ((t, qs) ∷ (u, os) ∷ r) p k i h,
  )

  -- A write of one record.
  pub Rep-append_last :
      (i j : Inner) (h : Held) (p : List ℕ)
      → Alike i j
      → Extends (encode_record codec p) i j
      → IsPayload codec p
      → Rep codec i h
      → Rep codec j (append_last h p)
  Rep-append_last i j h p a x v r = record {
    no_faults = a.no_faults;
    listed = a.segments ∙ r.listed ∙ sym (numbers-append_last h p);
    holds =
        subst (λ w. Holds codec (view j) w (append_last h p)) (sym a.write_seg)
          (Holds-append_last (view i) (view j) i.write_seg h p x v r.holds);
  }

-- A new empty segment behind the others.
abbrev pub with_segment : Held → ℕ → Held
with_segment [] n = (n, []) ∷ []
with_segment ((s, ps) ∷ r) n = (s, ps) ∷ with_segment r n

payloads-with_segment : (h : Held) (n : ℕ) → payloads (with_segment h n) ≡ payloads h
payloads-with_segment [] n = refl
payloads-with_segment ((s, ps) ∷ r) n = ap (λ z. ps ++ z) (payloads-with_segment r n)

-- What a roll leaves.
pub record Rolled (n : ℕ) (i j : Inner) : Type 0 where
  pub no_faults : j.faults ≡ []
  pub segments : j.segments ≡ insert n i.segments
  pub disk : j.disk ≡ write (flush_writer i).1.disk n []
  pub writer : j.writer ≡ none
  pub write_seg : j.write_seg ≡ n
  pub cursor : j.cursor ≡ i.cursor
  pub peek : j.peek ≡ i.peek
  pub count : j.count ≡ i.count
  pub bytes : j.bytes ≡ i.bytes

view-Rolled :
    (n : ℕ) (i j : Inner)
    → i.faults ≡ []
    → Rolled n i j
    → (t : ℕ) (x : List ℕ) → t < n
    → view i t ≡ some x
    → view j t ≡ some x
unfolding view
view-Rolled n i j f d t x lt h = ground (
  arith,
  d.disk,
  d.writer,
  d.write_seg,
  read-write (flush_writer i).1.disk n t [],
  flush_writer-read i f t x h,
)

view-Rolled_new : (n : ℕ) (i j : Inner) → Rolled n i j → view j n ≡ some []
unfolding view
view-Rolled_new n i j d =
    ground (arith, d.disk, d.writer, d.write_seg, read-write (flush_writer i).1.disk n n [])

module _ {E : Type 0} (codec : Codec E) where
  roll_next-done :
      (k : Inner)
      → k.faults ≡ []
      → roll_next codec k ≡ (
        done tt,
        record k {
          disk = write k.disk (add64 k.write_seg 1) [];
          segments = insert (add64 k.write_seg 1) k.segments;
          write_seg = add64 k.write_seg 1;
          write_off = 0;
          write_seg_count = 0;
        },
      )
  unfolding roll_next create draw
  roll_next-done k f = rw f

  roll_segment-next :
      (i : Inner)
      → (flush_writer i).0 ≡ done tt
      → roll_segment codec i ≡ roll_next codec (record (flush_writer i).1 { writer = none })
  unfolding roll_segment
  roll_segment-next i f = rw (f, roll_segment)

  -- A roll that nothing disturbs.
  pub roll_segment-Rolled :
      (i : Inner)
      → i.faults ≡ []
      → (j : Inner) × (roll_segment codec i ≡ (done tt, j))
        × Rolled (add64 i.write_seg 1) i j
        × (j.write_off ≡ 0)
        × (j.write_seg_count ≡ 0)
  roll_segment-Rolled i f =
      let fl = flush_writer-Flushed i f in
      let next = add64 i.write_seg 1 in
      (
        record (flush_writer i).1 {
          disk = write (flush_writer i).1.disk next [];
          segments = insert next i.segments;
          write_seg = next;
          write_off = 0;
          write_seg_count = 0;
          writer = none;
        },
        roll_segment-next i (flush_writer-done i f)
            ∙ roll_next-done (record (flush_writer i).1 { writer = none }) fl.no_faults
            ∙ rw (fl.write_seg, fl.segments),
        record {
          no_faults = fl.no_faults;
          segments = refl;
          disk = refl;
          writer = refl;
          write_seg = refl;
          cursor = fl.cursor;
          peek = fl.peek;
          count = fl.count;
          bytes = fl.bytes;
        },
        refl,
        refl,
      )

  insert-numbers :
      (v : ℕ → Option (List ℕ)) (w n : ℕ) (h : Held)
      → w < n
      → Holds codec v w h
      → insert n (numbers h) ≡ numbers (with_segment h n)
  unfolding insert
  insert-numbers v w n [] lt h = refl
  insert-numbers v w n ((s, ps) ∷ []) lt (e, _, _) =
      rw (ge→ltb n s (omega arith), ne→== n s (λ q. omega arith))
  insert-numbers v w n ((s, ps) ∷ (t, qs) ∷ r) lt h =
      let sw = Holds-lt codec v w s t ps qs r h in
      rw (ge→ltb n s (omega (arith, sw)), ne→== n s (λ q. omega (arith, sw)))
        (ap (◌∷◌ s) (insert-numbers v w n ((t, qs) ∷ r) lt h.3))

  Holds-with_segment :
      (v v' : ℕ → Option (List ℕ)) (w n : ℕ) (h : Held)
      → ((t : ℕ) (x : List ℕ) → t < n → v t ≡ some x → v' t ≡ some x)
      → v' n ≡ some []
      → w < n
      → Holds codec v w h
      → Holds codec v' n (with_segment h n)
  unfolding encode_all
  Holds-with_segment v v' w n [] k z lt h = elim h [ ]
  Holds-with_segment v v' w n ((s, ps) ∷ []) k z lt (e, f, a) =
      (omega arith, k s _ (omega arith) f, a, (refl, z, tt))
  Holds-with_segment v v' w n ((s, ps) ∷ (t, qs) ∷ r) k z lt (l, f, a, h) =
      let sw = Holds-lt codec v w s t ps qs r (l, f, a, h) in
      (l, k s _ (omega (arith, sw)) f, a, Holds-with_segment v v' w n ((t, qs) ∷ r) k z lt h)

  pub Behind-with_segment :
      (c : Cursor) (h : Held) (n : ℕ) (rest : List (List ℕ))
      → Behind codec c h rest
      → Behind codec c (with_segment h n) rest
  Behind-with_segment c [] n rest b = elim b [ ]
  Behind-with_segment c ((s, ps) ∷ h) n rest (inl (e, (before, behind, q, off, r))) =
      inl (e, (before, behind, q, off, r ∙ ap (λ z. behind ++ z) (sym (payloads-with_segment h n))))
  Behind-with_segment c ((s, ps) ∷ h) n rest (inr (lt, b)) =
      inr (lt, Behind-with_segment c h n rest b)

  -- A roll adds an empty segment.
  pub Rep-Rolled :
      (i j : Inner) (h : Held)
      → i.write_seg + 1 < 2 ^ 64
      → Rolled (add64 i.write_seg 1) i j
      → Rep codec i h
      → Rep codec j (with_segment h (add64 i.write_seg 1))
  Rep-Rolled i j h lt d r = record {
    no_faults = d.no_faults;
    listed =
        d.segments
        ∙ ap (insert (add64 i.write_seg 1)) r.listed
        ∙ insert-numbers (view i) i.write_seg (add64 i.write_seg 1) h (omega arith) r.holds;
    holds =
        subst (λ w. Holds codec (view j) w (with_segment h (add64 i.write_seg 1))) (sym d.write_seg)
          (Holds-with_segment (view i) (view j) i.write_seg (add64 i.write_seg 1) h
            (view-Rolled (add64 i.write_seg 1) i j r.no_faults d)
            (view-Rolled_new (add64 i.write_seg 1) i j d) (omega arith) r.holds);
  }
