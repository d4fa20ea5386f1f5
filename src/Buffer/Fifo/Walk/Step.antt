-- ===== src/Buffer/Fifo/Walk/Step.antt =====
-- src/buffer.rs: the outer loop of `peek_batch`, one segment after another.
use softnix_log_agent.Prelude.{
  ℕ, ◌≡◌, ◌⊎◌, inl, inr, refl, ap, sym, ◌∙◌, subst, true, false, some, List, [], ◌∷◌, ◌++◌, length,
  arith, append_assoc, append-nil, ltb, ◌==◌, ne→==, ge→ltb, lt→ltb, Bool-cases, if◌then◌else◌,
}
use softnix_log_agent.Buffer.Record.{Codec}
use softnix_log_agent.Buffer.Record.Recovery.{encode_all, AllPayloads}
use softnix_log_agent.Buffer.Disk.{Cursor, Inner, read, range_from}
use softnix_log_agent.Buffer.Reader.{Batch, peek_segments}
use softnix_log_agent.Buffer.Fifo.Spec.{
  Held, numbers, payloads, decode_all, decode_all-append, Behind,
}
use softnix_log_agent.Buffer.Fifo.Peek.{Taken}
use softnix_log_agent.Buffer.Fifo.Walk.{
  Ascending, Ordered, Files, Ascending-Behind, AllPayloads-append, Peeked, Walk, stopped,
  HitNonempty, peek_segment-read, Behind-step, peek_segments-stop, peek_segments-go, after,
  after-Taken, stopped-false, Walk-stop,
}

module _ {E : Type 0} (codec : Codec E) (max max_bytes : ℕ) where
  module _ (s : ℕ) (before behind : List (List ℕ)) (r : Held) (pos : Cursor) (b b0 c : Batch E)
      (t : Taken codec max max_bytes behind b0 c) (same : b0.out ≡ b.out)
      (start : b0.off ≡ length (encode_all codec before)) where
    abbrev at : Cursor
    at = record { seg = s; off = c.off }

    -- The loop ends in this segment.
    Peeked-end :
        stopped codec max max_bytes c ≡ true
        → Peeked codec max max_bytes
            ((s, before ++ behind) ∷ r)
            (behind ++ payloads r)
            pos
            b
            (record { seg = s; off = c.off })
            c
    unfolding stopped
    Peeked-end st = record {
      taken = t.taken;
      left = t.left ++ payloads r;
      split = ap (λ z. z ++ payloads r) t.split ∙ append_assoc t.taken t.left (payloads r);
      out = t.out ∙ ap (λ z. z ++ decode_all codec t.taken) same;
      position = inr (Behind-step codec max max_bytes s before behind r b0 c start t);
      progress = λ m z. ground (arith, t.progress m z);
    }

    -- The segment is used up, and the loop goes on.
    Peeked-next :
        (pos' : Cursor) (b' : Batch E)
        → t.left ≡ []
        → Ascending s r
        → Peeked codec max max_bytes r (payloads r) (record { seg = s; off = c.off }) c pos' b'
        → Peeked codec max max_bytes
            ((s, before ++ behind) ∷ r)
            (behind ++ payloads r)
            pos
            b
            pos'
            b'
    Peeked-next pos' b' e a w = record {
      taken = t.taken ++ w.taken;
      left = w.left;
      split =
          ap (λ z. z ++ payloads r) used
          ∙ ap (λ z. t.taken ++ z) w.split
          ∙ sym (append_assoc t.taken w.taken w.left);
      out =
          w.out
          ∙ ap (λ z. z ++ decode_all codec w.taken)
              (t.out ∙ ap (λ z. z ++ decode_all codec t.taken) same)
          ∙ append_assoc b.out (decode_all codec t.taken) (decode_all codec w.taken)
          ∙ ap (λ z. b.out ++ z) (sym (decode_all-append codec t.taken w.taken));
      position = position w.position;
      progress = w.progress;
    }
      where
        used : behind ≡ t.taken
        used = t.split ∙ ap (λ z. t.taken ++ z) e ∙ append-nil t.taken

        rest : w.taken ≡ [] → t.left ++ payloads r ≡ w.left
        rest z = ap (λ y. y ++ payloads r) e ∙ w.split ∙ ap (λ y. y ++ w.left) z

        position :
            ((pos' ≡ record { seg = s; off = c.off }) × (w.taken ≡ [])) ⊎ Behind codec pos' r w.left
            → ((pos' ≡ pos) × (t.taken ++ w.taken ≡ []))
              ⊎ Behind codec pos' ((s, before ++ behind) ∷ r) w.left
        position (inl (q, z)) = inr (
            subst (λ k. Behind codec k ((s, before ++ behind) ∷ r) w.left) (sym q)
              (subst (λ y. Behind codec at ((s, before ++ behind) ∷ r) y) (rest z)
                (Behind-step codec max max_bytes s before behind r b0 c start t)))
        position (inr bh) = inr (inr (Ascending-Behind codec s r pos' w.left a bh, bh))

  module _ (i : Inner) (no_faults : i.faults ≡ []) where
    -- One segment from a position in it, and those behind it.
    Walk-segment :
        (s : ℕ) (before behind : List (List ℕ)) (r : Held) (pos : Cursor) (b : Batch E)
        → read i.disk s ≡ some (encode_all codec (before ++ behind))
        → AllPayloads codec behind
        → Ascending s r
        → (if s == pos.seg then pos.off else 0) ≡ length (encode_all codec before)
        → HitNonempty codec max max_bytes b
        → ((c : Batch E)
            → HitNonempty codec max max_bytes c
            → Walk codec max max_bytes r
                (payloads r)
                (record { seg = s; off = c.off })
                c
                i
                (numbers r))
        → Walk codec max max_bytes
            ((s, before ++ behind) ∷ r)
            (behind ++ payloads r)
            pos
            b
            i
            (s ∷ numbers r)
    unfolding stopped
    Walk-segment s before behind r pos b file v a start hn rest =
        elim (Bool-cases (stopped codec max max_bytes b)) [
          | inl st ↦
              Walk-stop codec max max_bytes ((s, before ++ behind) ∷ r) (behind ++ payloads r) pos b
                i (s ∷ numbers r) st hn
          | inr go ↦ elim (t go).stop [
            | inl e ↦
                let (pos', b', eq, w) = rest c (λ m z. ((t go).progress m z).1) in
                (
                  pos',
                  b',
                  step go ∙ eq,
                  Peeked-next s before behind r pos b b0 c (t go) refl refl pos' b' e a w,
                )
            | inr st ↦ (
              record { seg = s; off = c.off },
              c,
              step go
                  ∙ peek_segments-stop codec max max_bytes (numbers r)
                      (record { seg = s; off = c.off }) c i st,
              Peeked-end s before behind r pos b b0 c (t go) refl refl st,
            )
          ]
        ]
      where
        len : ℕ
        len = length (encode_all codec before)

        b0 : Batch E
        b0 = record b { off = len }

        c : Batch E
        c = after codec max max_bytes before behind b len

        t : stopped codec max max_bytes b ≡ false → Taken codec max max_bytes behind b0 c
        t go =
            after-Taken codec max max_bytes before behind b v
              (stopped-false codec max max_bytes b go)

        step :
            stopped codec max max_bytes b ≡ false
            → peek_segments codec max max_bytes (s ∷ numbers r) pos b i
              ≡ peek_segments codec max max_bytes (numbers r) (record { seg = s; off = c.off }) c i
        step go = peek_segments-go codec max max_bytes s (numbers r) pos b c i go (
            rw start (
              peek_segment-read codec max max_bytes s b0 i (encode_all codec (before ++ behind))
                no_faults file))

    -- Whole segments.
    Walk-ahead :
        (h : Held) (pos : Cursor) (b : Batch E)
        → Files codec i.disk h
        → Ascending pos.seg h
        → HitNonempty codec max max_bytes b
        → Walk codec max max_bytes h (payloads h) pos b i (numbers h)
    unfolding peek_segments decode_all encode_all
    Walk-ahead [] pos b f a hn = (
      pos,
      b,
      refl,
      record {
        taken = [];
        left = [];
        split = refl;
        out = sym (append-nil b.out);
        position = inl (refl, refl);
        progress = λ _ _. refl;
      },
    )
    Walk-ahead ((s, ps) ∷ r) pos b (file, v, f) (lt, a) hn =
        Walk-segment s [] ps r pos b file v a (rw (ne→== s pos.seg (λ e. omega arith)) refl) hn
          (λ c hc. Walk-ahead r (record { seg = s; off = c.off }) c f a hc)

    Ascending-Ordered : (s : ℕ) (h : Held) → Ascending s h → Ordered h
    Ascending-Ordered s [] a = tt
    Ascending-Ordered s ((t, ps) ∷ r) a = a.1

    Walk-skip :
        (s : ℕ) (ps : List (List ℕ)) (h : Held) (rest : List (List ℕ)) (pos : Cursor) (b : Batch E)
        (segs : List ℕ)
        → Ascending s h
        → Walk codec max max_bytes h rest pos b i segs
        → Walk codec max max_bytes ((s, ps) ∷ h) rest pos b i segs
    Walk-skip s ps h rest pos b segs a (pos', b', eq, w) = (
      pos',
      b',
      eq,
      record {
        taken = w.taken;
        left = w.left;
        split = w.split;
        out = w.out;
        position = lift w.position;
        progress = w.progress;
      },
    )
      where
        lift :
            ((pos' ≡ pos) × (w.taken ≡ [])) ⊎ Behind codec pos' h w.left
            → ((pos' ≡ pos) × (w.taken ≡ [])) ⊎ Behind codec pos' ((s, ps) ∷ h) w.left
        lift (inl e) = inl e
        lift (inr bh) = inr (inr (Ascending-Behind codec s h pos' w.left a bh, bh))

    -- From a position on.
    pub Walk-from :
        (h : Held) (rest : List (List ℕ)) (pos : Cursor) (b : Batch E)
        → Files codec i.disk h
        → Ordered h
        → Behind codec pos h rest
        → HitNonempty codec max max_bytes b
        → Walk codec max max_bytes h rest pos b i (range_from pos.seg (numbers h))
    unfolding range_from
    Walk-from [] rest pos b f a bh hn = elim bh [ ]
    Walk-from ((s, ps) ∷ r) rest pos b (file, v, f) a (inl (e, (before, behind, q, off, rq))) hn =
        let nl : ltb s pos.seg ≡ false = ge→ltb s pos.seg (omega arith) in
        let eq : (s == pos.seg) ≡ true = ground arith in
        rw (q, rq, nl)
          (Walk-segment s before behind r pos b (rw q at file)
            (AllPayloads-append codec before behind (subst (AllPayloads codec) q v)) a
            (rw (eq, off)) hn (λ c hc. Walk-ahead r (record { seg = s; off = c.off }) c f a hc))
    Walk-from ((s, ps) ∷ r) rest pos b (file, v, f) a (inr (lt, bh)) hn = rw (lt→ltb s pos.seg lt) (
        Walk-skip s ps r rest pos b (range_from pos.seg (numbers r)) a
          (Walk-from r rest pos b f (Ascending-Ordered s r a) bh hn))
