-- ===== src/Buffer/Fifo/Walk.antt =====
-- src/buffer.rs: the outer loop of `peek_batch`, over the segments behind a position.
pub mod Step
use softnix_log_agent.Prelude.{
  ℕ, zero, suc, ◌+◌, ◌-◌, ◌≤◌, ◌<◌, ◌≡◌, ◌⊎◌, inl, inr, refl, ap, sym, ◌∙◌, Bool, true, false, ◌||◌,
  Option, none, some, List, [], ◌∷◌, ◌++◌, Io, done, fail, length, take, drop, arith, append_assoc,
  append-nil, length-append, leb, ltb, ◌==◌, drop-length-append, ne→==, ==-refl, ge→ltb, lt→ltb,
  Bool-cases, if◌then◌else◌,
}
use softnix_log_agent.Buffer.Record.{Codec}
use softnix_log_agent.Buffer.Record.Recovery.{
  encode_all, encode_all-append, AllPayloads, length-le-encode_all,
}
use softnix_log_agent.Buffer.Disk.{Disk, Cursor, Inner, read, draw, range_from}
use softnix_log_agent.Buffer.Reader.{Batch, peek_records, peek_segment, peek_segments}
use softnix_log_agent.Buffer.Fifo.Spec.{
  Held, numbers, payloads, decode_all, decode_all-append, Behind,
}
use softnix_log_agent.Buffer.Fifo.Peek.{Taken, peek_records-Taken}

-- Each segment is larger than the one before it.
abbrev pub Ascending : ℕ → Held → Type 0
Ascending s [] = Unit
Ascending s ((t, _) ∷ r) = (s < t) × Ascending t r

abbrev pub Ordered : Held → Type 0
Ordered [] = Unit
Ordered ((s, _) ∷ r) = Ascending s r

module _ {E : Type 0} (codec : Codec E) where
  -- Every segment has a file with its payloads.
  abbrev pub Files : Disk → Held → Type 0
  Files d [] = Unit
  Files d ((s, ps) ∷ r) = (read d s ≡ some (encode_all codec ps)) × AllPayloads codec ps × Files d r

  pub Ascending-Behind :
      (s : ℕ) (h : Held) (c : Cursor) (rest : List (List ℕ))
      → Ascending s h
      → Behind codec c h rest
      → s < c.seg
  Ascending-Behind s [] c rest a h = elim h [ ]
  Ascending-Behind s ((t, ps) ∷ r) c rest a (inl (e, _)) = omega arith
  Ascending-Behind s ((t, ps) ∷ r) c rest a (inr (lt, _)) = omega arith

  pub AllPayloads-append :
      (ps qs : List (List ℕ)) → AllPayloads codec (ps ++ qs) → AllPayloads codec qs
  AllPayloads-append [] qs v = v
  AllPayloads-append (p ∷ ps) qs v = AllPayloads-append ps qs v.1

module _ {E : Type 0} (codec : Codec E) (max max_bytes : ℕ) where
  -- What the outer loop has done with the payloads `rest` behind its position: it has taken a first
  -- part of them, and its new position is at what is left.
  pub record Peeked (h : Held) (rest : List (List ℕ)) (pos : Cursor) (b : Batch E) (pos' : Cursor)
      (b' : Batch E) : Type 0 where
    pub taken : List (List ℕ)
    pub left : List (List ℕ)
    pub split : rest ≡ taken ++ left
    pub out : b'.out ≡ b.out ++ decode_all codec taken
    pub position : ((pos' ≡ pos) × (taken ≡ [])) ⊎ Behind codec pos' h left
    pub progress : 0 < max → length b'.out ≡ 0 → left ≡ []

  abbrev pub Walk : Held → List (List ℕ) → Cursor → Batch E → Inner → List ℕ → Type 0
  Walk h rest pos b i segs =
      (pos' : Cursor) × (b' : Batch E) × (peek_segments codec max max_bytes segs pos b i
        ≡ (done pos', b', i))
      × Peeked h rest pos b pos' b'

  -- One segment without a failure.
  pub peek_segment-read :
      (seg : ℕ) (b : Batch E) (i : Inner) (bs : List ℕ)
      → i.faults ≡ []
      → read i.disk seg ≡ some bs
      → peek_segment codec max max_bytes seg b i ≡ (
        done tt,
        peek_records codec max max_bytes (suc (length bs)) (drop b.off bs) (length bs) b,
        i,
      )
  unfolding peek_segment draw
  peek_segment-read seg b i bs f e = ground arith

  -- The position behind what the inner loop took of one segment.
  pub Behind-step :
      (s : ℕ) (before behind : List (List ℕ)) (r : Held) (b c : Batch E)
      → b.off ≡ length (encode_all codec before)
      → (t : Taken codec max max_bytes behind b c)
      → Behind codec
          (record { seg = s; off = c.off })
          ((s, before ++ behind) ∷ r)
          (t.left ++ payloads r)
  Behind-step s before behind r b c h t = inl (
    refl,
    (
      before ++ t.taken,
      t.left,
      ap (λ z. before ++ z) t.split ∙ sym (append_assoc before t.taken t.left),
      rw (encode_all-append codec before t.taken) (
          omega (arith, t.off, length-append (encode_all codec before) (encode_all codec t.taken))),
      refl,
    ),
  )

  unfoldable pub stopped : Batch E → Bool
  stopped b = leb max (length b.out) || b.budget_hit

  -- A batch that the byte budget has closed is not empty.
  abbrev pub HitNonempty : Batch E → Type 0
  HitNonempty b = 0 < max → length b.out ≡ 0 → b.budget_hit ≡ false

  pub peek_segments-stop :
      (segs : List ℕ) (pos : Cursor) (b : Batch E) (i : Inner)
      → stopped b ≡ true
      → peek_segments codec max max_bytes segs pos b i ≡ (done pos, b, i)
  unfolding peek_segments stopped
  peek_segments-stop [] pos b i h = refl
  peek_segments-stop (s ∷ segs) pos b i h = rw (h, peek_segments)

  pub peek_segments-go :
      (s : ℕ) (segs : List ℕ) (pos : Cursor) (b c : Batch E) (i : Inner)
      → stopped b ≡ false
      → peek_segment codec max max_bytes s
          (record b { off = if s == pos.seg then pos.off else 0 })
          i
        ≡ (done tt, c, i)
      → peek_segments codec max max_bytes (s ∷ segs) pos b i
        ≡ peek_segments codec max max_bytes segs (record { seg = s; off = c.off }) c i
  unfolding peek_segments stopped
  peek_segments-go s segs pos b c i h f = ground arith

  pub Walk-stop :
      (h : Held) (rest : List (List ℕ)) (pos : Cursor) (b : Batch E) (i : Inner) (segs : List ℕ)
      → stopped b ≡ true
      → HitNonempty b
      → Walk h rest pos b i segs
  unfolding stopped decode_all
  Walk-stop h rest pos b i segs st hn = (
    pos,
    b,
    peek_segments-stop segs pos b i st,
    record {
      taken = [];
      left = rest;
      split = refl;
      out = sym (append-nil b.out);
      position = inl (refl, refl);
      progress = λ m z. ground (arith, hn m z);
    },
  )

  -- The batch behind one segment, from the position `start` in it.
  abbrev pub after : List (List ℕ) → List (List ℕ) → Batch E → ℕ → Batch E
  after before behind b start =
      peek_records codec max max_bytes (suc (length (encode_all codec (before ++ behind))))
        (drop start (encode_all codec (before ++ behind)))
        (length (encode_all codec (before ++ behind))) (record b { off = start })

  pub after-Taken :
      (before behind : List (List ℕ)) (b : Batch E)
      → AllPayloads codec behind
      → b.budget_hit ≡ false
      → Taken codec max max_bytes behind
          (record b { off = length (encode_all codec before) })
          (after before behind b (length (encode_all codec before)))
  after-Taken before behind b v hb =
      let l = length-append (encode_all codec before) (encode_all codec behind) in
      rw
        (
          encode_all-append codec before behind,
          drop-length-append (encode_all codec before) (encode_all codec behind),
        )
        (peek_records-Taken codec max max_bytes behind
          (suc (length (encode_all codec before ++ encode_all codec behind)))
          (length (encode_all codec before ++ encode_all codec behind))
          (record b { off = length (encode_all codec before) }) v (omega (arith, l))
          (omega (arith, l, length-le-encode_all codec behind)) hb)

  pub stopped-false : (b : Batch E) → stopped b ≡ false → b.budget_hit ≡ false
  unfolding stopped
  stopped-false b h = ground arith
