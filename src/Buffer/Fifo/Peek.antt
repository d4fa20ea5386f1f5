-- ===== src/Buffer/Fifo/Peek.antt =====
-- src/buffer.rs: `peek_batch` hands out the oldest records that were not peeked.
use softnix_log_agent.Prelude.{
  ℕ, zero, suc, ◌+◌, ◌≤◌, ◌<◌, ◌≡◌, ◌⊎◌, inl, inr, refl, ap, sym, ◌∙◌, true, false, ◌||◌, Option,
  none, some, List, [], ◌∷◌, ◌++◌, length, drop, arith, append_assoc, append-nil, length-append,
  leb, Bool-cases,
}
use softnix_log_agent.Buffer.Record.{
  Codec, ok, eof, header_len, read_header, read_record, encode_record,
}
use softnix_log_agent.Buffer.Record.RoundTrip.{
  length-encode_record, read_record-encode_record, drop-encode_record,
}
use softnix_log_agent.Buffer.Record.Recovery.{encode_all, AllPayloads}
use softnix_log_agent.Buffer.Reader.{Batch, take_record, over_budget, peek_records}
use softnix_log_agent.Buffer.Fifo.Spec.{decode_all}

module _ {E : Type 0} (codec : Codec E) (max max_bytes : ℕ) where
  -- What the inner loop has done with the payloads of a segment: it has taken a first part of them,
  -- in order, and stopped only at the end or by one of its two limits, which need a record taken.
  pub record Taken (bs : List (List ℕ)) (b b' : Batch E) : Type 0 where
    pub taken : List (List ℕ)
    pub left : List (List ℕ)
    pub split : bs ≡ taken ++ left
    pub out : b'.out ≡ b.out ++ decode_all codec taken
    pub off : b'.off ≡ b.off + length (encode_all codec taken)
    pub stop : (left ≡ []) ⊎ ((leb max (length b'.out) || b'.budget_hit) ≡ true)
    pub progress : 0 < max → length b'.out ≡ 0 → (left ≡ []) × (b'.budget_hit ≡ false)

  Taken-nil : (b : Batch E) → b.budget_hit ≡ false → Taken [] b b
  unfolding decode_all encode_all
  Taken-nil b h = record {
    taken = [];
    left = [];
    split = refl;
    out = sym (append-nil b.out);
    off = omega arith;
    stop = inl refl;
    progress = λ _ _. (refl, h);
  }

  -- The loop stops in front of a record.
  Taken-stop :
      (bs : List (List ℕ)) (b b' : Batch E)
      → b'.out ≡ b.out
      → b'.off ≡ b.off
      → (leb max (length b'.out) || b'.budget_hit) ≡ true
      → (0 < max → 0 < length b'.out)
      → Taken bs b b'
  unfolding decode_all encode_all
  Taken-stop bs b b' ho hf hs hp = record {
    taken = [];
    left = bs;
    split = refl;
    out = ho ∙ sym (append-nil b.out);
    off = omega arith;
    stop = inr hs;
    progress = λ m z. absurd (omega (arith, hp m));
  }

  off-take_record :
      (o : Option E) (rec_len : ℕ) (b : Batch E) → (take_record o rec_len b).off ≡ b.off + rec_len
  unfolding take_record
  off-take_record none rec_len b = refl
  off-take_record (some ev) rec_len b = refl

  budget_hit-take_record :
      (o : Option E) (rec_len : ℕ) (b : Batch E)
      → (take_record o rec_len b).budget_hit ≡ b.budget_hit
  unfolding take_record
  budget_hit-take_record none rec_len b = refl
  budget_hit-take_record (some ev) rec_len b = refl

  -- The loop takes one record and goes on.
  Taken-cons :
      (p : List ℕ) (bs : List (List ℕ)) (b b' : Batch E)
      → Taken bs (take_record (codec.from_slice p) (header_len + length p) b) b'
      → Taken (p ∷ bs) b b'
  unfolding decode_all encode_all take_record
  Taken-cons p bs b b' t = record {
    taken = p ∷ t.taken;
    left = t.left;
    split = ap (◌∷◌ p) t.split;
    out = t.out ∙ step (codec.from_slice p);
    off = omega (
      arith,
      t.off,
      off-take_record (codec.from_slice p) (header_len + length p) b,
      length-append (encode_record codec p) (encode_all codec t.taken),
      length-encode_record codec p,
    );
    stop = t.stop;
    progress = t.progress;
  }
    where
      step :
          (o : Option E)
          → (take_record o (header_len + length p) b).out ++ decode_all codec t.taken
            ≡ b.out ++ elim o [
              | none ↦ decode_all codec t.taken
              | some ev ↦ ev ∷ decode_all codec t.taken
            ]
      step none = refl
      step (some ev) = append_assoc b.out (ev ∷ []) (decode_all codec t.taken)

  read_record-nil : (n : ℕ) → read_record codec [] n ≡ eof
  unfolding read_record read_header
  read_record-nil n = refl

  -- The four rounds of the inner loop.
  module _ (fuel : ℕ) (file : List ℕ) (file_len : ℕ) (b : Batch E) where
    peek_records-full :
        leb max (length b.out) ≡ true
        → peek_records codec max max_bytes (suc fuel) file file_len b ≡ b
    unfolding peek_records
    peek_records-full full = ground arith

    peek_records-eof :
        read_record codec file file_len ≡ eof
        → peek_records codec max max_bytes (suc fuel) file file_len b ≡ b
    unfolding peek_records
    peek_records-eof e = ground arith

    peek_records-over :
        (p : List ℕ) (r : ℕ)
        → leb max (length b.out) ≡ false
        → read_record codec file file_len ≡ ok p r
        → over_budget max_bytes r b ≡ true
        → peek_records codec max max_bytes (suc fuel) file file_len b
          ≡ record b { budget_hit = true }
    unfolding peek_records
    peek_records-over p r more e over = ground arith

    peek_records-take :
        (p : List ℕ) (r : ℕ)
        → leb max (length b.out) ≡ false
        → read_record codec file file_len ≡ ok p r
        → over_budget max_bytes r b ≡ false
        → peek_records codec max max_bytes (suc fuel) file file_len b
          ≡ peek_records codec max max_bytes fuel
              (drop r file)
              file_len
              (take_record (codec.from_slice p) r b)
    unfolding peek_records
    peek_records-take p r more e under = ground arith

  over_budget-nonempty : (r : ℕ) (b : Batch E) → over_budget max_bytes r b ≡ true → 0 < length b.out
  unfolding over_budget
  over_budget-nonempty r b h = ground arith

  -- The inner loop over whole records.
  pub peek_records-Taken :
      (bs : List (List ℕ)) (fuel file_len : ℕ) (b : Batch E)
      → AllPayloads codec bs
      → length (encode_all codec bs) ≤ file_len
      → length bs < fuel
      → b.budget_hit ≡ false
      → Taken bs b (peek_records codec max max_bytes fuel (encode_all codec bs) file_len b)
  unfolding encode_all
  peek_records-Taken bs zero file_len b v h lt hb = absurd (omega arith)
  peek_records-Taken [] (suc fuel) file_len b v h lt hb =
      rw (peek_records-eof fuel [] file_len b (read_record-nil file_len)) (Taken-nil b hb)
  peek_records-Taken (p ∷ bs) (suc fuel) file_len b v h lt hb =
      elim (Bool-cases (leb max (length b.out))) [
        | inl full ↦
            rw (peek_records-full fuel file file_len b full)
              (Taken-stop (p ∷ bs) b b refl refl (rw full) (λ z. ground arith))
        | inr more ↦ elim (Bool-cases (over_budget max_bytes r b)) [
          | inl over ↦ rw (peek_records-over fuel file file_len b p r more reads over) (
              Taken-stop (p ∷ bs) b (record b { budget_hit = true }) refl refl (rw more)
                (λ z. over_budget-nonempty r b over))
          | inr under ↦
              rw
                (
                  peek_records-take fuel file file_len b p r more reads under,
                  drop-encode_record codec p (encode_all codec bs),
                )
                (Taken-cons p bs b
                  (peek_records codec max max_bytes fuel (encode_all codec bs) file_len b')
                  (peek_records-Taken bs fuel file_len b' v.1 (omega (arith, l, m)) (omega arith)
                    (budget_hit-take_record (codec.from_slice p) r b ∙ hb)))
        ]
      ]
    where
      file : List ℕ
      file = encode_record codec p ++ encode_all codec bs

      r : ℕ
      r = header_len + length p

      b' : Batch E
      b' = take_record (codec.from_slice p) r b

      l : length file ≡ length (encode_record codec p) + length (encode_all codec bs)
      l = length-append (encode_record codec p) (encode_all codec bs)

      m : length (encode_record codec p) ≡ r
      m = length-encode_record codec p

      reads : read_record codec file file_len ≡ ok p r
      reads =
          read_record-encode_record codec p (encode_all codec bs) file_len v.0 (omega (arith, l, m))
