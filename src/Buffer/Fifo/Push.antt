-- ===== src/Buffer/Fifo/Push.antt =====
-- src/buffer.rs: `push` on a queue of records with room.
use softnix_log_agent.Prelude.{
  ℕ, suc, ◌+◌, ◌<◌, ◌≤◌, ◌^◌, ◌≡◌, inl, inr, ap, sym, ◌∙◌, subst, true, false, some, List, [], ◌∷◌,
  ◌++◌, done, length, arith, leb, add64, ge→ltb, Bool-cases,
}
use softnix_log_agent.Buffer.Record.{Codec, encode_record, header_len}
use softnix_log_agent.Buffer.Record.RoundTrip.{IsPayload}
use softnix_log_agent.Buffer.Disk.{Cursor, Inner, write_all}
use softnix_log_agent.Buffer.Segments.{roll_segment}
use softnix_log_agent.Buffer.Queue.{
  DiskQueue, stored, room, open_writer, make_room, round, count_record, append_record, store,
  push_payload, push,
}
use softnix_log_agent.Buffer.Fifo.Spec.{Held, Holds, Behind, Rep, view}
use softnix_log_agent.Buffer.Fifo.Files.{Keeps, Holds-Keeps}
use softnix_log_agent.Buffer.Fifo.Append.{Alike, Extends, open_writer-Alike, write_all-Written}
use softnix_log_agent.Buffer.Fifo.Append.Roll.{
  append_last, with_segment, Rolled, Rep-append_last, Behind-append_last, roll_segment-Rolled,
  Rep-Rolled, Behind-with_segment,
}

module _ {E : Type 0} (codec : Codec E) where
  -- What a stored record has done: it stands behind all others, whatever the position that a reader
  -- has, and no position has moved.
  pub record Appended (p : List ℕ) (held : Held) (i j : Inner) : Type 0 where
    pub now : Held
    pub rep : Rep codec j now
    pub behind :
        (c : Cursor) (rest : List (List ℕ))
        → Behind codec c held rest
        → Behind codec c now (rest ++ p ∷ [])
    pub cursor : j.cursor ≡ i.cursor
    pub peek : j.peek ≡ i.peek
    pub count : j.count ≡ add64 i.count 1
    pub bytes : j.bytes ≡ add64 i.bytes (header_len + length p)

  Rep-Keeps :
      (i j : Inner) (held : Held)
      → Alike i j
      → Keeps (view i) (view j)
      → Rep codec i held
      → Rep codec j held
  Rep-Keeps i j held a k r = record {
    no_faults = a.no_faults;
    listed = a.segments ∙ r.listed;
    holds =
        subst (λ w. Holds codec (view j) w held) (sym a.write_seg)
          (Holds-Keeps codec (view i) (view j) i.write_seg held k r.holds);
  }

  abbrev counted : ℕ → Inner → Inner
  counted rec_len i = record i {
    write_off = add64 i.write_off rec_len;
    bytes = add64 i.bytes rec_len;
    count = add64 i.count 1;
    write_seg_count = add64 i.write_seg_count 1;
  }

  Rep-counted : (n : ℕ) (i : Inner) (held : Held) → Rep codec i held → Rep codec (counted n i) held
  unfolding view
  Rep-counted n i held r = record { no_faults = r.no_faults; listed = r.listed; holds = r.holds }

  count_record-stay :
      (seg_bytes n : ℕ) (i : Inner)
      → leb seg_bytes (counted n i).write_off ≡ false
      → count_record codec seg_bytes n i ≡ (done tt, counted n i)
  unfolding count_record
  count_record-stay seg_bytes n i h = rw h

  count_record-roll :
      (seg_bytes n : ℕ) (i : Inner)
      → leb seg_bytes (counted n i).write_off ≡ true
      → count_record codec seg_bytes n i ≡ roll_segment codec (counted n i)
  unfolding count_record
  count_record-roll seg_bytes n i h = rw h

  append_record-done :
      (seg_bytes : ℕ) (p : List ℕ) (i j k : Inner)
      → open_writer i ≡ (done tt, j)
      → write_all (encode_record codec p) j ≡ (done tt, k)
      → append_record codec seg_bytes p i ≡ count_record codec seg_bytes (header_len + length p) k
  unfolding append_record
  append_record-done seg_bytes p i j k e f = ground arith

  -- What a write of one record leaves, before the counters.
  written-Appended :
      (p : List ℕ) (held : Held) (i j k : Inner)
      → Alike i j
      → Keeps (view i) (view j)
      → Alike j k
      → Extends (encode_record codec p) j k
      → IsPayload codec p
      → Rep codec i held
      → Rep codec k (append_last held p)
  written-Appended p held i j k a v b x w r =
      Rep-append_last codec j k held p b x w (Rep-Keeps i j held a v r)

  record Grown (p : List ℕ) (held : Held) (i k : Inner) : Type 0 where
    rep : Rep codec k (append_last held p)
    write_seg : k.write_seg ≡ i.write_seg
    cursor : k.cursor ≡ i.cursor
    peek : k.peek ≡ i.peek
    count : k.count ≡ add64 i.count 1
    bytes : k.bytes ≡ add64 i.bytes (header_len + length p)

  Appended-stay : (p : List ℕ) (held : Held) (i k : Inner) → Grown p held i k → Appended p held i k
  Appended-stay p held i k g = record {
    now = append_last held p;
    rep = g.rep;
    behind = λ c rest b. Behind-append_last codec c held rest p b;
    cursor = g.cursor;
    peek = g.peek;
    count = g.count;
    bytes = g.bytes;
  }

  Appended-roll :
      (p : List ℕ) (held : Held) (i k l : Inner)
      → k.write_seg + 1 < 2 ^ 64
      → Grown p held i k
      → Rolled (add64 k.write_seg 1) k l
      → Appended p held i l
  Appended-roll p held i k l lt g d = record {
    now = with_segment (append_last held p) (add64 k.write_seg 1);
    rep = Rep-Rolled codec k l (append_last held p) lt d g.rep;
    behind = λ c rest b.
        Behind-with_segment codec c (append_last held p) (add64 k.write_seg 1) (rest ++ p ∷ [])
          (Behind-append_last codec c held rest p b);
    cursor = d.cursor ∙ g.cursor;
    peek = d.peek ∙ g.peek;
    count = d.count ∙ g.count;
    bytes = d.bytes ∙ g.bytes;
  }

  count_record-Appended :
      (seg_bytes n : ℕ) (p : List ℕ) (held : Held) (i k : Inner)
      → k.write_seg + 1 < 2 ^ 64
      → Grown p held i (counted n k)
      → (l : Inner) × (count_record codec seg_bytes n k ≡ (done tt, l)) × Appended p held i l
  count_record-Appended seg_bytes n p held i k lt g =
      elim (Bool-cases (leb seg_bytes (counted n k).write_off)) [
        | inl full ↦
            let (l, e, d, _, _) = roll_segment-Rolled codec (counted n k) g.rep.no_faults in
            (
              l,
              count_record-roll seg_bytes n k full ∙ e,
              Appended-roll p held i (counted n k) l lt g d,
            )
        | inr more ↦ (
          counted n k,
          count_record-stay seg_bytes n k more,
          Appended-stay p held i (counted n k) g,
        )
      ]

  -- The part of `push` behind the loop.
  pub append_record-Appended :
      (seg_bytes : ℕ) (p : List ℕ) (held : Held) (i : Inner)
      → i.write_seg + 1 < 2 ^ 64
      → IsPayload codec p
      → Rep codec i held
      → (l : Inner) × (append_record codec seg_bytes p i ≡ (done tt, l)) × Appended p held i l
  append_record-Appended seg_bytes p held i lt w r =
      let (j, e, a, v) = open_writer-Alike i r.no_faults in
      let x = write_all-Written (encode_record codec p) j a.no_faults in
      let g : Grown p held i (counted (header_len + length p) x.out) = record {
        rep =
            Rep-counted (header_len + length p) x.out (append_last held p)
              (written-Appended p held i j x.out a v x.alike x.extends w r);
        write_seg = x.alike.write_seg ∙ a.write_seg;
        cursor = x.alike.cursor ∙ a.cursor;
        peek = x.alike.peek ∙ a.peek;
        count = ap (λ z. add64 z 1) (x.alike.count ∙ a.count);
        bytes = ap (λ z. add64 z (header_len + length p)) (x.alike.bytes ∙ a.bytes);
      } in
      let (l, f, s) =
        count_record-Appended seg_bytes (header_len + length p) p held i x.out
          (omega (arith, x.alike.write_seg, a.write_seg)) g in
      (l, append_record-done seg_bytes p i j x.out e x.returns ∙ f, s)

  make_room-room :
      (fuel rec_len evicted : ℕ) (q : DiskQueue)
      → add64 q.inner.bytes rec_len ≤ q.max_bytes
      → make_room codec (suc fuel) rec_len evicted q ≡ (room evicted, q)
  unfolding make_room round
  make_room-room fuel rec_len evicted q h =
      ground (arith, ge→ltb q.max_bytes (add64 q.inner.bytes rec_len) h)

  pub push-done :
      (fuel k : ℕ) (ev : E) (p : List ℕ) (q q' : DiskQueue) (l : Inner)
      → codec.to_vec ev ≡ some p
      → make_room codec fuel (header_len + length p) 0 q ≡ (room k, q')
      → append_record codec q'.seg_bytes p q'.inner ≡ (done tt, l)
      → push codec fuel ev q ≡ (stored k, record q' { inner = l })
  unfolding push push_payload store
  push-done fuel k ev p q q' l t m a = ground arith

  -- What a push has done with the records behind the cursor and behind the peek position: the new
  -- one stands behind them, and no position has moved.
  pub record Stored (p : List ℕ) (rest unread : List (List ℕ)) (i j : Inner) : Type 0 where
    pub now : Held
    pub rep : Rep codec j now
    pub unacked : Behind codec j.cursor now (rest ++ p ∷ [])
    pub unpeeked : Behind codec j.peek now (unread ++ p ∷ [])
    pub cursor : j.cursor ≡ i.cursor
    pub peek : j.peek ≡ i.peek
    pub count : j.count ≡ add64 i.count 1
    pub bytes : j.bytes ≡ add64 i.bytes (header_len + length p)

  Stored-Appended :
      (p : List ℕ) (held : Held) (rest unread : List (List ℕ)) (i j : Inner)
      → Behind codec i.cursor held rest
      → Behind codec i.peek held unread
      → Appended p held i j
      → Stored p rest unread i j
  Stored-Appended p held rest unread i j b c a = record {
    now = a.now;
    rep = a.rep;
    unacked =
        subst (λ z. Behind codec z a.now (rest ++ p ∷ [])) (sym a.cursor)
          (a.behind i.cursor rest b);
    unpeeked =
        subst (λ z. Behind codec z a.now (unread ++ p ∷ [])) (sym a.peek)
          (a.behind i.peek unread c);
    cursor = a.cursor;
    peek = a.peek;
    count = a.count;
    bytes = a.bytes;
  }

  -- A push into a queue without failures that has room for the record stores it, evicts nothing,
  -- and puts it behind every other record, for the cursor and for the peek position alike. Neither
  -- of them moves, and the record is counted once.
  pub push-Stored :
      (fuel : ℕ) (ev : E) (p : List ℕ) (q : DiskQueue) (held : Held) (rest unread : List (List ℕ))
      → codec.to_vec ev ≡ some p
      → IsPayload codec p
      → Rep codec q.inner held
      → Behind codec q.inner.cursor held rest
      → Behind codec q.inner.peek held unread
      → add64 q.inner.bytes (header_len + length p) ≤ q.max_bytes
      → q.inner.write_seg + 1 < 2 ^ 64
      → (l : Inner) × (push codec (suc fuel) ev q ≡ (stored 0, record q { inner = l }))
        × Stored p rest unread q.inner l
  push-Stored fuel ev p q held rest unread t w r b c fits lt =
      let (l, e, s) = append_record-Appended q.seg_bytes p held q.inner lt w r in
      (
        l,
        push-done (suc fuel) 0 ev p q q l t (make_room-room fuel (header_len + length p) 0 q fits)
            e,
        Stored-Appended p held rest unread q.inner l b c s,
      )
