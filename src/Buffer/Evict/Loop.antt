-- ===== src/Buffer/Evict/Loop.antt =====
-- src/buffer.rs: `drop_oldest_segment` on any queue of records, and the loop of `push` under
-- `drop_oldest`.
use softnix_log_agent.Prelude.{
  ℕ, ◌+◌, ◌-◌, ◌<◌, ◌≤◌, ◌^◌, ◌≡◌, ap, sym, ◌∙◌, subst, List, [], ◌∷◌, ◌++◌, done, length, arith,
  ne→==, add64,
}
use softnix_log_agent.Buffer.Record.{Codec}
use softnix_log_agent.Buffer.Record.Recovery.{encode_all}
use softnix_log_agent.Buffer.Disk.{Inner}
use softnix_log_agent.Buffer.Segments.{drop_segment, drop_oldest_segment, roll_segment}
use softnix_log_agent.Buffer.Fifo.Spec.{Held, numbers, Behind, Rep, view}
use softnix_log_agent.Buffer.Fifo.Trim.{Holds-lt}
use softnix_log_agent.Buffer.Fifo.Append.Roll.{roll_segment-Rolled, Rep-Rolled, Behind-with_segment}
use softnix_log_agent.Buffer.Evict.{drop_segment-Evicted}

-- The segments that the eviction of the oldest leaves; `n` is the number of a new one.
abbrev pub remaining : Held → ℕ → Held
remaining [] n = []
remaining ((s, ps) ∷ []) n = (n, []) ∷ []
remaining ((s, ps) ∷ (t, qs) ∷ r) n = (t, qs) ∷ r

abbrev pub oldest : Held → List (List ℕ)
oldest [] = []
oldest ((s, ps) ∷ r) = ps

module _ {E : Type 0} (codec : Codec E) where
  -- What `drop_oldest_segment` has done: the oldest records that were not acknowledged are gone and
  -- counted, all others stay behind the cursor, and the bytes of the oldest segment are free.
  pub record DroppedOldest (held : Held) (rest : List (List ℕ)) (n : ℕ) (i j : Inner) : Type 0 where
    pub next : ℕ
    pub gone : List (List ℕ)
    pub left : List (List ℕ)
    pub split : rest ≡ gone ++ left
    pub counted : n ≡ length gone
    pub rep : Rep codec j (remaining held next)
    pub behind : Behind codec j.cursor (remaining held next) left
    pub count : j.count ≡ i.count - n
    pub bytes : j.bytes ≡ i.bytes - length (encode_all codec (oldest held))
    pub write_seg : j.write_seg ≤ i.write_seg + 1

  drop_oldest_segment-several :
      (s : ℕ) (r : List ℕ) (i : Inner)
      → i.segments ≡ s ∷ r
      → s < i.write_seg
      → drop_oldest_segment codec i ≡ drop_segment codec s i
  unfolding drop_oldest_segment
  drop_oldest_segment-several s r i e lt = rw (e, ne→== s i.write_seg (λ q. omega arith))

  drop_oldest_segment-single :
      (s : ℕ) (r : List ℕ) (i k : Inner)
      → i.segments ≡ s ∷ r
      → s ≡ i.write_seg
      → roll_segment codec i ≡ (done tt, k)
      → drop_oldest_segment codec i ≡ drop_segment codec s k
  unfolding drop_oldest_segment
  drop_oldest_segment-single s r i k e q f = ground arith

  -- On a queue without failures, the eviction of the oldest segment succeeds, discards the records
  -- of that segment that were not acknowledged and no other, and returns their number.
  pub drop_oldest_segment-DroppedOldest :
      (held : Held) (rest : List (List ℕ)) (i : Inner)
      → i.write_seg + 1 < 2 ^ 64
      → Rep codec i held
      → Behind codec i.cursor held rest
      → (n : ℕ) × (j : Inner) × (drop_oldest_segment codec i ≡ (done n, j))
        × DroppedOldest held rest n i j
  drop_oldest_segment-DroppedOldest [] rest i lt h b = elim b [ ]
  drop_oldest_segment-DroppedOldest ((s, ps) ∷ []) rest i lt h b =
      let (k, e, d, _, _) = roll_segment-Rolled codec i h.no_faults in
      let next = add64 i.write_seg 1 in
      let (n, j, f, v) =
        drop_segment-Evicted codec s next ps [] [] k (Rep-Rolled codec i k ((s, ps) ∷ []) lt d h)
          rest
          (subst (λ c. Behind codec c ((s, ps) ∷ (next, []) ∷ []) rest) (sym d.cursor)
            (Behind-with_segment codec i.cursor ((s, ps) ∷ []) next rest b)) in
      (
        n,
        j,
        drop_oldest_segment-single s [] i k h.listed h.holds.0 e ∙ f,
        record {
          next = next;
          gone = v.gone;
          left = v.left;
          split = v.split;
          counted = v.counted;
          rep = v.rep;
          behind = v.behind;
          count = v.count ∙ ap (λ z. z - n) d.count;
          bytes = v.bytes ∙ ap (λ z. z - length (encode_all codec ps)) d.bytes;
          write_seg = omega (arith, v.write_seg, d.write_seg);
        },
      )
  drop_oldest_segment-DroppedOldest ((s, ps) ∷ (t, qs) ∷ r) rest i lt h b =
      let (n, j, f, v) = drop_segment-Evicted codec s t ps qs r i h rest b in
      (
        n,
        j,
        drop_oldest_segment-several s (numbers ((t, qs) ∷ r)) i h.listed
              (Holds-lt codec (view i) i.write_seg s t ps qs r h.holds)
            ∙ f,
        record {
          next = t;
          gone = v.gone;
          left = v.left;
          split = v.split;
          counted = v.counted;
          rep = v.rep;
          behind = v.behind;
          count = v.count;
          bytes = v.bytes;
          write_seg = omega (arith, v.write_seg);
        },
      )
