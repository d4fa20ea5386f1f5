-- ===== src/Buffer/Evict/Push.antt =====
-- src/buffer.rs: `push` under the `drop_oldest` policy.
use softnix_log_agent.Prelude.{
  ℕ, suc, ◌+◌, ◌<◌, ◌≤◌, ◌^◌, ◌≡◌, sym, subst, some, List, [], ◌∷◌, ◌++◌, length, arith,
}
use softnix_log_agent.Buffer.Record.{Codec, header_len}
use softnix_log_agent.Buffer.Record.RoundTrip.{IsPayload}
use softnix_log_agent.Buffer.Disk.{Inner}
use softnix_log_agent.Buffer.Queue.{DiskQueue, drop_oldest, stored, push}
use softnix_log_agent.Buffer.Fifo.Spec.{Held, Behind, Rep, total}
use softnix_log_agent.Buffer.Fifo.Push.{Appended, append_record-Appended, push-done}
use softnix_log_agent.Buffer.Evict.Room.{MadeRoom, make_room-MadeRoom}

module _ {E : Type 0} (codec : Codec E) where
  -- What a push that may evict has done with the records behind the cursor.
  pub record Replaced (p : List ℕ) (k : ℕ) (rest : List (List ℕ)) (q q' : DiskQueue) : Type 0 where
    pub now : Held
    pub gone : List (List ℕ)
    pub left : List (List ℕ)
    pub split : rest ≡ gone ++ left
    pub evicted : k ≡ length gone
    pub rep : Rep codec q'.inner now
    pub unacked : Behind codec q'.inner.cursor now (left ++ p ∷ [])
    pub within_cap : q'.inner.bytes ≤ q.max_bytes

  Appended-Replaced :
      (p : List ℕ) (k segs : ℕ) (rest : List (List ℕ)) (q q' : DiskQueue) (l : Inner)
      → (x : MadeRoom codec (header_len + length p) 0 k segs rest q q')
      → Appended codec p x.now q'.inner l
      → Replaced p k rest q (record q' { inner = l })
  Appended-Replaced p k segs rest q q' l x a = record {
    now = a.now;
    gone = x.gone;
    left = x.left;
    split = x.split;
    evicted = omega (arith, x.counted);
    rep = a.rep;
    unacked =
        subst (λ c. Behind codec c a.now (x.left ++ p ∷ [])) (sym a.cursor)
          (a.behind q'.inner.cursor x.left x.behind);
    within_cap = omega (arith, a.bytes, x.fits, x.max_bytes);
  }

  -- Under `drop_oldest`, a push of a record that is not larger than the cap always stores it, on a
  -- round of the loop for each segment and one more. It discards the oldest records that were not
  -- acknowledged and no other, returns their number, puts the new record behind those that are
  -- left, and stays within the cap. The queue has no failures, its byte counter is the sum of its
  -- segments, and its counters are far from their wrap.
  pub push-Replaced :
      (ev : E) (p : List ℕ) (q : DiskQueue) (held : Held) (rest : List (List ℕ))
      → codec.to_vec ev ≡ some p
      → IsPayload codec p
      → q.policy ≡ drop_oldest
      → header_len + length p ≤ q.max_bytes
      → q.inner.bytes ≡ total codec held
      → total codec held + (header_len + length p) < 2 ^ 64
      → q.inner.write_seg + length held + 1 < 2 ^ 64
      → length rest < 2 ^ 64
      → Rep codec q.inner held
      → Behind codec q.inner.cursor held rest
      → (k : ℕ) × (q' : DiskQueue) × (push codec (suc (length held)) ev q ≡ (stored k, q'))
        × Replaced p k rest q q'
  push-Replaced ev p q held rest t w o small sum wraps segs evs r b =
      let (k, q', m, x) =
        make_room-MadeRoom codec (header_len + length p) 0 q held rest o small sum wraps
          (omega arith) (omega arith) r b in
      let (l, e, a) =
        append_record-Appended codec q'.seg_bytes p x.now q'.inner (omega (arith, x.write_seg)) w
          x.rep in
      (
        k,
        record q' { inner = l },
        push-done codec (suc (length held)) k ev p q q' l t m e,
        Appended-Replaced p k (length held) rest q q' l x a,
      )
