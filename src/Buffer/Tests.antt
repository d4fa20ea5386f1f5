-- ===== src/Buffer/Tests.antt =====
-- src/buffer.rs: runs of the queue on concrete events.
use softnix_log_agent.Prelude.{
  ℕ, ◌+◌, ◌<◌, ◌≤◌, ◌≡◌, inl, inr, refl, none, List, [], ◌∷◌, ◌++◌, done, length, take, arith,
}
use softnix_log_agent.Buffer.Record.{
  ok, read_record, encode_record, scan_segment, header_len, to_le_bytes,
}
use softnix_log_agent.Buffer.Record.RoundTrip.{read_record-encode_record}
use softnix_log_agent.Buffer.Record.Recovery.{encode_all, scan_segment-torn}
use softnix_log_agent.Buffer.Disk.{Inner, draw, content, read, write, write_all}
use softnix_log_agent.Buffer.Segments.{drop_oldest_segment}
use softnix_log_agent.Buffer.Queue.{
  DiskQueue, block, drop_oldest, stored, looping, push, push_payload, make_room, round, store,
  append_record, open_writer, count_record,
}
use softnix_log_agent.Buffer.Reader.{peek_batch, ack}
use softnix_log_agent.Buffer.Fifo.Spec.{total, view, Behind, Rep}
use softnix_log_agent.Buffer.Fifo.Deliver.{Delivered, peek_batch-Delivered}
use softnix_log_agent.Buffer.Fifo.Ack.{Acked, ack-Acked}
use softnix_log_agent.Buffer.Fifo.Push.{Stored, push-Stored}
use softnix_log_agent.Buffer.Sample.{
  byte_codec, byte-IsPayload, two_segments, both, two_inner, queue, two-Rep, two-Behind,
}
use softnix_log_agent.Buffer.Bounds.{push-within_cap}
use softnix_log_agent.Buffer.Evict.Loop.{DroppedOldest, drop_oldest_segment-DroppedOldest}
use softnix_log_agent.Buffer.Evict.Room.{push-oversized}
use softnix_log_agent.Buffer.Evict.Push.{Replaced, push-Replaced}

total-two : two_inner.bytes ≡ total byte_codec two_segments
unfolding total encode_all encode_record to_le_bytes
total-two = refl

read_record-encode_record_example :
    read_record byte_codec (encode_record byte_codec (7 ∷ []) ++ 1 ∷ 2 ∷ []) 11
    ≡ ok (7 ∷ []) (header_len + 1)
read_record-encode_record_example =
    read_record-encode_record byte_codec (7 ∷ []) (1 ∷ 2 ∷ []) 11 (byte-IsPayload 7) (omega arith)

short : 3 < length (encode_record byte_codec (9 ∷ []))
unfolding encode_record to_le_bytes
short = omega arith

scan_segment-torn_example :
    scan_segment byte_codec
      (encode_all byte_codec both ++ take 3 (encode_record byte_codec (9 ∷ [])))
      0
      none
    ≡ (length (encode_all byte_codec both), 2)
scan_segment-torn_example =
    scan_segment-torn byte_codec both (9 ∷ []) 3 (byte-IsPayload 7, (byte-IsPayload 8, tt))
      (byte-IsPayload 9) short

peek_batch-Delivered_example :
    (out : List ℕ) × (q' : DiskQueue) × (peek_batch byte_codec 1 100 (queue block 100)
      ≡ (done out, q'))
    × Delivered byte_codec 1 two_segments both (queue block 100) out q'
peek_batch-Delivered_example =
    peek_batch-Delivered byte_codec 1 100 (queue block 100) two_segments both two-Rep two-Behind

-- The queue behind a peek of the first record.
abbrev peeked : DiskQueue
peeked = record (queue block 100) {
  inner = record two_inner { peek = record { seg = 1; off = 0 } };
}

peeked-Rep : Rep byte_codec peeked.inner two_segments
unfolding view
peeked-Rep = record { no_faults = refl; listed = refl; holds = two-Rep.holds }

peeked-Behind : Behind byte_codec peeked.inner.peek two_segments ((8 ∷ []) ∷ [])
unfolding encode_all
peeked-Behind = inr (omega arith, inl (refl, ([], (8 ∷ []) ∷ [], refl, refl, refl)))

ack-Acked_example :
    (q' : DiskQueue) × (ack 1 peeked ≡ (done tt, q'))
    × Acked byte_codec 1 two_segments ((8 ∷ []) ∷ []) peeked q'
ack-Acked_example =
    ack-Acked byte_codec 1 peeked two_segments ((8 ∷ []) ∷ []) peeked-Rep peeked-Behind

push-Stored_example :
    (l : Inner) × (push byte_codec 1 9 (queue block 100)
      ≡ (stored 0, record (queue block 100) { inner = l }))
    × Stored byte_codec (9 ∷ []) both both two_inner l
push-Stored_example =
    push-Stored byte_codec 0 9 (9 ∷ []) (queue block 100) two_segments both both refl
      (byte-IsPayload 9) two-Rep two-Behind two-Behind (omega arith) (omega arith)

drop_oldest_segment-DroppedOldest_example :
    (n : ℕ) × (j : Inner) × (drop_oldest_segment byte_codec two_inner ≡ (done n, j))
    × DroppedOldest byte_codec two_segments both n two_inner j
drop_oldest_segment-DroppedOldest_example =
    drop_oldest_segment-DroppedOldest byte_codec two_segments both two_inner (omega arith) two-Rep
      two-Behind

push-oversized_example :
    (q' : DiskQueue) × (push byte_codec 1000 9 (queue drop_oldest 8) ≡ (looping, q'))
push-oversized_example =
    push-oversized byte_codec 1000 9 (9 ∷ []) (queue drop_oldest 8) two_segments both refl refl
      (omega arith) (omega arith) (omega arith) two-Rep two-Behind

push-Replaced_example :
    (k : ℕ) × (q' : DiskQueue) × (push byte_codec 3 9 (queue drop_oldest 20) ≡ (stored k, q'))
    × Replaced byte_codec (9 ∷ []) k both (queue drop_oldest 20) q'
push-Replaced_example =
    push-Replaced byte_codec 9 (9 ∷ []) (queue drop_oldest 20) two_segments both refl
      (byte-IsPayload 9) refl (omega arith) total-two (omega (arith, total-two)) (omega arith)
      (omega arith) two-Rep two-Behind

stores :
    push byte_codec 1 9 (queue block 100) ≡ (stored 0, (push byte_codec 1 9 (queue block 100)).1)
unfolding push push_payload make_room round store append_record open_writer draw content read write
    write_all count_record encode_record to_le_bytes encode_all
stores = refl

push-within_cap_example : (push byte_codec 1 9 (queue block 100)).1.inner.bytes ≤ 100
push-within_cap_example =
    push-within_cap byte_codec 1 9 (queue block 100) (push byte_codec 1 9 (queue block 100)).1 0
      stores
