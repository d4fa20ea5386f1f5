-- ===== src/Buffer/Sample.antt =====
-- src/buffer.rs: a queue of two segments, for runs on concrete events.
use softnix_log_agent.Prelude.{
  ℕ, inl, refl, ap, append-nil, Option, none, some, List, [], ◌∷◌, length, arith,
}
use softnix_log_agent.Buffer.Record.{Codec}
use softnix_log_agent.Buffer.Record.RoundTrip.{IsPayload}
use softnix_log_agent.Buffer.Record.Recovery.{encode_all}
use softnix_log_agent.Buffer.Disk.{Cursor, Inner}
use softnix_log_agent.Buffer.Queue.{DiskQueue, FullPolicy}
use softnix_log_agent.Buffer.Fifo.Spec.{Held, view, Behind, Rep}

-- An event is a number, coded as one byte.
abbrev pub first_byte : List ℕ → Option ℕ
first_byte (n ∷ []) = some n
first_byte _ = none

abbrev pub byte_codec : Codec ℕ
byte_codec = record { hash = length; to_vec = λ n. some (n ∷ []); from_slice = first_byte }

pub byte-IsPayload : (n : ℕ) → IsPayload byte_codec (n ∷ [])
byte-IsPayload n = record {
  nonempty = omega arith;
  len_fits = omega arith;
  hash_fits = omega arith;
}

-- Two segments with a record each; `cursor` and `peek` stand in front of the first.
abbrev pub two_segments : Held
two_segments = (0, (7 ∷ []) ∷ []) ∷ (1, (8 ∷ []) ∷ []) ∷ []

abbrev pub both : List (List ℕ)
both = (7 ∷ []) ∷ (8 ∷ []) ∷ []

abbrev pub start : Cursor
start = record { seg = 0; off = 0 }

abbrev pub two_inner : Inner
two_inner = record {
  disk =
      (0, encode_all byte_codec ((7 ∷ []) ∷ [])) ∷ (1, encode_all byte_codec ((8 ∷ []) ∷ [])) ∷ [];
  faults = [];
  segments = 0 ∷ 1 ∷ [];
  write_seg = 1;
  write_off = 9;
  write_seg_count = 1;
  writer = none;
  cursor = start;
  peek = start;
  count = 2;
  bytes = 18;
}

abbrev pub queue : FullPolicy → ℕ → DiskQueue
queue policy max_bytes = record {
  inner = two_inner;
  saved = none;
  max_bytes = max_bytes;
  seg_bytes = 1000;
  policy = policy;
  dropped = 0;
  corrupt = 0;
}

pub two-Rep : Rep byte_codec two_inner two_segments
unfolding view
two-Rep = record {
  no_faults = refl;
  listed = refl;
  holds = (
    omega arith,
    refl,
    (byte-IsPayload 7, tt),
    (refl, ap some (append-nil (encode_all byte_codec ((8 ∷ []) ∷ []))), (byte-IsPayload 8, tt)),
  );
}

pub two-Behind : Behind byte_codec start two_segments both
unfolding encode_all
two-Behind = inl (refl, ([], (7 ∷ []) ∷ [], refl, refl, refl))
