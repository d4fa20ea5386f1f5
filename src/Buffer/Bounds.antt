-- ===== src/Buffer/Bounds.antt =====
-- src/buffer.rs: the size cap of a queue, whatever the environment does.
use softnix_log_agent.Prelude.{
  ℕ, zero, suc, ◌+◌, ◌≤◌, ◌≡◌, ◌⊎◌, inl, inr, refl, none, List, Io, done, fail, length, arith,
  add64, Option-cases,
}
use softnix_log_agent.Buffer.Record.{Codec, encode_record, header_len}
use softnix_log_agent.Buffer.Disk.{Inner, draw, append_file, flush_writer, write_cold, write_all}
use softnix_log_agent.Buffer.Segments.{create, roll_next, roll_segment}
use softnix_log_agent.Buffer.Queue.{
  DiskQueue, drop_oldest, stored, Room, room, no_room, open_writer, make_room, Round, stop, again,
  round, evict, count_record, append_record, store, push_payload, push,
}

pub Round-cases :
    (r : Round)
    → ((x : Room) × (q : DiskQueue) × (r ≡ stop x q))
      ⊎ ((k : ℕ) × (q : DiskQueue) × (r ≡ again k q))
Round-cases (stop x q) = inl (x, q, refl)
Round-cases (again k q) = inr (k, q, refl)

module _ {E : Type 0} (codec : Codec E) where
  bytes-flush_writer : (i : Inner) → (flush_writer i).1.bytes ≡ i.bytes
  unfolding flush_writer draw
  bytes-flush_writer i = ground arith

  bytes-append_file : (bs : List ℕ) (i : Inner) → (append_file bs i).1.bytes ≡ i.bytes
  unfolding append_file draw
  bytes-append_file bs i = ground arith

  bytes-write_cold :
      (bs : List ℕ) (r : Io (Unit {0})) (i : Inner) → (write_cold bs r i).1.bytes ≡ i.bytes
  unfolding write_cold draw
  bytes-write_cold bs fail i = refl
  bytes-write_cold bs (done _) i = ground (arith, bytes-append_file bs i)

  bytes-write_all : (bs : List ℕ) (i : Inner) → (write_all bs i).1.bytes ≡ i.bytes
  unfolding write_all
  bytes-write_all bs i = ground (
    arith,
    bytes-flush_writer i,
    bytes-write_cold bs (flush_writer i).0 (flush_writer i).1,
    bytes-write_cold bs (done tt) i,
  )

  bytes-open_writer : (i : Inner) → (open_writer i).1.bytes ≡ i.bytes
  unfolding open_writer draw
  bytes-open_writer i = ground arith

  bytes-roll_next : (i : Inner) → (roll_next codec i).1.bytes ≡ i.bytes
  unfolding roll_next create draw
  bytes-roll_next i = ground arith

  -- A roll that succeeds keeps the sum of the bytes.
  bytes-roll_segment : (i j : Inner) → roll_segment codec i ≡ (done tt, j) → j.bytes ≡ i.bytes
  unfolding roll_segment
  bytes-roll_segment i j h =
      ground
        (arith, bytes-flush_writer i, bytes-roll_next (record (flush_writer i).1 { writer = none }))

  bytes-count_record :
      (seg_bytes n : ℕ) (i j : Inner)
      → count_record codec seg_bytes n i ≡ (done tt, j)
      → j.bytes ≡ add64 i.bytes n
  unfolding count_record
  bytes-count_record seg_bytes n i j h = ground (
    arith,
    bytes-roll_segment
        (record i {
          write_off = add64 i.write_off n;
          bytes = add64 i.bytes n;
          count = add64 i.count 1;
          write_seg_count = add64 i.write_seg_count 1;
        })
        j,
  )

  -- A record that was stored is counted with its header, once.
  bytes-append_record :
      (seg_bytes : ℕ) (p : List ℕ) (i j : Inner)
      → append_record codec seg_bytes p i ≡ (done tt, j)
      → j.bytes ≡ add64 i.bytes (header_len + length p)
  unfolding append_record
  bytes-append_record seg_bytes p i j h =
      let o = (open_writer i).1 in
      let w = (write_all (encode_record codec p) o).1 in
      ground (
        arith,
        bytes-open_writer i,
        bytes-write_all (encode_record codec p) o,
        bytes-count_record seg_bytes (header_len + length p) w j,
      )

  round-room :
      (n evicted : ℕ) (q q' : DiskQueue) (e : ℕ)
      → round codec n evicted q ≡ stop (room e) q'
      → (add64 q'.inner.bytes n ≤ q.max_bytes) × (q' ≡ q)
  unfolding round evict
  round-room n evicted q q' e h = ground arith

  -- A round that goes on has evicted under the `drop_oldest` policy, and keeps the configuration.
  round-again :
      (n evicted : ℕ) (q q' : DiskQueue) (e : ℕ)
      → round codec n evicted q ≡ again e q'
      → (q'.max_bytes ≡ q.max_bytes) × (q.policy ≡ drop_oldest)
  unfolding round evict
  round-again n evicted q q' e h = ground arith

  -- Where the loop ends with room, the record fits under the cap.
  make_room-fits :
      (fuel n evicted : ℕ) (q q' : DiskQueue) (e : ℕ)
      → make_room codec fuel n evicted q ≡ (room e, q')
      → add64 q'.inner.bytes n ≤ q.max_bytes
  unfolding make_room
  make_room-fits zero n evicted q q' e h = cc
  make_room-fits (suc fuel) n evicted q q' e h = elim (Round-cases (round codec n evicted q)) [
    | inl (r, p, s) ↦ ground (arith, round-room n evicted q p e)
    | inr (k, p, s) ↦ ground (arith, round-again n evicted q p k s, make_room-fits fuel n k p q' e)
  ]

  round-ne-stored :
      (n evicted : ℕ) (q q' : DiskQueue) (e : ℕ)
      → round codec n evicted q ≡ stop (no_room (stored e)) q'
      → ⊥
  unfolding round evict
  round-ne-stored n evicted q q' e h = ground arith

  make_room-ne-stored :
      (fuel n evicted : ℕ) (q q' : DiskQueue) (e : ℕ)
      → make_room codec fuel n evicted q ≡ (no_room (stored e), q')
      → ⊥
  unfolding make_room
  make_room-ne-stored zero n evicted q q' e h = cc
  make_room-ne-stored (suc fuel) n evicted q q' e h = elim (Round-cases (round codec n evicted q)) [
    | inl (r, p, s) ↦ ground (arith, round-ne-stored n evicted q p e)
    | inr (k, p, s) ↦ ground (arith, make_room-ne-stored fuel n k p q' e)
  ]

  store-within_cap :
      (payload : List ℕ) (e evicted : ℕ) (q q' : DiskQueue)
      → store codec payload e q ≡ (stored evicted, q')
      → q'.inner.bytes ≡ add64 q.inner.bytes (header_len + length payload)
  unfolding store
  store-within_cap payload e evicted q q' h =
      let i = (append_record codec q.seg_bytes payload q.inner).1 in
      ground (arith, bytes-append_record q.seg_bytes payload q.inner i)

  push_payload-within_cap :
      (fuel : ℕ) (payload : List ℕ) (q q' : DiskQueue) (evicted : ℕ) (r : Room) (p : DiskQueue)
      → make_room codec fuel (header_len + length payload) 0 q ≡ (r, p)
      → push_payload codec fuel payload q ≡ (stored evicted, q')
      → q'.inner.bytes ≤ q.max_bytes
  unfolding push_payload
  push_payload-within_cap fuel payload q q' evicted (room e) p m h = ground (
    arith,
    make_room-fits fuel (header_len + length payload) 0 q p e m,
    store-within_cap payload e evicted p q',
  )
  push_payload-within_cap fuel payload q q' evicted (no_room why) p m h =
      ground (arith, make_room-ne-stored fuel (header_len + length payload) 0 q p evicted)

  -- A push that stores its event leaves the queue within its cap, whatever the environment does
  -- during the push.
  pub push-within_cap :
      (fuel : ℕ) (ev : E) (q q' : DiskQueue) (evicted : ℕ)
      → push codec fuel ev q ≡ (stored evicted, q')
      → q'.inner.bytes ≤ q.max_bytes
  unfolding push
  push-within_cap fuel ev q q' evicted h = elim (Option-cases (codec.to_vec ev)) [
    | inl n ↦ ground arith
    | inr (p, s) ↦
        let m = make_room codec fuel (header_len + length p) 0 q in
        push_payload-within_cap fuel p q q' evicted m.0 m.1 refl (ground arith)
  ]
