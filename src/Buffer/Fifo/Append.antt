-- ===== src/Buffer/Fifo/Append.antt =====
-- src/buffer.rs: `BufWriter::write_all` and the opening of the write segment, on the bytes that the
-- segments stand for.
pub mod Roll
use softnix_log_agent.Prelude.{
  ℕ, zero, suc, ◌+◌, ◌-◌, ◌<◌, ◌≤◌, ◌≡◌, ◌⊎◌, inl, inr, refl, ap, sym, ◌∙◌, subst, Bool, true,
  false, Option, none, some, List, [], ◌∷◌, ◌++◌, Io, done, fail, length, arith, ltb, leb, ◌==◌,
  if◌then◌else◌, lt→ltb, ge→ltb, ne→==, ==-refl, append-nil, append_assoc, Bool-cases, Option-cases,
}
use softnix_log_agent.Buffer.Disk.{
  Cursor, Inner, read, write, content, draw, buffered, append_file, flush_writer, write_cold,
  write_all, buf_capacity,
}
use softnix_log_agent.Buffer.Queue.{open_writer}
use softnix_log_agent.Buffer.Fifo.Spec.{view}
use softnix_log_agent.Buffer.Fifo.Files.{
  Keeps, read-write, flush_writer-read, read-view, flush_writer-Flushed,
}

-- What no write changes.
pub record Alike (i j : Inner) : Type 0 where
  pub no_faults : j.faults ≡ []
  pub segments : j.segments ≡ i.segments
  pub write_seg : j.write_seg ≡ i.write_seg
  pub write_off : j.write_off ≡ i.write_off
  pub write_seg_count : j.write_seg_count ≡ i.write_seg_count
  pub cursor : j.cursor ≡ i.cursor
  pub peek : j.peek ≡ i.peek
  pub count : j.count ≡ i.count
  pub bytes : j.bytes ≡ i.bytes

-- The bytes of the write segment grow by `bs`.
abbrev pub Extends : List ℕ → Inner → Inner → Type 0
Extends bs i j =
    (t : ℕ) (x : List ℕ)
    → view i t ≡ some x
    → view j t ≡ some (if t == i.write_seg then x ++ bs else x)

pub Alike-trans : (i j k : Inner) → Alike i j → Alike j k → Alike i k
Alike-trans i j k a b = record {
  no_faults = b.no_faults;
  segments = b.segments ∙ a.segments;
  write_seg = b.write_seg ∙ a.write_seg;
  write_off = b.write_off ∙ a.write_off;
  write_seg_count = b.write_seg_count ∙ a.write_seg_count;
  cursor = b.cursor ∙ a.cursor;
  peek = b.peek ∙ a.peek;
  count = b.count ∙ a.count;
  bytes = b.bytes ∙ a.bytes;
}

Extends-Keeps :
    (bs : List ℕ) (i j k : Inner)
    → j.write_seg ≡ i.write_seg
    → Keeps (view i) (view j)
    → Extends bs j k
    → Extends bs i k
Extends-Keeps bs i j k e f g t x h =
    subst (λ w. view k t ≡ some (if t == w then x ++ bs else x)) e (g t x (f t x h))

flush_writer-Alike : (i : Inner) → i.faults ≡ [] → Alike i (flush_writer i).1
unfolding flush_writer draw
flush_writer-Alike i f = ground arith

opened :
    (i : Inner)
    → i.writer ≡ none
    → Keeps (view i) (
        view (record i {
          disk = write i.disk i.write_seg (content i.disk i.write_seg);
          writer = some [];
        }))
unfolding view content
opened i e t x h = elim (Option-cases (read i.disk t)) [
  | inl n ↦ ground arith
  | inr (y, r) ↦
      ground (arith, append-nil y, read-write i.disk i.write_seg t (content i.disk i.write_seg))
]

pub open_writer-Alike :
    (i : Inner)
    → i.faults ≡ []
    → (j : Inner) × (open_writer i ≡ (done tt, j)) × Alike i j × Keeps (view i) (view j)
unfolding open_writer draw
open_writer-Alike i f = go i.writer refl
  where
    go :
        (o : Option (List ℕ))
        → i.writer ≡ o
        → (j : Inner) × (open_writer i ≡ (done tt, j)) × Alike i j × Keeps (view i) (view j)
    go none e = (
      record i { disk = write i.disk i.write_seg (content i.disk i.write_seg); writer = some [] },
      ground arith,
      ground arith,
      opened i e,
    )
    go (some b) e = (i, ground arith, ground arith, λ t x h. h)

add_buffered-Extends :
    (bs : List ℕ) (i : Inner) → Extends bs i (record i { writer = some (buffered i ++ bs) })
unfolding view
add_buffered-Extends bs i t x h = elim (Option-cases (read i.disk t)) [
  | inl n ↦ ground arith
  | inr (y, e) ↦ ground (arith, append_assoc y (buffered i) bs)
]

append_file-Extends :
    (bs : List ℕ) (i : Inner)
    → buffered i ≡ []
    → Extends bs i (record i { disk = write i.disk i.write_seg (content i.disk i.write_seg ++ bs) })
unfolding view content
append_file-Extends bs i e t x h = elim (Option-cases (read i.disk t)) [
  | inl n ↦ ground arith
  | inr (y, r) ↦ ground (
    arith,
    append-nil y,
    append-nil (y ++ bs),
    read-write i.disk i.write_seg t (content i.disk i.write_seg ++ bs),
  )
]

-- A write that succeeds appends exactly its bytes.
pub record Written (bs : List ℕ) (i : Inner) (r : Io (Unit {0}) × Inner) : Type 0 where
  pub out : Inner
  pub returns : r ≡ (done tt, out)
  pub alike : Alike i out
  pub extends : Extends bs i out

add_buffered-Alike :
    (bs : List ℕ) (i : Inner) → i.faults ≡ [] → Alike i (record i { writer = some bs })
add_buffered-Alike bs i f = ground arith

write_cold-Written :
    (bs : List ℕ) (i : Inner)
    → i.faults ≡ []
    → (leb buf_capacity (length bs) ≡ true → buffered i ≡ [])
    → Written bs i (write_cold bs (done tt) i)
write_cold-Written bs i f e = elim (Bool-cases (leb buf_capacity (length bs))) [
  | inl big ↦ record {
    out = record i { disk = write i.disk i.write_seg (content i.disk i.write_seg ++ bs) };
    returns = unfold write_cold append_file draw in ground arith;
    alike = ground arith;
    extends = append_file-Extends bs i (e big);
  }
  | inr small ↦ record {
    out = record i { writer = some (buffered i ++ bs) };
    returns = unfold write_cold in ground arith;
    alike = add_buffered-Alike (buffered i ++ bs) i f;
    extends = add_buffered-Extends bs i;
  }
]

Written-flushed :
    (bs : List ℕ) (i : Inner)
    → i.faults ≡ []
    → Written bs (flush_writer i).1 (write_cold bs (done tt) (flush_writer i).1)
    → Written bs i (write_cold bs (done tt) (flush_writer i).1)
Written-flushed bs i f w = record {
  out = w.out;
  returns = w.returns;
  alike = Alike-trans i (flush_writer i).1 w.out (flush_writer-Alike i f) w.alike;
  extends =
      Extends-Keeps bs i (flush_writer i).1 w.out (flush_writer-Flushed i f).write_seg
        (λ t x h.
          read-view (flush_writer i).1 (flush_writer-Flushed i f).empty t x
            (flush_writer-read i f t x h))
        w.extends;
}

pub flush_writer-done : (i : Inner) → i.faults ≡ [] → (flush_writer i).0 ≡ done tt
unfolding flush_writer draw
flush_writer-done i f = ground arith

nothing_buffered : (b : List ℕ) → buf_capacity - length b ≡ buf_capacity → b ≡ []
nothing_buffered [] h = refl
nothing_buffered (x ∷ b) h = absurd (omega arith)

pub write_all-Written : (bs : List ℕ) (i : Inner) → i.faults ≡ [] → Written bs i (write_all bs i)
unfolding write_all
write_all-Written bs i f =
    elim (Bool-cases (ltb (length bs) (buf_capacity - length (buffered i)))) [
      | inl fits ↦ record {
        out = record i { writer = some (buffered i ++ bs) };
        returns = rw fits;
        alike = add_buffered-Alike (buffered i ++ bs) i f;
        extends = add_buffered-Extends bs i;
      }
      | inr over ↦ elim (Bool-cases (ltb (buf_capacity - length (buffered i)) (length bs))) [
        | inl flush ↦
            rw (over, flush, flush_writer-done i f)
              (Written-flushed bs i f (
                write_cold-Written bs (flush_writer i).1 (flush_writer-Flushed i f).no_faults
                  (λ _. (flush_writer-Flushed i f).empty)))
        | inr exact ↦
            rw (over, exact)
              (write_cold-Written bs i f (λ big. nothing_buffered (buffered i) (ground arith)))
      ]
    ]
