-- ===== src/Buffer/Fifo/Files.antt =====
-- src/buffer.rs: reads and writes of segment files, and what a flush leaves in them.
use softnix_log_agent.Prelude.{
  ℕ, ◌≡◌, refl, ap, ◌∙◌, Option, none, some, List, [], ◌∷◌, ◌++◌, arith, append-nil, ◌==◌,
  if◌then◌else◌, Bool-cases, Option-cases, inl, inr,
}
use softnix_log_agent.Buffer.Record.{Codec}
use softnix_log_agent.Buffer.Disk.{
  Disk, Inner, read, write, remove_file, content, draw, flush_writer, buffered,
}
use softnix_log_agent.Buffer.Fifo.Spec.{Held, Holds, view}
use softnix_log_agent.Buffer.Fifo.Walk.{Ascending, Ordered, Files}

pub read-write :
    (d : Disk) (s t : ℕ) (bs : List ℕ)
    → read (write d s bs) t ≡ (if s == t then some bs else read d t)
unfolding read write
read-write [] s t bs = refl
read-write ((u, old) ∷ d) s t bs = ground (arith, read-write d s t bs)

pub read-remove_file :
    (d : Disk) (s t : ℕ) → read (remove_file d s) t ≡ (if s == t then none else read d t)
unfolding read remove_file
read-remove_file [] s t = ground arith
read-remove_file ((u, old) ∷ d) s t = ground (arith, read-remove_file d s t)

-- What a step keeps of the bytes of the segments.
abbrev pub Keeps : (ℕ → Option (List ℕ)) → (ℕ → Option (List ℕ)) → Type 0
Keeps v v' = (t : ℕ) (bs : List ℕ) → v t ≡ some bs → v' t ≡ some bs

view-clean : (i : Inner) → buffered i ≡ [] → Keeps (view i) (read i.disk)
unfolding view
view-clean i e t bs h = elim (Option-cases (read i.disk t)) [
  | inl n ↦ ground arith
  | inr (x, s) ↦ ground (arith, append-nil x)
]

view-dirty :
    (i : Inner)
    → Keeps (view i) (read (write i.disk i.write_seg (content i.disk i.write_seg ++ buffered i)))
unfolding view content
view-dirty i t bs h =
    read-write i.disk i.write_seg t (content i.disk i.write_seg ++ buffered i)
    ∙ elim (Bool-cases (i.write_seg == t)) [
      | inl e ↦ rw e (ground arith)
      | inr n ↦ rw n (ground arith)
    ]

flush_writer-clean : (i : Inner) → buffered i ≡ [] → (flush_writer i).1 ≡ i
unfolding flush_writer
flush_writer-clean i e = ground arith

flush_writer-dirty :
    (i : Inner) (b : ℕ) (bs : List ℕ)
    → i.faults ≡ []
    → i.writer ≡ some (b ∷ bs)
    → (flush_writer i).1 ≡ record i {
      disk = write i.disk i.write_seg (content i.disk i.write_seg ++ (b ∷ bs));
      writer = some [];
    }
unfolding flush_writer draw
flush_writer-dirty i b bs f e = ground arith

-- A flush that nothing disturbs leaves every byte of every segment in its file.
pub flush_writer-read : (i : Inner) → i.faults ≡ [] → Keeps (view i) (read (flush_writer i).1.disk)
flush_writer-read i f t bs h = go i.writer refl
  where
    go : (o : Option (List ℕ)) → i.writer ≡ o → read (flush_writer i).1.disk t ≡ some bs
    go none e = rw (flush_writer-clean i (rw e)) (view-clean i (rw e) t bs h)
    go (some []) e = rw (flush_writer-clean i (rw e)) (view-clean i (rw e) t bs h)
    go (some (b ∷ r)) e =
        ap (λ (j : Inner). read j.disk t) (flush_writer-dirty i b r f e)
        ∙ ap (λ (z : List ℕ). read (write i.disk i.write_seg (content i.disk i.write_seg ++ z)) t)
            (rw e)
        ∙ view-dirty i t bs h

-- What a flush leaves as it was.
pub record Flushed (i j : Inner) : Type 0 where
  pub no_faults : j.faults ≡ []
  pub segments : j.segments ≡ i.segments
  pub write_seg : j.write_seg ≡ i.write_seg
  pub write_off : j.write_off ≡ i.write_off
  pub cursor : j.cursor ≡ i.cursor
  pub peek : j.peek ≡ i.peek
  pub count : j.count ≡ i.count
  pub bytes : j.bytes ≡ i.bytes
  pub empty : buffered j ≡ []

pub flush_writer-Flushed : (i : Inner) → i.faults ≡ [] → Flushed i (flush_writer i).1
unfolding flush_writer draw
flush_writer-Flushed i f = ground arith

-- With an empty buffer the files hold everything.
pub read-view : (i : Inner) → buffered i ≡ [] → Keeps (read i.disk) (view i)
unfolding view
read-view i e t bs h = ground (arith, append-nil bs)

module _ {E : Type 0} (codec : Codec E) where
  pub Holds-Keeps :
      (v v' : ℕ → Option (List ℕ)) (w : ℕ) (h : Held)
      → Keeps v v'
      → Holds codec v w h
      → Holds codec v' w h
  Holds-Keeps v v' w [] k h = h
  Holds-Keeps v v' w ((s, ps) ∷ []) k (e, f, a) = (e, k s _ f, a)
  Holds-Keeps v v' w ((s, ps) ∷ (t, qs) ∷ r) k (lt, f, a, h) =
      (lt, k s _ f, a, Holds-Keeps v v' w ((t, qs) ∷ r) k h)

  pub Holds-Files :
      (v : ℕ → Option (List ℕ)) (d : Disk) (w : ℕ) (h : Held)
      → Keeps v (read d)
      → Holds codec v w h
      → Files codec d h
  Holds-Files v d w [] k h = elim h [ ]
  Holds-Files v d w ((s, ps) ∷ []) k (e, f, a) = (k s _ f, a, tt)
  Holds-Files v d w ((s, ps) ∷ (t, qs) ∷ r) k (lt, f, a, h) =
      (k s _ f, a, Holds-Files v d w ((t, qs) ∷ r) k h)

  Holds-Ascending :
      (v : ℕ → Option (List ℕ)) (w s : ℕ) (ps : List (List ℕ)) (h : Held)
      → Holds codec v w ((s, ps) ∷ h)
      → Ascending s h
  Holds-Ascending v w s ps [] h = tt
  Holds-Ascending v w s ps ((t, qs) ∷ r) (lt, f, a, h) = (lt, Holds-Ascending v w t qs r h)

  pub Holds-Ordered : (v : ℕ → Option (List ℕ)) (w : ℕ) (h : Held) → Holds codec v w h → Ordered h
  Holds-Ordered v w [] h = tt
  Holds-Ordered v w ((s, ps) ∷ r) h = Holds-Ascending v w s ps r h
