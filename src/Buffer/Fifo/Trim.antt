-- ===== src/Buffer/Fifo/Trim.antt =====
-- src/buffer.rs: the deletion of consumed segments, on a queue of records.
use softnix_log_agent.Prelude.{
  ℕ, ◌+◌, ◌-◌, ◌<◌, ◌≤◌, ◌≡◌, inl, inr, Option-cases, refl, ap, sym, ◌∙◌, subst, false, Option,
  none, some, List, [], ◌∷◌, length, arith, ltb, ◌==◌, if◌then◌else◌, lt→ltb, ge→ltb, ne→==,
  ==-refl,
}
use softnix_log_agent.Buffer.Record.{Codec}
use softnix_log_agent.Buffer.Record.Recovery.{encode_all}
use softnix_log_agent.Buffer.Disk.{Disk, read, Cursor, Inner, remove_file, remove, draw, range_upto}
use softnix_log_agent.Buffer.Segments.{metadata, unlink}
use softnix_log_agent.Buffer.Reader.{delete_segment, delete_done}
use softnix_log_agent.Buffer.Fifo.Spec.{Held, numbers, Holds, Behind, Rep, view, total}
use softnix_log_agent.Buffer.Fifo.Files.{read-remove_file, Holds-Ordered}
use softnix_log_agent.Buffer.Fifo.Walk.{Ascending}

-- The segments at and behind a position.
pub trim : ℕ → Held → Held
trim n [] = []
trim n ((s, ps) ∷ r) = if ltb s n then trim n r else (s, ps) ∷ r

-- The segments in front of a position.
pub front : ℕ → Held → Held
front n [] = []
front n ((s, ps) ∷ r) = if ltb s n then (s, ps) ∷ front n r else []

-- The size of a file; nothing, where there is none.
abbrev size : Option (List ℕ) → ℕ
size none = 0
size (some bs) = length bs

-- No file of these segments is there.
abbrev pub NoFiles : Disk → List ℕ → Type 0
NoFiles d [] = Unit
NoFiles d (s ∷ r) = (read d s ≡ none) × NoFiles d r

front-nil : (s n : ℕ) (ps : List (List ℕ)) (h : Held) → n ≤ s → front n ((s, ps) ∷ h) ≡ []
unfolding front
front-nil s n ps h le = rw (ge→ltb s n le) refl

front-cons :
    (s n : ℕ) (ps : List (List ℕ)) (h : Held) → s < n → front n ((s, ps) ∷ h) ≡ (s, ps) ∷ front n h
unfolding front
front-cons s n ps h lt = rw (lt→ltb s n lt) refl

remove_file-none : (d : Disk) (s t : ℕ) → read d t ≡ none → read (remove_file d s) t ≡ none
remove_file-none d s t e = ground (arith, e, read-remove_file d s t)

remove_file-gone : (d : Disk) (s : ℕ) → read (remove_file d s) s ≡ none
remove_file-gone d s = ground (arith, read-remove_file d s s)

-- What the deletion of a segment leaves.
record Deleted (s : ℕ) (i j : Inner) : Type 0 where
  no_faults : j.faults ≡ []
  segments : j.segments ≡ remove s i.segments
  disk : j.disk ≡ remove_file i.disk s
  write_seg : j.write_seg ≡ i.write_seg
  write_off : j.write_off ≡ i.write_off
  writer : j.writer ≡ i.writer
  cursor : j.cursor ≡ i.cursor
  peek : j.peek ≡ i.peek
  count : j.count ≡ i.count
  bytes : j.bytes ≡ i.bytes - size (read i.disk s)

delete_segment-Deleted : (s : ℕ) (i : Inner) → i.faults ≡ [] → Deleted s i (delete_segment s i)
unfolding delete_segment metadata unlink draw
delete_segment-Deleted s i f = ground arith

view-Deleted :
    (s : ℕ) (i j : Inner)
    → Deleted s i j
    → (t : ℕ) (bs : List ℕ) → s < t
    → view i t ≡ some bs
    → view j t ≡ some bs
unfolding view
view-Deleted s i j d t bs lt h =
    ground (arith, d.disk, d.writer, d.write_seg, read-remove_file i.disk s t)

delete_done-nil : (w : ℕ) (i : Inner) → delete_done w [] i ≡ i
unfolding delete_done
delete_done-nil w i = refl

delete_done-cons :
    (w s : ℕ) (r : List ℕ) (i : Inner)
    → (s == w) ≡ false
    → delete_done w (s ∷ r) i ≡ delete_done w r (delete_segment s i)
unfolding delete_done
delete_done-cons w s r i h = rw h

module _ {E : Type 0} (codec : Codec E) where
  pub Holds-above :
      (v v' : ℕ → Option (List ℕ)) (w s : ℕ) (h : Held)
      → ((t : ℕ) (bs : List ℕ) → s < t → v t ≡ some bs → v' t ≡ some bs)
      → Ascending s h
      → Holds codec v w h
      → Holds codec v' w h
  Holds-above v v' w s [] k a h = h
  Holds-above v v' w s ((t, ps) ∷ []) k (lt, a) (e, f, p) = (e, k t _ lt f, p)
  Holds-above v v' w s ((t, ps) ∷ (u, qs) ∷ r) k (lt, (lu, a)) (lt', f, p, h) =
      (lt', k t _ lt f, p, Holds-above v v' w s ((u, qs) ∷ r) k (omega arith, a) h)

  pub Holds-lt :
      (v : ℕ → Option (List ℕ)) (w s t : ℕ) (ps qs : List (List ℕ)) (h : Held)
      → Holds codec v w ((s, ps) ∷ (t, qs) ∷ h)
      → s < w
  Holds-lt v w s t ps qs [] (lt, f, p, (e, g, q)) = omega arith
  Holds-lt v w s t ps qs ((u, os) ∷ r) (lt, f, p, h) =
      let lt' : t < w = Holds-lt v w t u qs os r h in omega arith

  -- The segments in front of a position are not the write segment.
  Behind-lt :
      (v : ℕ → Option (List ℕ)) (w s : ℕ) (ps : List (List ℕ)) (r : Held) (c : Cursor)
      (rest : List (List ℕ))
      → Holds codec v w ((s, ps) ∷ r)
      → Behind codec c r rest
      → s < w
  Behind-lt v w s ps [] c rest h b = elim b [ ]
  Behind-lt v w s ps ((t, qs) ∷ r) c rest h b = Holds-lt v w s t ps qs r h

  pub Holds-tail :
      (v : ℕ → Option (List ℕ)) (w s : ℕ) (ps : List (List ℕ)) (r : Held) (c : Cursor)
      (rest : List (List ℕ))
      → Holds codec v w ((s, ps) ∷ r)
      → Behind codec c r rest
      → Holds codec v w r
  Holds-tail v w s ps [] c rest h b = elim b [ ]
  Holds-tail v w s ps ((t, qs) ∷ r) c rest h b = h.3

  Rep-Deleted :
      (s : ℕ) (ps : List (List ℕ)) (r : Held) (i j : Inner) (c : Cursor) (rest : List (List ℕ))
      → Rep codec i ((s, ps) ∷ r)
      → Behind codec c r rest
      → Deleted s i j
      → Rep codec j r
  unfolding remove
  Rep-Deleted s ps r i j c rest h b d = record {
    no_faults = d.no_faults;
    listed = d.segments ∙ ap (remove s) h.listed ∙ rw (==-refl s);
    holds =
        subst (λ w. Holds codec (view j) w r) (sym d.write_seg)
          (Holds-above (view i) (view j) i.write_seg s r (view-Deleted s i j d)
            (Holds-Ordered codec (view i) i.write_seg ((s, ps) ∷ r) h.holds)
            (Holds-tail (view i) i.write_seg s ps r c rest h.holds b));
  }

  trim-nil : (s n : ℕ) (ps : List (List ℕ)) (h : Held) → n ≤ s → trim n ((s, ps) ∷ h) ≡ (s, ps) ∷ h
  unfolding trim
  trim-nil s n ps h le = rw (ge→ltb s n le) refl

  trim-cons : (s n : ℕ) (ps : List (List ℕ)) (h : Held) → s < n → trim n ((s, ps) ∷ h) ≡ trim n h
  unfolding trim
  trim-cons s n ps h lt = rw (lt→ltb s n lt) refl

  total-front-nil :
      (s n m : ℕ) (ps : List (List ℕ)) (h : Held)
      → n ≤ s
      → m ≡ m - total codec (front n ((s, ps) ∷ h))
  unfolding front total
  total-front-nil s n m ps h le = rw (ge→ltb s n le) (omega arith)

  total-front-cons :
      (s n : ℕ) (ps : List (List ℕ)) (h : Held)
      → s < n
      → total codec (front n ((s, ps) ∷ h)) ≡ length (encode_all codec ps) + total codec (front n h)
  unfolding front total
  total-front-cons s n ps h lt = rw (lt→ltb s n lt) refl

  Holds-view :
      (v : ℕ → Option (List ℕ)) (w s : ℕ) (ps : List (List ℕ)) (h : Held)
      → Holds codec v w ((s, ps) ∷ h)
      → v s ≡ some (encode_all codec ps)
  Holds-view v w s ps [] (e, f, p) = f
  Holds-view v w s ps ((t, qs) ∷ r) (lt, f, p, h) = f

  -- The file of a segment that is not the write segment has its bytes.
  size-view :
      (i : Inner) (s : ℕ) (bs : List ℕ)
      → s < i.write_seg
      → view i s ≡ some bs
      → size (read i.disk s) ≡ length bs
  unfolding view
  size-view i s bs lt e = elim (Option-cases (read i.disk s)) [
    | inl n ↦ ground (arith, e, n)
    | inr (x, f) ↦ ground (arith, e, f)
  ]

  -- What the deletion of all segments in front of a position leaves.
  pub record Trimmed (n : ℕ) (held : Held) (i j : Inner) : Type 0 where
    pub rep : Rep codec j (trim n held)
    pub cursor : j.cursor ≡ i.cursor
    pub peek : j.peek ≡ i.peek
    pub count : j.count ≡ i.count
    pub write_seg : j.write_seg ≡ i.write_seg
    pub write_off : j.write_off ≡ i.write_off
    pub last : (bs : List ℕ) → view i i.write_seg ≡ some bs → view j i.write_seg ≡ some bs
    pub files : NoFiles j.disk (numbers (front n held))
    pub kept : (t : ℕ) → read i.disk t ≡ none → read j.disk t ≡ none
    pub bytes : j.bytes ≡ i.bytes - total codec (front n held)

  pub delete_done-Trimmed :
      (held : Held) (w : ℕ) (i : Inner) (c : Cursor) (rest : List (List ℕ))
      → i.write_seg ≡ w
      → Rep codec i held
      → Behind codec c held rest
      → Trimmed c.seg held i (delete_done w (range_upto c.seg (numbers held)) i)
  unfolding range_upto
  delete_done-Trimmed [] w i c rest e r b = elim b [ ]
  delete_done-Trimmed ((s, ps) ∷ h) w i c rest e r (inl (q, _)) =
      rw (ge→ltb s c.seg (omega arith), delete_done-nil w i)
        (record {
          rep = subst (Rep codec i) (sym (trim-nil s c.seg ps h (omega arith))) r;
          cursor = refl;
          peek = refl;
          count = refl;
          write_seg = refl;
          write_off = refl;
          last = λ bs v. v;
          files =
              subst (λ z. NoFiles i.disk (numbers z)) (sym (front-nil s c.seg ps h (omega arith)))
                tt;
          kept = λ t e. e;
          bytes = total-front-nil s c.seg i.bytes ps h (omega arith);
        })
  delete_done-Trimmed ((s, ps) ∷ h) w i c rest e r (inr (lt, b)) =
      rw
        (
          lt→ltb s c.seg lt,
          delete_done-cons w s (range_upto c.seg (numbers h)) i
              (ne→== s w (λ q. omega (arith, lt'))),
        )
        (trimmed (delete_done w (range_upto c.seg (numbers h)) (delete_segment s i)) (
          delete_done-Trimmed h w (delete_segment s i) c rest (d.write_seg ∙ e)
            (Rep-Deleted s ps h i (delete_segment s i) c rest r b d) b))
    where
      lt' : s < w
      lt' = subst (λ k. s < k) e (Behind-lt (view i) i.write_seg s ps h c rest r.holds b)

      d : Deleted s i (delete_segment s i)
      d = delete_segment-Deleted s i r.no_faults

      freed :
          (n : ℕ)
          → n ≡ (delete_segment s i).bytes - total codec (front c.seg h)
          → n ≡ i.bytes - total codec (front c.seg ((s, ps) ∷ h))
      freed n t =
          let sz =
            size-view i s (encode_all codec ps) (subst (λ z. s < z) (sym e) lt')
              (Holds-view (view i) i.write_seg s ps h r.holds) in
          omega (arith, t, d.bytes, sz, total-front-cons s c.seg ps h lt)

      trimmed :
          (k : Inner) → Trimmed c.seg h (delete_segment s i) k → Trimmed c.seg ((s, ps) ∷ h) i k
      trimmed k t = record {
        rep = subst (Rep codec k) (sym (trim-cons s c.seg ps h lt)) t.rep;
        cursor = t.cursor ∙ d.cursor;
        peek = t.peek ∙ d.peek;
        count = t.count ∙ d.count;
        write_seg = t.write_seg ∙ d.write_seg;
        write_off = t.write_off ∙ d.write_off;
        last = λ bs v.
            subst (λ z. view k z ≡ some bs) d.write_seg
              (t.last bs (
                subst (λ z. view (delete_segment s i) z ≡ some bs) (sym d.write_seg)
                  (view-Deleted s i (delete_segment s i) d i.write_seg bs
                    (subst (λ z. s < z) (sym e) lt') v)));
        files =
            subst (λ z. NoFiles k.disk (numbers z)) (sym (front-cons s c.seg ps h lt))
              (t.kept s (ap (λ z. read z s) d.disk ∙ remove_file-gone i.disk s), t.files);
        kept = λ u e. t.kept u (ap (λ z. read z u) d.disk ∙ remove_file-none i.disk s u e);
        bytes = freed k.bytes t.bytes;
      }

  pub Behind-trim :
      (held : Held) (c : Cursor) (rest : List (List ℕ))
      → Behind codec c held rest
      → Behind codec c (trim c.seg held) rest
  unfolding trim
  Behind-trim [] c rest b = b
  Behind-trim ((s, ps) ∷ h) c rest (inl (q, x)) = rw (ge→ltb s c.seg (omega arith)) (inl (q, x))
  Behind-trim ((s, ps) ∷ h) c rest (inr (lt, b)) = rw (lt→ltb s c.seg lt) (Behind-trim h c rest b)
