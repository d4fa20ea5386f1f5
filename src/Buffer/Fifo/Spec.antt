-- ===== src/Buffer/Fifo/Spec.antt =====
-- src/buffer.rs: what a queue on disk stands for. A queue without failures holds, in each segment,
-- the bytes of a list of payloads; what a reader has still to see is the list behind a position.
use softnix_log_agent.Prelude.{
  ℕ, ◌+◌, ◌<◌, ◌≡◌, ◌⊎◌, refl, Option, none, some, List, [], ◌∷◌, ◌++◌, length, ◌==◌, if◌then◌else◌,
  arith,
}
use softnix_log_agent.Buffer.Record.{Codec}
use softnix_log_agent.Buffer.Record.Recovery.{encode_all, AllPayloads}
use softnix_log_agent.Buffer.Disk.{Cursor, Inner, read, buffered}

-- The bytes of a segment, those still in the writer's buffer included.
unfoldable pub view : Inner → ℕ → Option (List ℕ)
unfolding read
view i seg = elim (read i.disk seg) [
  | none ↦ none
  | some bs ↦ some (if seg == i.write_seg then bs ++ buffered i else bs)
]

-- Segments with their payloads, oldest first.
abbrev pub Held : Type 0
Held = List (ℕ × List (List ℕ))

abbrev pub numbers : Held → List ℕ
numbers [] = []
numbers ((s, _) ∷ r) = s ∷ numbers r

abbrev pub payloads : Held → List (List ℕ)
payloads [] = []
payloads ((_, ps) ∷ r) = ps ++ payloads r

module _ {E : Type 0} (codec : Codec E) where
  -- The events of a list of payloads; one that does not decode is passed over.
  unfoldable pub decode_all : List (List ℕ) → List E
  decode_all [] = []
  decode_all (p ∷ ps) = elim (codec.from_slice p) [
    | none ↦ decode_all ps
    | some ev ↦ ev ∷ decode_all ps
  ]

  pub decode_all-append :
      (ps qs : List (List ℕ)) → decode_all (ps ++ qs) ≡ decode_all ps ++ decode_all qs
  unfolding decode_all
  decode_all-append [] qs = refl
  decode_all-append (p ∷ ps) qs = ground (arith, decode_all-append ps qs)

  -- Ascending segments, the last of them the write segment, each with the bytes of its payloads.
  abbrev pub Holds : (ℕ → Option (List ℕ)) → ℕ → Held → Type 0
  Holds v w [] = ⊥
  Holds v w ((s, ps) ∷ []) = (s ≡ w) × (v s ≡ some (encode_all codec ps)) × AllPayloads codec ps
  Holds v w ((s, ps) ∷ (t, qs) ∷ r) =
      (s < t) × (v s ≡ some (encode_all codec ps)) × AllPayloads codec ps × Holds v w ((t, qs) ∷ r)

  -- The payloads behind a position: at the boundary of two records of a held segment.
  abbrev pub Behind : Cursor → Held → List (List ℕ) → Type 0
  Behind c [] rest = ⊥
  Behind c ((s, ps) ∷ r) rest =
      ((c.seg ≡ s)
        × ((before : List (List ℕ)) × (behind : List (List ℕ)) × (ps ≡ before ++ behind)
            × (c.off ≡ length (encode_all codec before))
            × (rest ≡ behind ++ payloads r)))
      ⊎ ((s < c.seg) × Behind c r rest)

  -- The bytes of all segments.
  unfoldable pub total : Held → ℕ
  total [] = 0
  total ((s, ps) ∷ r) = length (encode_all codec ps) + total r

  -- A queue without failures that holds these payloads.
  pub record Rep (i : Inner) (held : Held) : Type 0 where
    pub no_faults : i.faults ≡ []
    pub listed : i.segments ≡ numbers held
    pub holds : Holds (view i) i.write_seg held
