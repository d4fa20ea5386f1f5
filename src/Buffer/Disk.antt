-- ===== src/Buffer/Disk.antt =====
-- src/buffer.rs: the files of a queue directory, the `BufWriter` on the write segment, and the
-- fields of `Inner`. Each call that may fail asks the environment first: it takes the next entry of
-- `faults`, `none` for success (and for ever, once the list is empty) and `some k` for a failure
-- after `k` bytes of a write.
use softnix_log_agent.Prelude.{
  ℕ, ◌-◌, Option, none, some, List, [], ◌∷◌, ◌++◌, Io, done, fail, length, take, drop, ltb, leb,
  ◌==◌, if◌then◌else◌,
}

-- Segment number to contents; a number that is not there has no file.
abbrev pub Disk : Type 0
Disk = List (ℕ × List ℕ)

unfoldable pub read : Disk → ℕ → Option (List ℕ)
read [] seg = none
read ((s, bs) ∷ d) seg = if s == seg then some bs else read d seg

unfoldable pub write : Disk → ℕ → List ℕ → Disk
write [] seg bs = (seg, bs) ∷ []
write ((s, old) ∷ d) seg bs = if s == seg then (s, bs) ∷ d else (s, old) ∷ write d seg bs

unfoldable pub remove_file : Disk → ℕ → Disk
remove_file [] seg = []
remove_file ((s, bs) ∷ d) seg =
    let rest = remove_file d seg in if s == seg then rest else (s, bs) ∷ rest

-- What a reader of the path sees; nothing, where there is no file.
unfoldable pub content : Disk → ℕ → List ℕ
unfolding read
content d seg = elim (read d seg) [ none ↦ [] | some bs ↦ bs ]

-- `BTreeSet<u64>`: ascending, without repetition
unfoldable pub insert : ℕ → List ℕ → List ℕ
insert n [] = n ∷ []
insert n (s ∷ r) = if ltb n s then n ∷ s ∷ r else if n == s then s ∷ r else s ∷ insert n r

unfoldable pub remove : ℕ → List ℕ → List ℕ
remove n [] = []
remove n (s ∷ r) = if s == n then r else s ∷ remove n r

-- `range(from..)` and `range(..upto)`
unfoldable pub range_from : ℕ → List ℕ → List ℕ
range_from from [] = []
range_from from (s ∷ r) = if ltb s from then range_from from r else s ∷ r

unfoldable pub range_upto : ℕ → List ℕ → List ℕ
range_upto upto [] = []
range_upto upto (s ∷ r) = if ltb s upto then s ∷ range_upto upto r else []

pub record Cursor : Type 0 where
  pub seg : ℕ
  pub off : ℕ

pub record Inner : Type 0 where
  pub disk : Disk
  pub faults : List (Option ℕ)
  pub segments : List ℕ
  pub write_seg : ℕ
  pub write_off : ℕ
  pub write_seg_count : ℕ
  pub writer : Option (List ℕ)
  pub cursor : Cursor
  pub peek : Cursor
  pub count : ℕ
  pub bytes : ℕ

-- Asks the environment whether the next call fails.
unfoldable pub draw : Inner → Option ℕ × Inner
draw i = elim i.faults [ [] ↦ (none, i) | f ∷ fs ↦ (f, record i { faults = fs }) ]

-- A write of bytes at the end of the write segment: `none`, or the number of bytes written before
-- the failure.
unfoldable pub append_file : List ℕ → Inner → Option ℕ × Inner
unfolding draw
append_file bs i =
    let (f, j) = draw i in
    let old = content j.disk j.write_seg in
    elim f [
      | none ↦ (none, record j { disk = write j.disk j.write_seg (old ++ bs) })
      | some k ↦ (some k, record j { disk = write j.disk j.write_seg (old ++ take k bs) })
    ]

-- `BufWriter::flush`: what a failed call did not write stays in the buffer.
unfoldable pub flush_writer : Inner → Io (Unit {0}) × Inner
unfolding append_file
flush_writer i = elim i.writer [
  | none ↦ (done tt, i)
  | some [] ↦ (done tt, i)
  | some (b ∷ bs) ↦
      let (r, j) = append_file (b ∷ bs) i in
      elim r [
        | none ↦ (done tt, record j { writer = some [] })
        | some k ↦ (fail, record j { writer = some (drop k (b ∷ bs)) })
      ]
]

-- The default capacity of `BufWriter::new`.
abbrev pub buf_capacity : ℕ
buf_capacity = 8192

abbrev pub buffered : Inner → List ℕ
buffered i = elim i.writer [ none ↦ [] | some buf ↦ buf ]

abbrev add_buffered : List ℕ → Inner → Inner
add_buffered bs i = record i { writer = some (buffered i ++ bs) }

abbrev as_io : Option ℕ → Io (Unit {0})
as_io none = done tt
as_io (some _) = fail

-- the part of `BufWriter::write_all` behind the flush: straight to the file if the bytes fill a
-- whole buffer
unfoldable pub write_cold : List ℕ → Io (Unit {0}) → Inner → Io (Unit {0}) × Inner
unfolding append_file
write_cold bs fail i = (fail, i)
write_cold bs (done _) i =
    if leb buf_capacity (length bs)
    then (let (e, j) = append_file bs i in (as_io e, j))
    else (done tt, add_buffered bs i)

-- `BufWriter::write_all`: to the buffer if it has room, after a flush if not.
unfoldable pub write_all : List ℕ → Inner → Io (Unit {0}) × Inner
unfolding flush_writer write_cold
write_all bs i =
    let room = buf_capacity - length (buffered i) in
    if ltb (length bs) room
    then (done tt, add_buffered bs i)
    else if ltb room (length bs)
    then (let (r, j) = flush_writer i in write_cold bs r j)
    else write_cold bs (done tt) i
