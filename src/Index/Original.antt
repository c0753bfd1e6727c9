-- ===== src/Index/Original.antt =====
-- 02_SMT_LogTrace/src/indexing/original_log_reader.cpp: openVerified and readOriginalRecord, the
-- reading of a document's bytes from its archive. What the system calls answer is the input: the size
-- of the opened regular file, the outcome of each `pread`, and whether `close` succeeds. `off_t` and
-- `std::size_t` have 64 bits. An exception is `thrown` with the start of its message.
pub mod Exact
use work_smt.Base.{
  ◌++◌, is_empty, drop, take, [], ◌+◌, false, ◌∷◌, some, ◌-◌, none, length, ltb, ◌||◌, true, ◌==◌,
  Option, List, if◌then◌else◌, ℕ, Bool,
}
use Prim.Native.Nat.{min}
use work_smt.Base.Bytes.{codes, Bytes}
use work_smt.Index.Segments.{SegmentFileRecord}

-- The outcome of one `pread`: it may deliver so many bytes, it was interrupted, or it failed.
pub data Attempt : Type 0 where
  delivers : ℕ → Attempt
  interrupts : Attempt
  breaks : Attempt

pub data Content : Type 0 where
  thrown : Bytes → Content
  -- The attempts given do not reach the end of the loop.
  pending : Content
  returned : Bytes → Content

abbrev pub off_max : ℕ
off_max = 9223372036854775807

-- The loop of `pread`: the bytes of the file, the range, the bytes read so far.
unfoldable pub pread_loop : Bytes → ℕ → ℕ → Bytes → List Attempt → Content
pread_loop file offset size content [] =
    if ltb (length content) size then pending else returned content
pread_loop file offset size content (a ∷ attempts) = elim (ltb (length content) size) [
  | false ↦ returned content
  | true ↦ elim (ltb off_max (offset + length content)) [
    | true ↦ thrown (codes "indexed document byte offset exceeds platform limit")
    | false ↦ elim a [
      | interrupts ↦ pread_loop file offset size content attempts
      | breaks ↦ thrown (codes "cannot pread indexed archive")
      | delivers n ↦
          let part = take (min n (size - length content)) (drop (offset + length content) file) in
          elim (is_empty part) [
            | true ↦ thrown (codes "indexed archive was truncated during pread")
            | false ↦ pread_loop file offset size (content ++ part) attempts
          ]
    ]
  ]
]

unfoldable pub close_after : Bool → Content → Content
close_after close_ok (thrown message) = thrown message
close_after close_ok pending = pending
close_after close_ok (returned content) =
    if close_ok then returned content else thrown (codes "cannot close indexed archive")

unfoldable pub invalid_range : ℕ → ℕ → ℕ → Bool
invalid_range file_size offset size =
    size == 0 || ltb file_size offset || ltb (file_size - offset) size || ltb off_max offset

-- `opened` is the size of the opened file, `none` when it cannot be opened or is not regular.
unfoldable pub read_original :
    SegmentFileRecord → ℕ → ℕ → Option ℕ → Bytes → List Attempt → Bool → Content
read_original record_file offset size opened file attempts close_ok =
    elim (invalid_range record_file.file_size offset size) [
      | true ↦ thrown (codes "indexed document byte range is invalid")
      | false ↦ elim opened [
        | none ↦ thrown (codes "cannot open indexed archive")
        | some actual ↦ elim (actual == record_file.file_size) [
          | false ↦ thrown (codes "indexed archive size or type changed")
          | true ↦ close_after close_ok (pread_loop file offset size [] attempts)
        ]
      ]
    ]
