-- ===== src/Parsing/Archive/Chunks.antt =====
-- How the file is cut into reads does not matter to `parseArchive`.
use work_smt.Base.{
  refl, append_assoc, sym, ap₂, ◌∙◌, true_ne_false, append-nil, Bool, All, false, ℕ, ◌≡◌, ◌++◌, ◌∷◌,
  is_empty, [], List,
}
use work_smt.Parsing.Archive.{
  initial_reader, Reader, failed, interrupted, chunk, ReadResult, read_byte, read_bytes, read_loop,
  parse_opened,
}
use work_smt.Parsing.Models.{ParserProfile, ArchiveRecord, Platform}
use work_smt.Base.Bytes.{Bytes}

-- Reads that give bytes or are interrupted, and no error.
abbrev pub IsReadable : ReadResult → Type 0
IsReadable (chunk bytes) = is_empty bytes ≡ false
IsReadable interrupted = Unit
IsReadable failed = ⊥

abbrev pub bytes_of : ReadResult → Bytes
bytes_of (chunk bytes) = bytes
bytes_of interrupted = []
bytes_of failed = []

abbrev pub content : List ReadResult → Bytes
content [] = []
content (r ∷ rs) = bytes_of r ++ content rs

module _ (p : Platform) (archive : ArchiveRecord) (profile : ParserProfile)
    (max_line_bytes : ℕ) where
  pub read_bytes-append :
      (xs ys : Bytes) (r : Reader)
      → read_bytes p archive profile max_line_bytes r (xs ++ ys)
        ≡ read_bytes p archive profile max_line_bytes
            (read_bytes p archive profile max_line_bytes r xs)
            ys
  unfolding read_bytes
  read_bytes-append [] ys r = refl
  read_bytes-append (x ∷ xs) ys r =
      read_bytes-append xs ys (read_byte p archive profile max_line_bytes r x)

  pub read_loop-content :
      (rs : List ReadResult) (r : Reader) (hashed : Bytes)
      → All IsReadable rs
      → read_loop p archive profile max_line_bytes r hashed rs
        ≡ (read_bytes p archive profile max_line_bytes r (content rs), hashed ++ content rs, false)
  unfolding read_loop read_bytes
  read_loop-content [] r hashed h = rw append-nil
  read_loop-content (interrupted ∷ rs) r hashed h = read_loop-content rs r hashed h.1
  read_loop-content (failed ∷ rs) r hashed h = absurd h.0
  read_loop-content (chunk [] ∷ rs) r hashed h = absurd (true_ne_false h.0)
  read_loop-content (chunk (b ∷ bytes) ∷ rs) r hashed h =
      read_loop-content rs (read_bytes p archive profile max_line_bytes r (b ∷ bytes))
        (hashed ++ b ∷ bytes) h.1
      ∙ ap₂ (λ s t. (s, t, false)) (sym (read_bytes-append (b ∷ bytes) (content rs) r))
          (append_assoc hashed (b ∷ bytes) (content rs))

  -- Two readable sequences of reads with the same content give the same result: chunk boundaries,
  -- within a line or a character too, and interruptions change nothing.
  pub parse_opened-content :
      (rs ss : List ReadResult)
      → All IsReadable rs
      → All IsReadable ss
      → content rs ≡ content ss
      → (close_ok : Bool)
      → parse_opened p archive profile max_line_bytes rs close_ok
        ≡ parse_opened p archive profile max_line_bytes ss close_ok
  unfolding parse_opened
  parse_opened-content rs ss h k e close_ok =
      rw (read_loop-content rs initial_reader [] h, read_loop-content ss initial_reader [] k, e)
