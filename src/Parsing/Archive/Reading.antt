-- ===== src/Parsing/Archive/Reading.antt =====
-- The read loop of `parseArchive` cuts the file into its lines.
use work_smt.Base.{
  leb→le, ◌+◌, ◌≤◌, ==_iff, ◌<◌, true, true_ne_false, subst, leb, inr, length-append, append_assoc,
  inl, sym, refl, [], append-nil, ◌==◌, Bool-cases, arith, ap, All, ◌∙◌, false, ◌∷◌, ◌||◌, ◌++◌,
  length, ltb, ◌≢◌, is_empty, ◌≡◌, ℕ,
}
use work_smt.Parsing.Archive.Located.{
  process_line-Located, documents-fail, StartsLine, IsReturn, IsFeed, Located, LineIn,
}
use work_smt.Base.Bytes.{codes, Bytes}
use work_smt.Parsing.Archive.{read_bytes, end_line, read_byte, Reader, strip_return}
use work_smt.Parsing.Models.{ParserProfile, ArchiveRecord, Platform}
use work_smt.Parsing.Runtime.{contains_byte}

-- What the loop knows after the bytes of `file`. Its documents are lines of the file, however it goes on.
pub record Reads (max_line_bytes : ℕ) (file : Bytes) (r : Reader) : Type 0 where
  pub before : Bytes
  pub rest : Bytes
  pub splits : file ≡ before ++ (r.line ++ rest)
  pub starts : length before ≡ r.line_offset
  pub at_start : StartsLine before
  pub whole : r.line_overflow ≡ false → rest ≡ []
  pub full : r.line_overflow ≡ true → max_line_bytes < length r.line
  pub one_line : contains_byte b'\n' r.line ≡ false
  pub offset : r.absolute_offset ≡ length file
  pub located :
      (more : Bytes) → All (Located max_line_bytes (file ++ more)) r.state.result.documents

return_alone : (c : ℕ) (b : Bytes) → (c == b'\r') ≡ false → c ∷ [] ≢ b ++ b'\r' ∷ []
return_alone c [] e h = ground arith
return_alone c (x ∷ []) e h = cc
return_alone c (x ∷ y ∷ b) e h = cc

no_return :
    (c : ℕ) (xs b : Bytes)
    → ((b : Bytes) → xs ≢ b ++ b'\r' ∷ [])
    → is_empty xs ≡ false
    → c ∷ xs ≢ b ++ b'\r' ∷ []
no_return c [] b h k e = cc
no_return c (y ∷ ys) [] h k e = cc
no_return c (y ∷ ys) (x ∷ b) h k e = h b (cc)

-- The part that `strip_return` drops.
strip_return-splits :
    (line : Bytes)
    → (back : Bytes) × (line ≡ strip_return line ++ back) × IsReturn (strip_return line) back
unfolding strip_return
strip_return-splits [] = ([], refl, inr (refl, λ b. empty_end b))
  where
    empty_end : (b : Bytes) → [] ≢ b ++ b'\r' ∷ []
    empty_end [] h = cc
    empty_end (x ∷ b) h = cc
strip_return-splits (c ∷ []) = elim (Bool-cases (c == b'\r')) [
  | inl e ↦ (c ∷ [], rw e, inl (ap (λ z. z ∷ []) ((==_iff c b'\r').0 e)))
  | inr e ↦ ([], rw e, rw e (inr (refl, λ b. return_alone c b e)))
]
strip_return-splits (c ∷ d ∷ line) =
    let (back, e, r) = strip_return-splits (d ∷ line) in
    (back, ap (◌∷◌ c) e, longer c (strip_return (d ∷ line)) back e r)
  where
    longer :
        (c : ℕ) (xs back : Bytes)
        → d ∷ line ≡ xs ++ back
        → IsReturn xs back
        → IsReturn (c ∷ xs) back
    longer c xs back e (inl h) = inl h
    longer c [] back e (inr h) = absurd (let z = h.0 in cc)
    longer c (x ∷ xs) back e (inr h) = inr (h.0, λ b. no_return c (x ∷ xs) b h.1 refl)

contains_byte-append :
    (c : ℕ) (xs ys : Bytes)
    → contains_byte c (xs ++ ys) ≡ (contains_byte c xs || contains_byte c ys)
unfolding contains_byte
contains_byte-append c [] ys = refl
contains_byte-append c (x ∷ xs) ys = ground (arith, contains_byte-append c xs ys)

-- The line without its carriage return is a line of the file, once it has ended.
pub ended_line-LineIn :
    (n : ℕ) (file feed after : Bytes) (r : Reader)
    → Reads n file r
    → IsFeed feed after
    → r.line_overflow ≡ false
    → length (strip_return r.line) ≤ n
    → LineIn n (file ++ (feed ++ after)) (record {
      number = r.line_number;
      offset = r.line_offset;
      length = length (strip_return r.line);
      text = strip_return r.line;
    })
ended_line-LineIn n file feed after r k ends kept fits =
    let (back, e, is_return) = strip_return-splits r.line in
    let end = feed ++ after in
    record {
      is_line = record {
        before = k.before;
        back = back;
        feed = feed;
        after = after;
        splits =
            ap (λ x. x ++ end) (k.splits ∙ ap (λ x. k.before ++ (r.line ++ x)) (k.whole kept))
            ∙ append_assoc k.before (r.line ++ []) end
            ∙ ap (λ x. k.before ++ (x ++ end)) (append-nil r.line ∙ e)
            ∙ ap (◌++◌ k.before) (append_assoc (strip_return r.line) back end);
        starts = k.starts;
        at_start = k.at_start;
        is_return = is_return;
        is_feed = ends;
        one_line = ground (
          arith,
          contains_byte-append b'\n' (strip_return r.line) back,
          ap (contains_byte b'\n') e,
          k.one_line,
        );
        fits = fits;
      };
      measures = refl;
    }

module _ (p : Platform) (archive : ArchiveRecord) (profile : ParserProfile)
    (max_line_bytes : ℕ) where
  -- The documents after the end of a line that is the line feed or the end of the file.
  pub end_line-Located :
      (file feed after : Bytes) (r : Reader)
      → Reads max_line_bytes file r
      → IsFeed feed after
      → All
          (Located max_line_bytes (file ++ (feed ++ after)))
          (end_line p archive profile max_line_bytes r).result.documents
  unfolding end_line
  end_line-Located file feed after r k ends =
      let whole = file ++ (feed ++ after) in
      let text = strip_return r.line in
      elim (Bool-cases (r.line_overflow || ltb max_line_bytes (length text))) [
        | inl long ↦
            rw (end_line, long)
              (documents-fail max_line_bytes whole r.state (codes "LINE_TOO_LONG") r.line_number
                (k.located (feed ++ after)))
        | inr short ↦
            rw (end_line, short)
              (process_line-Located p archive max_line_bytes whole _ profile r.state
                (ended_line-LineIn max_line_bytes file feed after r k ends (ground arith)
                  (ground arith))
                (k.located (feed ++ after)))
      ]

  newline-Reads :
      (file : Bytes) (r : Reader)
      → Reads max_line_bytes file r
      → Reads max_line_bytes
          (file ++ b'\n' ∷ [])
          (read_byte p archive profile max_line_bytes r b'\n')
  unfolding read_byte contains_byte
  newline-Reads file r k = record {
    before = file ++ b'\n' ∷ [];
    rest = [];
    splits = sym (append-nil (file ++ b'\n' ∷ []));
    starts = omega (arith, k.offset, length-append file (b'\n' ∷ []));
    at_start = inr (file, refl);
    whole = λ h. refl;
    full = λ h. absurd (true_ne_false (sym h));
    one_line = refl;
    offset = omega (arith, k.offset, length-append file (b'\n' ∷ []));
    located = λ more.
        rw (append_assoc file (b'\n' ∷ []) more)
          (end_line-Located file (b'\n' ∷ []) more r k (inl refl));
  }

  -- A byte that is kept: nothing of the line was dropped before.
  pushed-Reads :
      (file : Bytes) (r : Reader) (byte : ℕ)
      → (byte == b'\n') ≡ false
      → length r.line ≤ max_line_bytes
      → Reads max_line_bytes file r
      → Reads max_line_bytes
          (file ++ byte ∷ [])
          (record r { line = r.line ++ byte ∷ []; absolute_offset = r.absolute_offset + 1 })
  unfolding contains_byte
  pushed-Reads file r byte other fits k =
      let kept : r.line_overflow ≡ false = elim (Bool-cases r.line_overflow) [
        | inl o ↦ absurd (omega (arith, k.full o, fits))
        | inr n ↦ n
      ] in
      record {
        before = k.before;
        rest = [];
        splits =
            ap (λ x. x ++ byte ∷ []) (k.splits ∙ ap (λ x. k.before ++ (r.line ++ x)) (k.whole kept))
            ∙ ap (λ x. (k.before ++ x) ++ byte ∷ []) (append-nil r.line)
            ∙ append_assoc k.before r.line (byte ∷ [])
            ∙ ap (◌++◌ k.before) (sym (append-nil (r.line ++ byte ∷ [])));
        starts = k.starts;
        at_start = k.at_start;
        whole = λ h. refl;
        full = λ h. absurd (true_ne_false (sym h ∙ kept));
        one_line = ground (arith, contains_byte-append b'\n' r.line (byte ∷ []), k.one_line);
        offset = omega (arith, k.offset, length-append file (byte ∷ []));
        located = λ more. rw (append_assoc file (byte ∷ []) more) (k.located (byte ∷ more));
      }

  -- A byte of a line that is too long.
  dropped-Reads :
      (file : Bytes) (r : Reader) (byte : ℕ)
      → max_line_bytes < length r.line
      → Reads max_line_bytes file r
      → Reads max_line_bytes
          (file ++ byte ∷ [])
          (record r { line_overflow = true; absolute_offset = r.absolute_offset + 1 })
  dropped-Reads file r byte over k = record {
    before = k.before;
    rest = k.rest ++ byte ∷ [];
    splits =
        ap (λ x. x ++ byte ∷ []) k.splits
        ∙ append_assoc k.before (r.line ++ k.rest) (byte ∷ [])
        ∙ ap (◌++◌ k.before) (append_assoc r.line k.rest (byte ∷ []));
    starts = k.starts;
    at_start = k.at_start;
    whole = λ h. absurd (true_ne_false h);
    full = λ h. over;
    one_line = k.one_line;
    offset = omega (arith, k.offset, length-append file (byte ∷ []));
    located = λ more. rw (append_assoc file (byte ∷ []) more) (k.located (byte ∷ more));
  }

  byte-Reads :
      (file : Bytes) (r : Reader) (byte : ℕ)
      → (byte == b'\n') ≡ false
      → Reads max_line_bytes file r
      → Reads max_line_bytes (file ++ byte ∷ []) (read_byte p archive profile max_line_bytes r byte)
  unfolding read_byte
  byte-Reads file r byte other k = elim (Bool-cases (leb (length r.line) max_line_bytes)) [
    | inl fits ↦ rw (read_byte, other, fits) (pushed-Reads file r byte other (leb→le _ _ fits) k)
    | inr over ↦ rw (read_byte, other, over) (dropped-Reads file r byte (ground arith) k)
  ]

  read_byte-Reads :
      (file : Bytes) (r : Reader) (byte : ℕ)
      → Reads max_line_bytes file r
      → Reads max_line_bytes (file ++ byte ∷ []) (read_byte p archive profile max_line_bytes r byte)
  read_byte-Reads file r byte k = elim (Bool-cases (byte == b'\n')) [
    | inl e ↦ rw ((==_iff byte b'\n').0 e) (newline-Reads file r k)
    | inr e ↦ byte-Reads file r byte e k
  ]

  pub read_bytes-Reads :
      (bytes file : Bytes) (r : Reader)
      → Reads max_line_bytes file r
      → Reads max_line_bytes (file ++ bytes) (read_bytes p archive profile max_line_bytes r bytes)
  unfolding read_bytes
  read_bytes-Reads [] file r k = rw append-nil k
  read_bytes-Reads (b ∷ bytes) file r k =
      subst
        (λ x. Reads max_line_bytes x (read_bytes p archive profile max_line_bytes r (b ∷ bytes)))
        (append_assoc file (b ∷ []) bytes)
        (read_bytes-Reads bytes (file ++ b ∷ []) (read_byte p archive profile max_line_bytes r b)
          (read_byte-Reads file r b k))
