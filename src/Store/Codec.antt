-- ===== src/Store/Codec.antt =====
-- 02_SMT_LogTrace/src/indexing/segment_store.cpp: the writers of little-endian words and strings, and
-- the class BinaryReader. The state of a reader is the bytes from its offset on; a reading gives the
-- value and the bytes after it.
pub mod Words
pub mod Reads
pub mod Chains
use work_smt.Base.{
  List, not, drop, zero, ◌==◌, ◌-◌, ◌||◌, ◌&&◌, take, ltb, is_empty, ◌^◌, ◌+◌, true, ◌/◌, length,
  within, suc, ◌++◌, ◌∷◌, if◌then◌else◌, ◌%◌, Bool, [], ◌*◌, ℕ,
}
use work_smt.Base.Bytes.{bytes_eq, Bytes}
use work_smt.Base.Ints.{negsuc, pos, ℤ}
use work_smt.Base.Results.{thrown, ok, Result, ◌>>=◌}

-- The exceptions of the store. The last one is none: it stands for undefined behaviour, a read outside
-- of the posting table.
pub data StoreError : Type 0 where
  magic_invalid : StoreError
  truncated : StoreError
  trailing_bytes : StoreError
  string_limit_exceeded : StoreError
  sha256_invalid : StoreError
  header_inconsistent : StoreError
  record_invalid : StoreError
  not_increasing : StoreError
  not_covering : StoreError
  manifest_invalid : StoreError
  artifact_mismatch : StoreError
  statistics_inconsistent : StoreError
  outside_of_table : StoreError

abbrev pub Reader : Type 0 → Type 0
Reader A = Bytes → Result StoreError (A × Bytes)

infixl 1 ◌>>>◌
-- One reading after another.
unfoldable pub ◌>>>◌ : {A B : Type 0} → Reader A → (A → Reader B) → Reader B
p >>> f = λ bytes. p bytes >>= λ (a, rest). f a rest

-- The value of a reading that takes nothing more.
abbrev pub give : {A : Type 0} → A → Reader A
give a rest = ok (a, rest)

-- Pieces of output, one after the other, and then the rest.
abbrev pub before : List Bytes → Bytes → Bytes
before [] rest = rest
before (piece ∷ pieces) rest = piece ++ before pieces rest

abbrev pub string_limit : ℕ
string_limit = 1024 * 1024

-- The low `n` bytes of a word, the lowest first: `(value >> shift) & 0xFF` for the shifts 0, 8, 16, …
unfoldable pub append_word : ℕ → ℕ → Bytes
append_word zero value = []
append_word (suc n) value = value % 256 ∷ append_word n (value / 256)

unfoldable pub append_uint32 : ℕ → Bytes
append_uint32 value = append_word 4 (value % 2 ^ 32)

unfoldable pub append_uint64 : ℕ → Bytes
append_uint64 value = append_word 8 (value % 2 ^ 64)

-- `static_cast<std::uint64_t>` of a signed number.
unfoldable pub to_unsigned : ℤ → ℕ
to_unsigned (pos n) = n % 2 ^ 64
to_unsigned (negsuc n) = 2 ^ 64 - 1 - n % 2 ^ 64

unfoldable pub append_int64 : ℤ → Bytes
append_int64 value = append_uint64 (to_unsigned value)

unfoldable pub append_string : Bytes → Result StoreError Bytes
append_string value =
    if ltb string_limit (length value)
    then thrown string_limit_exceeded
    else ok (append_uint32 (length value) ++ value)

unfoldable pub append_header : Bytes → ℕ → Bytes
append_header magic count = before (magic ∷ append_uint32 1 ∷ []) (append_uint64 count)

-- `require(size)`, and the next bytes.
unfoldable pub read_bytes : ℕ → Reader Bytes
read_bytes size bytes =
    if ltb (length bytes) size then thrown truncated else ok (take size bytes, drop size bytes)

unfoldable pub require_magic : Bytes → Reader (Unit {0})
require_magic expected bytes =
    if ltb (length bytes) 8 || not (bytes_eq (take 8 bytes) expected)
    then thrown magic_invalid
    else ok (tt, drop 8 bytes)

-- The bytes of a word, the lowest first; the shifted bytes do not overlap, so `|=` adds them.
unfoldable pub word : Bytes → ℕ
word [] = 0
word (b ∷ bs) = b % 256 + 256 * word bs

unfoldable pub read_uint32 : Reader ℕ
read_uint32 = read_bytes 4 >>> λ bs. give (word bs)

unfoldable pub read_uint64 : Reader ℕ
read_uint64 = read_bytes 8 >>> λ bs. give (word bs)

-- `static_cast<std::int64_t>` of an unsigned number.
unfoldable pub to_signed : ℕ → ℤ
to_signed value = if ltb value (2 ^ 63) then pos value else negsuc (2 ^ 64 - 1 - value)

unfoldable pub read_int64 : Reader ℤ
read_int64 = read_uint64 >>> λ value. give (to_signed value)

unfoldable pub read_string : Reader Bytes
read_string = read_uint32 >>> λ size.
    λ rest. if ltb string_limit size then thrown string_limit_exceeded else read_bytes size rest

unfoldable pub finish : Bytes → Result StoreError (Unit {0})
finish bytes = if is_empty bytes then ok tt else thrown trailing_bytes

unfoldable pub is_hex : ℕ → Bool
is_hex c = within b'0' b'9' c || within b'a' b'f' c

unfoldable pub all_hex : Bytes → Bool
all_hex [] = true
all_hex (c ∷ cs) = is_hex c && all_hex cs

unfoldable pub valid_sha256 : Bytes → Bool
valid_sha256 value = length value == 64 && all_hex value

-- The value of a digit, as `strtoul` reads it in base 16.
unfoldable pub hex_value : ℕ → ℕ
hex_value c = if within b'0' b'9' c then c - b'0' else c - b'a' + 10

unfoldable pub pack_hex : Bytes → Bytes
pack_hex [] = []
pack_hex (a ∷ []) = hex_value a ∷ []
pack_hex (a ∷ b ∷ cs) = (16 * hex_value a + hex_value b) ∷ pack_hex cs

unfoldable pub append_sha256_bytes : Bytes → Result StoreError Bytes
append_sha256_bytes hex = if valid_sha256 hex then ok (pack_hex hex) else thrown sha256_invalid

-- `hex[n]` of the table of the digits.
unfoldable pub hex_digit : ℕ → ℕ
hex_digit n = if ltb n 10 then b'0' + n else b'a' + (n - 10)

unfoldable pub unpack_hex : Bytes → Bytes
unpack_hex [] = []
unpack_hex (b ∷ bs) = hex_digit (b % 256 / 16) ∷ hex_digit (b % 256 % 16) ∷ unpack_hex bs

unfoldable pub bytes_to_sha256 : Bytes → Result StoreError Bytes
bytes_to_sha256 bytes = if length bytes == 32 then ok (unpack_hex bytes) else thrown sha256_invalid

-- The outputs of the records, one after the other; the first exception ends it.
unfoldable pub append_records :
    {A : Type 0} → (A → Result StoreError Bytes) → List A → Result StoreError Bytes
append_records f [] = ok []
append_records f (a ∷ more) = f a >>= λ x. append_records f more >>= λ y. ok (x ++ y)

-- The value, if a test on it holds.
abbrev pub accept : {A : Type 0} → Bool → StoreError → A → Reader A
accept test error a rest = if test then ok (a, rest) else thrown error

-- `requireMagic`, the version and the count.
unfoldable pub read_header : Bytes → ℕ → Reader (Unit {0})
read_header magic expected_count = require_magic magic >>> λ _. read_uint32 >>> λ version.
    read_uint64 >>> λ count. accept (version == 1 && count == expected_count) header_inconsistent tt

-- The end of a loading: nothing may be left.
unfoldable pub load_all : {A : Type 0} → Reader A → Bytes → Result StoreError A
load_all p content = p content >>= λ (a, rest). finish rest >>= λ _. ok a
