-- ===== src/Naming.antt =====
-- src/naming.rs: serial seqs, path segments, the writer's identity and the names of staged files.
-- Names are bytes. A character that is not ASCII has only bytes from 128 up, and the checks of a
-- path segment refuse such a character and such a byte alike.
pub mod SerialSeq
pub mod Segments
pub mod Basename
pub mod KeyOrder
pub mod Identifier
pub mod Tests
use Prim.Native.Nat.{bit_and, bit_or}
use relyt_ingest.Common.{
  ℕ, ◌*◌, ◌/◌, ◌%◌, ◌^◌, ◌-◌, Bool, true, false, not, ◌&&◌, ◌||◌, Option, none, some, List, [], ◌∷◌,
  ◌++◌, ltb, leb, ◌==◌, if◌then◌else◌, length, all, is_empty,
}
use relyt_ingest.Common.Int.{ℤ, to_i64, to_u64}
use relyt_ingest.Common.Text.{Bytes, codes, strip_prefix, strip_suffix, split}
use relyt_ingest.Common.Decimal.{display, display_i64, pad, parse_uint, parse_i64, max_u64, max_u32}
use relyt_ingest.Errors.{Error, naming, config, Result, ok, err, ◌>>=◌, ◌>>◌, guard}

abbrev pub seq_bits : ℕ
seq_bits = 20

abbrev pub max_seq : ℕ
max_seq = 2 ^ seq_bits - 1

abbrev pub max_epoch_ms : ℕ
max_epoch_ms = 2 ^ 43 - 1

abbrev pub epoch_pad : ℕ
epoch_pad = 13

abbrev pub seq_pad : ℕ
seq_pad = 7

abbrev pub identifier_max_len : ℕ
identifier_max_len = 128

abbrev pub writer_id_max_len : ℕ
writer_id_max_len = 64

-- The shift is one of a u64, and the result is read as an i64.
unfoldable pub encode_serial_seq : ℕ → ℕ → Result ℤ
encode_serial_seq epoch_ms seq =
    if ltb max_epoch_ms epoch_ms
    then err (naming "epoch exceeds 43 bits")
    else if ltb max_seq seq
    then err (naming "seq exceeds 20 bits")
    else ok (to_i64 (bit_or (epoch_ms * 2 ^ seq_bits % 2 ^ 64) seq))

unfoldable pub decode_serial_seq : ℤ → ℕ × ℕ
decode_serial_seq serial_seq =
    let v = to_u64 serial_seq in (v / 2 ^ seq_bits, bit_and v max_seq % 2 ^ 32)

abbrev pub is_ascii_alphanumeric : ℕ → Bool
is_ascii_alphanumeric c =
    (leb b'0' c && leb c b'9') || (leb b'A' c && leb c b'Z') || (leb b'a' c && leb c b'z')

abbrev pub is_allowed : ℕ → Bool
is_allowed c = is_ascii_alphanumeric c || (c == b'.') || (c == b'_') || (c == b'-')

unfoldable pub validate_path_segment : Bytes → Result (Unit {0})
validate_path_segment value = do
  guard (not (is_empty value || ltb writer_id_max_len (length value)))
      (config "must be 1..=64 chars")
  guard (not (all (λ c. c == b'.') value)) (config "is not a valid path segment")
  guard (all is_allowed value) (config "allowed characters are [A-Za-z0-9._-]")

abbrev pub starts_with_underscore : Bytes → Bool
starts_with_underscore [] = false
starts_with_underscore (c ∷ s) = c == b'_'

unfoldable pub validate_writer_id : Bytes → Result (Unit {0})
unfolding validate_path_segment
validate_writer_id writer_id = do
  validate_path_segment writer_id
  guard (not (starts_with_underscore writer_id))
      (config "writer_id must not start with '_' (reserved for bookkeeping)")

unfoldable pub validate_cluster_id : Bytes → Result (Unit {0})
unfolding validate_path_segment
validate_cluster_id cluster_id = validate_path_segment cluster_id

pub record WriterIdentity : Type 0 where
  pub cluster_id : Bytes
  pub db_oid : ℕ
  pub rel_oid : ℕ
  pub writer_id : Bytes

-- `<cluster_id>/<db_oid>/<rel_oid>/<writer_id>/`
pub writer_path : WriterIdentity → Bytes
writer_path w =
    w.cluster_id
    ++ b'/' ∷ (display w.db_oid ++ b'/' ∷ (display w.rel_oid ++ b'/' ∷ (w.writer_id ++ b'/' ∷ [])))

unfoldable pub staging_dir : WriterIdentity → Bytes
unfolding writer_path
staging_dir w = codes "staging/" ++ writer_path w

unfoldable pub state_key : WriterIdentity → Bytes
unfolding writer_path
state_key w = codes "_meta/" ++ (writer_path w ++ codes "state.json")

unfoldable pub lock_key : WriterIdentity → Bytes
unfolding writer_path
lock_key w = codes "_meta/" ++ (writer_path w ++ codes "lock")

unfoldable pub serial_group : WriterIdentity → Bytes
serial_group w = display w.db_oid ++ b':' ∷ (display w.rel_oid ++ b':' ∷ w.writer_id)

pub record StagedFile : Type 0 where
  pub epoch_ms : ℕ
  pub seq : ℕ
  pub start_offset : ℤ
  pub end_offset : ℤ
  pub compressed : Bool

unfoldable pub serial_seq : StagedFile → Result ℤ
unfolding encode_serial_seq
serial_seq f = encode_serial_seq f.epoch_ms f.seq

abbrev pub ext : Bool → Bytes
ext true = codes ".csv.gz"
ext false = codes ".csv"

-- What `object_key` appends to the directory, up to the extension.
unfoldable pub stem : StagedFile → Bytes
stem f =
    pad epoch_pad (display f.epoch_ms)
    ++ b'-'
      ∷ (pad seq_pad (display f.seq)
          ++ b'-' ∷ ((b'o' ∷ display_i64 f.start_offset) ++ b'-' ∷ display_i64 f.end_offset))

unfoldable pub basename : StagedFile → Bytes
unfolding stem
basename f = stem f ++ ext f.compressed

unfoldable pub object_key : StagedFile → WriterIdentity → Bytes
unfolding staging_dir basename
object_key f ident = staging_dir ident ++ basename f

infixl 5 ◌&>◌
-- `?` on an Option.
abbrev ◌&>◌ {ℓ κ} : {A : Type ℓ} {B : Type κ} → Option A → (A → Option B) → Option B
none &> f = none
some a &> f = f a

parse_parts : List Bytes → Bool → Option StagedFile
parse_parts (e ∷ s ∷ start ∷ end ∷ []) compressed = parse_uint max_u64 e &> λ epoch_ms.
    parse_uint max_u32 s &> λ seq. strip_prefix (b'o' ∷ []) start &> λ offset.
    parse_i64 offset &> λ start_offset. parse_i64 end &> λ end_offset. some (record {
      epoch_ms = epoch_ms;
      seq = seq;
      start_offset = start_offset;
      end_offset = end_offset;
      compressed = compressed;
    })
parse_parts _ compressed = none

parse_stem : Option Bytes → Option Bytes → Option StagedFile
unfolding parse_parts
parse_stem (some stem) plain = parse_parts (split b'-' stem) true
parse_stem none (some stem) = parse_parts (split b'-' stem) false
parse_stem none none = none

unfoldable pub parse_basename : Bytes → Option StagedFile
unfolding parse_stem
parse_basename name =
    parse_stem (strip_suffix (codes ".csv.gz") name) (strip_suffix (codes ".csv") name)

job_id : StagedFile → WriterIdentity → Bytes
job_id f w =
    display w.db_oid
    ++ b':'
      ∷ (display w.rel_oid
          ++ b':' ∷ (w.writer_id ++ b':' ∷ (display f.epoch_ms ++ b':' ∷ display f.seq)))

unfoldable pub identifier : StagedFile → WriterIdentity → Result Bytes
unfolding job_id
identifier f ident =
    let id = job_id f ident in
    if ltb identifier_max_len (length id)
    then err (naming "identifier exceeds 128 bytes")
    else ok id
