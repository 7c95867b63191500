-- ===== src/Naming/Tests.antt =====
-- Runs of the naming code, and each property of it at one input.
use relyt_ingest.Common.{
  ℕ, ◌≤◌, ◌<◌, ◌≡◌, ◌≢◌, refl, ◌↔◌, ◌⊎◌, inr, true, false, some, none, [], ◌++◌, arith, length,
}
use relyt_ingest.Common.Int.{pos, ◌<ℤ◌}
use relyt_ingest.Common.Text.{Bytes, codes, strip_prefix, strip_suffix, split}
use relyt_ingest.Common.Decimal.{display, display_i64, pad, parse_uint, parse_i64}
use relyt_ingest.Errors.{ok}
use relyt_ingest.Naming.{
  WriterIdentity, StagedFile, encode_serial_seq, decode_serial_seq, object_key, basename,
  parse_basename, identifier, serial_seq, validate_path_segment, validate_writer_id,
  validate_cluster_id, staging_dir, state_key, lock_key,
}
use relyt_ingest.Naming.SerialSeq.{encode_serial_seq_order}
use relyt_ingest.Naming.Basename.{IsNameable, parse_basename-basename}
use relyt_ingest.Naming.Segments.{IsIdentity, keys_disjoint}
use relyt_ingest.Naming.Identifier.{identifier_total, identifier_injective}
use relyt_ingest.Naming.KeyOrder.{before, object_key_order}

abbrev pub ident : WriterIdentity
ident = record {
  cluster_id = codes "1024";
  db_oid = 13727;
  rel_oid = 54321;
  writer_id = codes "w-0";
}

abbrev pub other_ident : WriterIdentity
other_ident = record ident { writer_id = codes "w-1" }

abbrev pub staged : StagedFile
staged = record {
  epoch_ms = 100;
  seq = 42;
  start_offset = pos 1000;
  end_offset = pos 1999;
  compressed = false;
}

abbrev pub later : StagedFile
later = record staged {
  seq = 43;
  start_offset = pos 2000;
  end_offset = pos 2999;
  compressed = true;
}

key_layout :
    object_key staged ident
    ≡ codes "staging/1024/13727/54321/w-0/0000000000100-0000042-o1000-1999.csv"
unfolding object_key display pad display_i64
key_layout = refl

parsed : parse_basename (codes "100-42-o1000-1999.csv") ≡ some staged
unfolding parse_basename strip_suffix split parse_uint strip_prefix parse_i64
parsed = refl

refused : parse_basename (codes "100-42-o1000.csv") ≡ none
unfolding parse_basename strip_suffix split parse_uint strip_prefix parse_i64
refused = refl

pub ident-IsIdentity : IsIdentity ident
unfolding validate_cluster_id validate_writer_id
ident-IsIdentity = record {
  cluster_valid = refl;
  writer_valid = refl;
  db_fits = omega arith;
  rel_fits = omega arith;
}

pub other-IsIdentity : IsIdentity other_ident
unfolding validate_cluster_id validate_writer_id
other-IsIdentity = record {
  cluster_valid = refl;
  writer_valid = refl;
  db_fits = omega arith;
  rel_fits = omega arith;
}

pub staged-IsNameable : IsNameable staged
staged-IsNameable = record {
  epoch_fits = omega arith;
  seq_fits = omega arith;
  start_fits = omega arith;
  end_fits = omega arith;
}

pub staged_seq : serial_seq staged ≡ ok (pos 104857642)
unfolding serial_seq
staged_seq = refl

encoded : encode_serial_seq 100 42 ≡ ok (pos 104857642)
unfolding encode_serial_seq
encoded = refl

encoded_later : encode_serial_seq 101 0 ≡ ok (pos 105906176)
unfolding encode_serial_seq
encoded_later = refl

encode_serial_seq_order_example :
    (decode_serial_seq (pos 104857642) ≡ (100, 42))
    × ((pos 104857642 <ℤ pos 105906176) ↔ ((100 < 101) ⊎ (◌≡◌ {A = ℕ} 100 101 × (42 < 0))))
encode_serial_seq_order_example =
    encode_serial_seq_order 100 42 101 0 (pos 104857642) (pos 105906176) encoded encoded_later

parse_basename-basename_example : parse_basename (basename staged) ≡ some staged
parse_basename-basename_example = parse_basename-basename staged staged-IsNameable

valid_segment : validate_path_segment (codes "w-0") ≡ ok tt
unfolding validate_path_segment
valid_segment = refl

keys_disjoint_example :
    ((r t : Bytes) → staging_dir ident ++ r ≡ staging_dir other_ident ++ t → ident ≡ other_ident)
    × (state_key ident ≡ state_key other_ident → ident ≡ other_ident)
    × (lock_key ident ≡ lock_key other_ident → ident ≡ other_ident)
    × (state_key ident ≢ lock_key other_ident)
    × ((r : Bytes) → staging_dir ident ++ r ≢ state_key other_ident)
    × ((r : Bytes) → staging_dir ident ++ r ≢ lock_key other_ident)
keys_disjoint_example = keys_disjoint ident other_ident ident-IsIdentity other-IsIdentity

identifier_total_example : (id : Bytes) × (identifier staged ident ≡ ok id) × (length id ≤ 108)
identifier_total_example = identifier_total staged ident (pos 104857642) ident-IsIdentity staged_seq

job_of : identifier staged ident ≡ ok (codes "13727:54321:w-0:100:42")
unfolding identifier display
job_of = refl

identifier_injective_example :
    (ident.db_oid ≡ ident.db_oid)
    × (ident.rel_oid ≡ ident.rel_oid)
    × (ident.writer_id ≡ ident.writer_id)
    × (staged.epoch_ms ≡ staged.epoch_ms)
    × (staged.seq ≡ staged.seq)
identifier_injective_example =
    identifier_injective staged staged ident ident (codes "13727:54321:w-0:100:42") ident-IsIdentity
      ident-IsIdentity job_of job_of

object_key_order_example : before (object_key staged ident) (object_key later ident) ≡ true
object_key_order_example =
    object_key_order staged later ident (omega arith, omega arith) (omega arith, omega arith)
      (inr (refl, omega arith))

appended : object_key staged ident ++ [] ≡ object_key staged ident
unfolding object_key display pad display_i64
appended = refl
