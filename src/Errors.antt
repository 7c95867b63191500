-- ===== src/Errors.antt =====
-- src/error.rs: the error type, its `Display` form, and the split into errors that the caller has to
-- fix and the rest. A message holds the fixed words of the source's format string; the values that
-- the source interpolates into them are left out. The variants of other crates are seen through
-- what the source reads of them: the kind of an `opendal::Error`, and of a `tokio_postgres::Error`
-- the SQLSTATE, the message and the hint of its `DbError`, if it has one.
use Prim.Native.String.{◌++◌ as join}
use relyt_ingest.Common.{ℕ, String, Bool, true, false, Option, none, some, ◌≡◌, refl}

pub data StorageKind : Type 0 where
  not_found permission_denied other_kind : StorageKind

pub data SqlState : Type 0 where
  unique_violation exclusion_violation undefined_function insufficient_privilege : SqlState
  other_state : SqlState

pub record DbError : Type 0 where
  pub code : SqlState
  pub message : String
  pub hint : Option String

-- `tokio_postgres::Error`: `as_db_error`, and its own text.
pub record PgError : Type 0 where
  pub as_db_error : Option DbError
  pub text : String

describe_db : DbError → Option String → String
describe_db db (some hint) = join db.message (join " (hint: " (join hint ")"))
describe_db db none = db.message

describe : Option DbError → String → String
describe (some db) text = describe_db db db.hint
describe none text = text

unfoldable pub describe_db_error : PgError → String
unfolding describe describe_db
describe_db_error e = describe e.as_db_error e.text

pub data Error : Type 0 where
  schema : String → Error
  unsupported_type : String → String → Error
  naming : String → Error
  serial_contract_violation : String → Error
  writer_locked : String → Error
  writer_fenced : String → Error
  storage : StorageKind → String → Error
  staging_stalled : ℕ → String → Error
  rotation_failed : String → Error → Error
  staging_order_violation : String → Error
  database : PgError → Error
  config : String → Error
  writer_closed : Error

-- The `Display` form of an error.
unfoldable pub to_string : Error → String
unfolding describe_db_error
to_string (schema m) = join "schema error: " m
to_string (unsupported_type column data_type) =
    join "unsupported arrow type for column `" (join column (join "`: " data_type))
to_string (naming m) = join "naming error: " m
to_string (serial_contract_violation m) = join "serial contract violation: " m
to_string (writer_locked m) = join "writer is locked: " m
to_string (writer_fenced m) = join "writer was fenced: " m
to_string (storage kind m) = join "staging storage error: " m
to_string (staging_stalled attempts last) =
    join "staging the current file has failed time(s) and is still being retried; last error: " last
to_string (rotation_failed stage source) =
    join "rotation cannot proceed: "
      (join stage (join " of the current file keeps failing with: " (to_string source)))
to_string (staging_order_violation m) = join "staging order violation: " m
to_string (database e) = join "relyt control connection error: " (describe_db_error e)
to_string (config m) = join "configuration error: " m
to_string writer_closed = "writer closed"

-- An error that the caller has to fix: the arguments, the configuration or the table definition.
unfoldable pub is_input_error : Error → Bool
is_input_error (config m) = true
is_input_error (schema m) = true
is_input_error (unsupported_type column data_type) = true
is_input_error (naming m) = true
is_input_error _ = false

-- The error goes on to the caller as it is; the Boolean says whether it was logged.
unfoldable pub log_input_error : Error → Error × Bool
unfolding is_input_error
log_input_error e = (e, is_input_error e)

pub data Result {ℓ} (T : Type ℓ) : Type ℓ where
  err : Error → Result T
  ok : T → Result T

abbrev pub is_ok {ℓ} : {T : Type ℓ} → Result T → Bool
is_ok (err failure) = false
is_ok (ok value) = true

-- A check that returns early with an error.
abbrev pub guard : Bool → Error → Result (Unit {0})
guard false failure = err failure
guard true failure = ok tt

pub guard-eq-ok : (b : Bool) (e : Error) {u : Unit {0}} → guard b e ≡ ok u → b ≡ true
guard-eq-ok false e passed = cc
guard-eq-ok true e passed = refl

-- `?` and, for a step without a value, `?;`.
infixl 5 ◌>>◌ ◌>>=◌
abbrev pub ◌>>=◌ {κ ℓ} : {S : Type κ} {T : Type ℓ} → Result S → (S → Result T) → Result T
err failure >>= next = err failure
ok value >>= next = next value

abbrev pub ◌>>◌ {ℓ} : {T : Type ℓ} → Result (Unit {0}) → Result T → Result T
step >> next = step >>= λ done. next

pub ok_injective {ℓ} : {T : Type ℓ} {a b : T} → ok a ≡ ok b → a ≡ b
ok_injective same = cc

-- What a step that went on has passed to the next one.
pub >>=-eq-ok {κ ℓ} :
    {S : Type κ} {T : Type ℓ} (step : Result S) (next : S → Result T) {t : T}
    → (step >>= next) ≡ ok t
    → (s : S) × (step ≡ ok s) × (next s ≡ ok t)
>>=-eq-ok (err failure) next passed = cc
>>=-eq-ok (ok value) next passed = (value, refl, passed)
