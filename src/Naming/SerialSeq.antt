-- ===== src/Naming/SerialSeq.antt =====
-- `encode_serial_seq` and `decode_serial_seq`: ranges, order and round trip.
use relyt_ingest.Common.{
  ℕ, ◌+◌, ◌*◌, ◌/◌, ◌%◌, ◌^◌, ◌≤◌, ◌<◌, ◌≡◌, refl, sym, ap, ◌∙◌, ◌↔◌, ◌⊎◌, inl, inr, true, false,
  arith, ltb, Bool-cases, String,
}
use relyt_ingest.Common.Bits.{bit_or-add, bit_and_mask}
use relyt_ingest.Common.Int.{ℤ, pos, ◌<ℤ◌, max_i64}
use relyt_ingest.Errors.{naming, ok, err, is_ok}
use relyt_ingest.Naming.{max_seq, max_epoch_ms, encode_serial_seq, decode_serial_seq}

field : (e s : ℕ) → e ≤ max_epoch_ms → s ≤ max_seq → e * 2 ^ 20 % 2 ^ 64 ≡ e * 2 ^ 20
field e s he hs = omega arith

-- In range the fields stand side by side, and the sign bit is free.
pub encode_in_range :
    (e s : ℕ) → e ≤ max_epoch_ms → s ≤ max_seq → encode_serial_seq e s ≡ ok (pos (e * 2 ^ 20 + s))
unfolding encode_serial_seq
encode_in_range e s he hs = rw (field e s he hs, bit_or-add 20 e s (omega arith)) (ground arith)

encode_bounds :
    (e s : ℕ) (v : ℤ) → encode_serial_seq e s ≡ ok v → (e ≤ max_epoch_ms) × (s ≤ max_seq)
unfolding encode_serial_seq
encode_bounds e s v h = ground arith

-- What an encoding tells of its arguments.
pub encode_sound :
    (e s : ℕ) (v : ℤ)
    → encode_serial_seq e s ≡ ok v
    → (e ≤ max_epoch_ms) × (s ≤ max_seq) × (v ≡ pos (e * 2 ^ 20 + s))
encode_sound e s v h =
    let (he, hs) = encode_bounds e s v h in (he, hs, cc (encode_in_range e s he hs))

-- Encoding succeeds exactly for a 43-bit epoch and a 20-bit seq, and fails with a naming error on
-- all other arguments.
pub encode_serial_seq-is_ok :
    (e s : ℕ)
    → ((is_ok (encode_serial_seq e s) ≡ true) ↔ ((e ≤ max_epoch_ms) × (s ≤ max_seq)))
      × (is_ok (encode_serial_seq e s) ≡ false
          → (m : String) × (encode_serial_seq e s ≡ err (naming m)))
unfolding encode_serial_seq
encode_serial_seq-is_ok e s = ((λ h. ground arith, λ h. ground arith), λ h. refused e s h)
  where
    refused :
        (e s : ℕ)
        → is_ok (encode_serial_seq e s) ≡ false
        → (m : String) × (encode_serial_seq e s ≡ err (naming m))
    refused e s h = elim (Bool-cases (ltb max_epoch_ms e)) [
      | inl far ↦ ("epoch exceeds 43 bits", ground arith)
      | inr near ↦ ("seq exceeds 20 bits", ground arith)
    ]

-- The fields of an encoded value are read back.
decode_fields : (e s : ℕ) → s ≤ max_seq → decode_serial_seq (pos (e * 2 ^ 20 + s)) ≡ (e, s)
unfolding decode_serial_seq
decode_fields e s hs = rw (bit_and_mask 20 e s max_seq (omega arith) refl) (ground arith)

-- Whatever `encode_serial_seq` returns is decoded to the epoch and the seq that went in.
decode-encode_serial_seq :
    (e s : ℕ) (v : ℤ) → encode_serial_seq e s ≡ ok v → decode_serial_seq v ≡ (e, s)
decode-encode_serial_seq e s v h =
    let (he, hs, eq) = encode_sound e s v h in rw eq (decode_fields e s hs)

-- Encoded values are decoded to the pair (epoch, seq) that went in, and two of them are ordered as
-- their pairs are, in both directions; so a newer epoch outranks every seq of an older one.
pub encode_serial_seq_order :
    (e s e' s' : ℕ) (v v' : ℤ)
    → encode_serial_seq e s ≡ ok v
    → encode_serial_seq e' s' ≡ ok v'
    → (decode_serial_seq v ≡ (e, s)) × ((v <ℤ v') ↔ ((e < e') ⊎ ((e ≡ e') × (s < s'))))
encode_serial_seq_order e s e' s' v v' h h' =
    let (he, hs, eq) = encode_sound e s v h in
    let (he', hs', eq') = encode_sound e' s' v' h' in
    (decode-encode_serial_seq e s v h, rw (eq, eq') (λ lt. ground arith, λ lt. ground arith))

-- Every i64 that is not negative is the encoding of the pair that it is decoded to, so the 43 and
-- 20 bits fill the positive i64 range exactly.
pub encode-decode_serial_seq :
    (n : ℕ)
    → n ≤ max_i64
    → encode_serial_seq (decode_serial_seq (pos n)).0 (decode_serial_seq (pos n)).1 ≡ ok (pos n)
encode-decode_serial_seq n h =
    let parts : n ≡ n / 2 ^ 20 * 2 ^ 20 + n % 2 ^ 20 = omega arith in
    let fields : decode_serial_seq (pos n) ≡ (n / 2 ^ 20, n % 2 ^ 20) =
      ap (λ t. decode_serial_seq (pos t)) parts
      ∙ decode_fields (n / 2 ^ 20) (n % 2 ^ 20) (omega arith) in
    rw fields (
      encode_in_range (n / 2 ^ 20) (n % 2 ^ 20) (omega arith) (omega arith)
      ∙ ap (λ t. ok (pos t)) (sym parts))
