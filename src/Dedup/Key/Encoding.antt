-- ===== src/Dedup/Key/Encoding.antt =====
-- src/dedup.rs: fixed-width numbers and the UTF-8 form of a text are told apart by their bytes.
use native.Mathlib.Nat.{pow-suc}
use relyt_ingest.Common.{
  ℕ, zero, suc, ◌/◌, ◌%◌, ◌^◌, ◌≤◌, ◌<◌, ◌≡◌, refl, ap, [], ◌∷◌, ◌++◌, arith, append_inj, length,
  length-append, All,
}
use relyt_ingest.Common.Text.{Bytes}
use relyt_ingest.Dedup.Key.{be_bytes, char_bytes, text_bytes}

pub length-be_bytes : (w n : ℕ) → length (be_bytes w n) ≡ w
unfolding be_bytes
length-be_bytes zero n = refl
length-be_bytes (suc w) n =
    omega (arith, length-append (be_bytes w (n / 256)) (n % 256 ∷ []), length-be_bytes w (n / 256))

pub be_bytes_injective :
    (w n m : ℕ) → n < 256 ^ w → m < 256 ^ w → be_bytes w n ≡ be_bytes w m → n ≡ m
unfolding be_bytes
be_bytes_injective zero n m hn hm e = omega arith
be_bytes_injective (suc w) n m hn hm e =
    let lengths : length (be_bytes w (n / 256)) ≡ length (be_bytes w (m / 256)) =
      omega (arith, length-be_bytes w (n / 256), length-be_bytes w (m / 256)) in
    let (high, low) = append_inj (be_bytes w (n / 256)) (be_bytes w (m / 256)) _ _ lengths e in
    let tops =
      be_bytes_injective w (n / 256) (m / 256) (omega (arith, pow-suc 256 w, hn))
        (omega (arith, pow-suc 256 w, hm)) high in
    let lows : n % 256 ≡ m % 256 = cc low in omega (arith, tops, lows)

-- A Unicode scalar value is below this.
abbrev pub IsChar : ℕ → Type 0
IsChar c = c < 2_097_152

char_bytes_injective :
    (c d : ℕ) (s t : Bytes)
    → IsChar c
    → IsChar d
    → char_bytes c ++ s ≡ char_bytes d ++ t
    → (c ≡ d) × (s ≡ t)
unfolding char_bytes
char_bytes_injective c d s t hc hd e = ground (arith, hc, hd, e)

char_bytes-ne-nil : (c : ℕ) (s : Bytes) → 1 ≤ length (char_bytes c ++ s)
unfolding char_bytes
char_bytes-ne-nil c s = ground arith

pub text_bytes_injective :
    (s t : Bytes) → All IsChar s → All IsChar t → text_bytes s ≡ text_bytes t → s ≡ t
unfolding text_bytes
text_bytes_injective [] [] hs ht e = refl
text_bytes_injective [] (d ∷ t) hs ht e =
    absurd (omega (arith, char_bytes-ne-nil d (text_bytes t), ap length e))
text_bytes_injective (c ∷ s) [] hs ht e =
    absurd (omega (arith, char_bytes-ne-nil c (text_bytes s), ap length e))
text_bytes_injective (c ∷ s) (d ∷ t) hs ht e =
    let (heads, tails) = char_bytes_injective c d (text_bytes s) (text_bytes t) hs.0 ht.0 e in
    cc (heads, text_bytes_injective s t hs.1 ht.1 tails)
