-- ===== src/Naming/KeyOrder.antt =====
-- Lemmas on `object_key` as text: order and prefixes.
use native.Mathlib.Nat.{pow-suc}
use relyt_ingest.Common.{
  ℕ, zero, suc, ◌+◌, ◌/◌, ◌%◌, ◌^◌, ◌≤◌, ◌<◌, ◌≡◌, refl, sym, ap, ◌∙◌, ◌⊎◌, inl, inr, Bool, true,
  false, ◌&&◌, ◌||◌, [], ◌∷◌, ◌++◌, arith, ltb, ◌==◌, length, append_assoc, append_inj,
}
use relyt_ingest.Common.Text.{Bytes}
use relyt_ingest.Common.Decimal.{display_i64}
use relyt_ingest.Common.Decimal.Width.{fixed, pad-fixed, length-fixed, fixed-injective}
use relyt_ingest.Naming.{
  WriterIdentity, StagedFile, max_epoch_ms, max_seq, ext, object_key, staging_dir,
}

-- `<` on texts: bytes are compared from the left, and a prefix comes first.
pub before : Bytes → Bytes → Bool
before [] [] = false
before [] (y ∷ ys) = true
before (x ∷ xs) [] = false
before (x ∷ xs) (y ∷ ys) = ltb x y || (x == y && before xs ys)

before_after : (p xs ys : Bytes) → before (p ++ xs) (p ++ ys) ≡ before xs ys
unfolding before
before_after [] xs ys = refl
before_after (c ∷ p) xs ys = ground (arith, before_after p xs ys)

-- Of texts of one length the order is decided before what follows them.
before_append :
    (p q xs ys : Bytes)
    → length p ≡ length q
    → before p q ≡ true
    → before (p ++ xs) (q ++ ys) ≡ true
unfolding before
before_append [] [] xs ys e h = cc
before_append [] (y ∷ q) xs ys e h = absurd (omega arith)
before_append (x ∷ p) [] xs ys e h = absurd (omega arith)
before_append (x ∷ p) (y ∷ q) xs ys e h = ground (arith, before_append p q xs ys (omega arith))

fixed-before : (w n m : ℕ) → n < 10 ^ w → m < 10 ^ w → n < m → before (fixed w n) (fixed w m) ≡ true
unfolding fixed
fixed-before zero n m hn hm lt = absurd (omega arith)
fixed-before (suc w) n m hn hm lt = elim (split_tens n m lt) [
  | inl tens ↦
      before_append (fixed w (n / 10)) (fixed w (m / 10)) _ _
        (length-fixed w (n / 10) ∙ sym (length-fixed w (m / 10)))
        (fixed-before w (n / 10) (m / 10) (omega (arith, pow-suc 10 w))
          (omega (arith, pow-suc 10 w)) tens)
  | inr (tens, units) ↦
      rw tens (before_after (fixed w (m / 10)) _ _ ∙ last_digit (n % 10) (m % 10) units)
]
  where
    split_tens : (n m : ℕ) → n < m → (n / 10 < m / 10) ⊎ ((n / 10 ≡ m / 10) × (n % 10 < m % 10))
    split_tens n m lt = grind arith

    last_digit : (a b : ℕ) → a < b → before ((b'0' + a) ∷ []) ((b'0' + b) ∷ []) ≡ true
    last_digit a b lt = unfold before in ground arith

abbrev pub IsEncodable : StagedFile → Type 0
IsEncodable f = (f.epoch_ms ≤ max_epoch_ms) × (f.seq ≤ max_seq)

tail_of : StagedFile → Bytes
tail_of f =
    (b'-' ∷ ((b'o' ∷ display_i64 f.start_offset) ++ b'-' ∷ display_i64 f.end_offset))
    ++ ext f.compressed

-- A key is the directory, 13 digits, a dash, 7 digits, and the rest.
object_key-fixed :
    (f : StagedFile) (w : WriterIdentity)
    → IsEncodable f
    → object_key f w ≡ staging_dir w ++ (fixed 13 f.epoch_ms ++ b'-' ∷ (fixed 7 f.seq ++ tail_of f))
unfolding object_key tail_of
object_key-fixed f w h =
    rw (pad-fixed 12 f.epoch_ms (omega arith), pad-fixed 6 f.seq (omega arith)) (simp append_assoc)

names-before :
    (f g : StagedFile)
    → IsEncodable f
    → IsEncodable g
    → (f.epoch_ms < g.epoch_ms) ⊎ ((f.epoch_ms ≡ g.epoch_ms) × (f.seq < g.seq))
    → before
        (fixed 13 f.epoch_ms ++ b'-' ∷ (fixed 7 f.seq ++ tail_of f))
        (fixed 13 g.epoch_ms ++ b'-' ∷ (fixed 7 g.seq ++ tail_of g))
      ≡ true
names-before f g hf hg (inl lt) =
    before_append (fixed 13 f.epoch_ms) (fixed 13 g.epoch_ms) _ _
      (length-fixed 13 f.epoch_ms ∙ sym (length-fixed 13 g.epoch_ms))
      (fixed-before 13 f.epoch_ms g.epoch_ms (omega arith) (omega arith) lt)
names-before f g hf hg (inr (same, lt)) = rw same (
    before_after (fixed 13 g.epoch_ms) _ _
    ∙ before_after (b'-' ∷ []) _ _
    ∙ before_append (fixed 7 f.seq) (fixed 7 g.seq) _ _
        (length-fixed 7 f.seq ∙ sym (length-fixed 7 g.seq))
        (fixed-before 7 f.seq g.seq (omega arith) (omega arith) lt))

-- Below one directory, keys are listed in the order of their pairs (epoch, seq), whatever the
-- offsets and the extensions are.
pub object_key_order :
    (f g : StagedFile) (w : WriterIdentity)
    → IsEncodable f
    → IsEncodable g
    → (f.epoch_ms < g.epoch_ms) ⊎ ((f.epoch_ms ≡ g.epoch_ms) × (f.seq < g.seq))
    → before (object_key f w) (object_key g w) ≡ true
object_key_order f g w hf hg lt =
    rw (object_key-fixed f w hf, object_key-fixed g w hg)
      (before_after (staging_dir w) _ _ ∙ names-before f g hf hg lt)

cancel : (p xs ys : Bytes) → p ++ xs ≡ p ++ ys → xs ≡ ys
cancel p xs ys e = (append_inj p p xs ys refl e).1

object_key-append :
    (f : StagedFile) (w : WriterIdentity) (rest : Bytes)
    → IsEncodable f
    → object_key f w ++ rest
      ≡ staging_dir w ++ (fixed 13 f.epoch_ms ++ b'-' ∷ (fixed 7 f.seq ++ (tail_of f ++ rest)))
object_key-append f w rest h = rw (object_key-fixed f w h) (
    append_assoc (staging_dir w) _ rest
    ∙ ap (λ t. staging_dir w ++ t)
        (append_assoc (fixed 13 f.epoch_ms) _ rest
          ∙ ap (λ t. fixed 13 f.epoch_ms ++ b'-' ∷ t)
              (append_assoc (fixed 7 f.seq) (tail_of f) rest)))

-- A key that another key of the directory begins with has its epoch and seq: so the key of no
-- file is a prefix of the key of a file with another pair (epoch, seq).
pub object_key_prefix :
    (f g : StagedFile) (w : WriterIdentity) (rest : Bytes)
    → IsEncodable f
    → IsEncodable g
    → object_key f w ++ rest ≡ object_key g w
    → (f.epoch_ms ≡ g.epoch_ms) × (f.seq ≡ g.seq)
object_key_prefix f g w rest hf hg e =
    let names =
      cancel (staging_dir w) _ _
        (sym (object_key-append f w rest hf) ∙ e ∙ object_key-fixed g w hg) in
    let (epochs, after_epoch) =
      append_inj (fixed 13 f.epoch_ms) (fixed 13 g.epoch_ms) _ _
        (length-fixed 13 f.epoch_ms ∙ sym (length-fixed 13 g.epoch_ms)) names in
    let (seqs, after_seq) =
      append_inj (fixed 7 f.seq) (fixed 7 g.seq) _ _
        (length-fixed 7 f.seq ∙ sym (length-fixed 7 g.seq)) (cancel (b'-' ∷ []) _ _ after_epoch) in
    (
      fixed-injective 13 f.epoch_ms g.epoch_ms (omega arith) (omega arith) epochs,
      fixed-injective 7 f.seq g.seq (omega arith) (omega arith) seqs,
    )
