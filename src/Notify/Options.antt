-- ===== src/Notify/Options.antt =====
-- src/notify.rs: the options of a load job, and the masking of a secret for the log. Characters are
-- code points here.
use relyt_ingest.Common.{
  ℕ, ◌+◌, ◌-◌, ◌≤◌, ◌≡◌, refl, inl, inr, Bool, ◌++◌, ◌∷◌, [], arith, leb, length, take, drop,
  length-append, length-take, length-drop, if◌then◌else◌, Bool-cases,
}
use relyt_ingest.Common.Text.{Bytes, codes}

abbrev pub shown : ℕ → ℕ
shown n = if leb n 15 then 2 else 3

unfoldable pub mask_secret : Bytes → Bytes
mask_secret v =
    if leb (length v) 8
    then codes "******"
    else take (shown (length v)) v ++ (codes "***" ++ drop (length v - shown (length v)) v)

unfoldable pub build_copy_options : Bytes → Bytes → ℕ → Bool → Bytes
build_copy_options access_key_id secret_access_key delimiter upsert =
    codes "access_key_id="
    ++ (access_key_id
        ++ (codes ",secret_access_key="
            ++ (secret_access_key
                ++ (codes ",format=csv,header=true,delimiter="
                    ++ (b'"' ∷ delimiter ∷ b'"' ∷ (if upsert then codes ",mode=upsert" else []))))))

length-shown :
    (v : Bytes) (k : ℕ)
    → k ≤ length v
    → length (take k v ++ (codes "***" ++ drop (length v - k) v)) ≡ k + 3 + k
length-shown v k h = omega (
  arith,
  length-append (take k v) (codes "***" ++ drop (length v - k) v),
  length-take k v,
  length-drop (length v - k) v,
)

-- The mask of a secret has at most nine characters. That of a secret of up to eight characters is the
-- same for all of them, and that of a longer one is shorter than the secret by two or more.
pub mask_secret_hides :
    (v : Bytes)
    → (length (mask_secret v) ≤ 9)
      × (length v ≤ 8 → mask_secret v ≡ codes "******")
      × (9 ≤ length v → length (mask_secret v) + 2 ≤ length v)
unfolding mask_secret
mask_secret_hides v = elim (Bool-cases (leb (length v) 8)) [
  | inl short ↦ rw short (omega arith, λ h. refl, λ h. absurd (ground arith))
  | inr long ↦
      let known = length-shown v (shown (length v)) (ground arith) in
      rw long (ground (arith, known), λ h. absurd (ground arith), λ h. ground (arith, known))
]
