-- ===== src/Vhsm/Crypto/Laws.antt =====
-- What is encrypted under a key decrypts under it, and a duplicate index is found.
use kms_platform.Common.{
  ℕ, ◌≡◌, ◌≢◌, ◌↔◌, refl, false, none, List, [], ◌∷◌, ◌++◌, Bytes, ok, length, length-append,
  take-append, drop-append, arith, All, Result-cases, Bool-cases, inl, inr, ltb,
}
use kms_platform.Common.Picks.{HasDistinct}
use kms_platform.Host.{Host}
use kms_platform.Host.Laws.{HasAead}
use kms_platform.Vhsm.Protocol.{Share}
use kms_platform.Vhsm.Crypto.{encrypt_bytes, decrypt_bytes, nonce_size, has_seen, duplicate_index}

module _ (h : Host) (laws : HasAead h) where
  decrypt_bytes-sealed :
      (draw : ℕ) (key plaintext ciphertext : Bytes)
      → h.aes_init key ≡ ok tt
      → h.aes_encrypt key (h.random draw nonce_size) plaintext ≡ ok ciphertext
      → decrypt_bytes h key (h.random draw nonce_size ++ ciphertext) ≡ ok plaintext
  unfolding decrypt_bytes
  decrypt_bytes-sealed draw key plaintext ciphertext ready sealed =
      let nonce = h.random draw nonce_size in
      let size : length nonce ≡ nonce_size = laws.random_length draw nonce_size in
      let long : ltb (length (nonce ++ ciphertext)) nonce_size ≡ false =
        ground (arith, length-append nonce ciphertext) in
      rw (
        long,
        take-append nonce_size nonce ciphertext size,
        drop-append nonce_size nonce ciphertext size,
        ready,
        laws.open_sealed key nonce plaintext ciphertext sealed,
      )

  -- A payload that `encrypt_bytes` has made opens under the same key to the plaintext, if the
  -- cipher decrypts what it has encrypted.
  pub decrypt_bytes-encrypt_bytes :
      (draw : ℕ) (key plaintext payload : Bytes)
      → encrypt_bytes h draw key plaintext ≡ ok payload
      → decrypt_bytes h key payload ≡ ok plaintext
  unfolding encrypt_bytes
  decrypt_bytes-encrypt_bytes draw key plaintext payload e = elim (Result-cases (h.aes_init key)) [
    | inr (m, bad) ↦ absurd (ground arith)
    | inl (_, ready) ↦
        elim (Result-cases (h.aes_encrypt key (h.random draw nonce_size) plaintext)) [
          | inr (m, bad) ↦ absurd (ground arith)
          | inl (ciphertext, sealed) ↦
              let whole : h.random draw nonce_size ++ ciphertext ≡ payload = ground arith in
              rw (← whole) (decrypt_bytes-sealed draw key plaintext ciphertext ready sealed)
        ]
  ]

abbrev IsUnseen : List ℕ → List Share → Type 0
IsUnseen seen shares = All (λ t. has_seen t.0 seen ≡ false) shares

IsUnseen-nil : (shares : List Share) → IsUnseen [] shares
unfolding has_seen
IsUnseen-nil [] = tt
IsUnseen-nil (s ∷ rest) = (refl, IsUnseen-nil rest)

IsUnseen-cons_iff :
    (i : ℕ) (seen : List ℕ) (shares : List Share)
    → IsUnseen (i ∷ seen) shares ↔ (All (λ t. t.0 ≢ i) shares × IsUnseen seen shares)
unfolding has_seen
IsUnseen-cons_iff i seen [] = (λ u. (tt, tt), λ u. tt)
IsUnseen-cons_iff i seen (s ∷ rest) =
    let (to, from) = IsUnseen-cons_iff i seen rest in
    (
      (λ u. let (apart, unseen) = to u.1 in ((ground arith, apart), (ground arith, unseen))),
      (λ u. (ground arith, from (u.0.1, u.1.1))),
    )

duplicate_index_iff_from :
    (seen : List ℕ) (shares : List Share)
    → (duplicate_index seen shares ≡ none) ↔ (IsUnseen seen shares × HasDistinct (λ s. s.0) shares)
unfolding duplicate_index
duplicate_index_iff_from seen [] = (λ e. (tt, tt), λ u. refl)
duplicate_index_iff_from seen ((i, v) ∷ rest) =
    let (to, from) = duplicate_index_iff_from (i ∷ seen) rest in
    let split = IsUnseen-cons_iff i seen rest in
    elim (Bool-cases (has_seen i seen)) [
      | inl old ↦ ((λ e. absurd (ground arith)), (λ u. absurd (ground arith)))
      | inr new ↦ (
        (λ e.
            let (unseen, distinct) = to (ground arith) in
            let (apart, unseen') = split.0 unseen in ((new, unseen'), (apart, distinct))),
        (λ u. rw (new, from (split.1 (u.1.0, u.0.1), u.1.1))),
      )
    ]

-- The check for a duplicate share index finds nothing exactly when all indices are different.
pub duplicate_index_iff :
    (shares : List Share) → (duplicate_index [] shares ≡ none) ↔ HasDistinct (λ s. s.0) shares
duplicate_index_iff shares =
    let (to, from) = duplicate_index_iff_from [] shares in
    (λ e. (to e).1, λ d. from (IsUnseen-nil shares, d))
