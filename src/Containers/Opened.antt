-- ===== src/Containers/Opened.antt =====
-- A container is opened with what it was made with.
use kms_platform.Common.{
  ℕ, ◌+◌, ◌≡◌, refl, String, Bytes, Result, ok, map_err, length, map_err-eq-ok, bind-eq-ok, arith,
  subst, sym, ap,
}
use kms_platform.Host.{Host}
use kms_platform.Host.Laws.{HasAead}
use kms_platform.Sss.{key_size}
use kms_platform.Containers.{
  Crates, EncryptedContainer, derive_key_with_salt, derive_key_from_password, seal,
  encrypt_bytes_with_password, open_container, decrypt_bytes_with_password, encrypt_storage_key,
  decrypt_storage_key,
}

-- The random source fills its buffer, and hexadecimal text is read back.
pub record HasCodecs (c : Crates) : Type 0 where
  pub length_random :
      (call n : ℕ) (bytes : Bytes) → c.getrandom call n ≡ ok bytes → length bytes ≡ n
  pub read_back : (bytes : Bytes) → c.hex_decode (c.hex_encode bytes) ≡ ok bytes

ok-eq : {A : Type 0} {a b : A} → ◌≡◌ {A = Result String A} (ok a) (ok b) → a ≡ b
ok-eq same = ground (arith, same)

module _ (h : Host) (c : Crates) (aead : HasAead h) (codecs : HasCodecs c) where
  -- The salt gives the same key again.
  derive_key_with_salt-from_password :
      (call : ℕ) (password : String) (derived : Bytes × String)
      → derive_key_from_password h c call password ≡ ok derived
      → derive_key_with_salt h c password derived.1 ≡ ok derived.0
  unfolding derive_key_from_password derive_key_with_salt
  derive_key_with_salt-from_password call password derived made =
      let (bytes, drawn, made1) = bind-eq-ok (map_err _ (c.getrandom call 16)) _ made in
      let (salt, encoded, made2) = bind-eq-ok (map_err _ (c.encode_b64 bytes)) _ made1 in
      let (u, ready, made3) = bind-eq-ok (map_err _ c.params) _ made2 in
      let (key, hashed, made4) =
        bind-eq-ok (map_err _ (c.hash_password_into (c.as_bytes password) (c.as_bytes salt))) _
          made3 in
      let known = map_err-eq-ok _ c.params ready in
      let keyed =
        map_err-eq-ok _ (c.hash_password_into (c.as_bytes password) (c.as_bytes salt)) hashed in
      subst (λ x. derive_key_with_salt h c password x.1 ≡ ok x.0) (ok-eq made4)
        (rw (known, keyed) refl)

  open_container-seal :
      (call : ℕ) (key : Bytes) (salt : String) (text : Bytes) (container : EncryptedContainer)
      → seal h c call key salt text ≡ ok container
      → (open_container h c key container ≡ ok text) × (container.salt ≡ salt)
  unfolding seal open_container
  open_container-seal call key salt text container made =
      let (u, ready, made1) = bind-eq-ok (h.aes_init key) _ made in
      let (nonce, drawn, made2) = bind-eq-ok (c.getrandom call 12) _ made1 in
      let (ciphertext, sealed, made3) = bind-eq-ok (h.aes_encrypt key nonce text) _ made2 in
      let twelve = codecs.length_random call 12 nonce drawn in
      let opened = aead.open_sealed key nonce text ciphertext sealed in
      let same : record {
        salt = salt;
        nonce = c.hex_encode nonce;
        ciphertext = c.hex_encode ciphertext;
      }
          ≡ container =
        ok-eq made3 in
      (
        subst (λ x. open_container h c key x ≡ ok text) same
            (rw (ready, codecs.read_back nonce, codecs.read_back ciphertext, twelve) opened),
        sym (ap (λ x. x.salt) same),
      )

  -- What is encrypted under a password is decrypted under it to the same bytes. The parameters: a
  -- cipher that opens what it sealed, a random source that fills its buffer, and hexadecimal text
  -- that is read back.
  pub decrypt_bytes_with_password-encrypt :
      (call : ℕ) (password : String) (plain : Bytes) (container : EncryptedContainer)
      → encrypt_bytes_with_password h c call password plain ≡ ok container
      → decrypt_bytes_with_password h c password container ≡ ok plain
  unfolding encrypt_bytes_with_password decrypt_bytes_with_password
  decrypt_bytes_with_password-encrypt call password plain container made =
      let (derived, by, sealed) = bind-eq-ok (derive_key_from_password h c call password) _ made in
      let (opened, salted) =
        open_container-seal (call + 1) derived.0 derived.1 plain container sealed in
      rw (salted, derive_key_with_salt-from_password call password derived by) opened

  -- A storage key of 32 bytes is recovered with the master key that sealed it.
  decrypt_storage_key-encrypt_storage_key :
      (call : ℕ) (master_key storage_key : Bytes) (container : EncryptedContainer)
      → length storage_key ≡ key_size
      → encrypt_storage_key h c call master_key storage_key ≡ ok container
      → decrypt_storage_key h c master_key container ≡ ok storage_key
  unfolding encrypt_storage_key decrypt_storage_key
  decrypt_storage_key-encrypt_storage_key call master_key storage_key container whole made =
      rw
        (
          (open_container-seal (call + 1) master_key (c.generate_salt call) storage_key container
              made).0,
          whole,
        )
        refl
