-- ===== src/Tests/Containers.antt =====
-- Containers over a cipher that changes nothing and a text that counts.
use Prim.Native.Char.{code}
use Prim.Native.String.{[] as nil, ◌∷◌ as cons}
use kms_platform.Common.{
  ℕ, zero, suc, ◌==◌, ◌≡◌, refl, ap, String, [], ◌∷◌, Bytes, ok, err, if◌then◌else◌, arith,
}
use kms_platform.Sss.{invalid_input}
use kms_platform.Containers.{
  Crates, EncryptedContainer, encrypt_bytes_with_password, decrypt_bytes_with_password,
  decrypt_bytes_with_argon2_raw, generate_secure_secret,
}
use kms_platform.Containers.Opened.{HasCodecs, decrypt_bytes_with_password-encrypt}
use kms_platform.Tests.Toy.{replicate, length-replicate, toy, toy-HasAead}

abbrev counted : ℕ → String → String
counted zero s = cons "b" s
counted (suc n) s = cons "a" (counted n s)

abbrev text_of : Bytes → String
text_of [] = nil
text_of (n ∷ bytes) = counted n (text_of bytes)

abbrev one_more : Bytes → Bytes
one_more [] = []
one_more (n ∷ bytes) = suc n ∷ bytes

abbrev bytes_of : String → Bytes
bytes_of nil = []
bytes_of (cons c s) = let rest = bytes_of s in if code c == 97 then one_more rest else zero ∷ rest

bytes_of-counted : (n : ℕ) (s : String) → bytes_of (counted n s) ≡ n ∷ bytes_of s
bytes_of-counted zero s = refl
bytes_of-counted (suc n) s = ap one_more (bytes_of-counted n s)

bytes_of-text_of : (bytes : Bytes) → bytes_of (text_of bytes) ≡ bytes
bytes_of-text_of [] = refl
bytes_of-text_of (n ∷ bytes) = rw (bytes_of-counted n (text_of bytes), bytes_of-text_of bytes) refl

abbrev crates : Crates
crates = record {
  getrandom = λ call n. ok (replicate n 3);
  encode_b64 = λ bytes. ok "salt";
  generate_salt = λ call. "salt";
  as_bytes = λ text. 1 ∷ [];
  params = ok tt;
  hash_password_into = λ password salt. ok (replicate 32 9);
  hex_encode = text_of;
  hex_decode = λ text. ok (bytes_of text);
}

crates-HasCodecs : HasCodecs crates
crates-HasCodecs = record {
  length_random = λ call n bytes same.
      let filled : replicate n 3 ≡ bytes = ground (arith, same) in
      rw (← filled) (length-replicate n 3);
  read_back = λ bytes. ap ok (bytes_of-text_of bytes);
}

abbrev container : EncryptedContainer
container = record {
  salt = "salt";
  nonce = text_of (replicate 12 3);
  ciphertext = text_of (5 ∷ 6 ∷ []);
}

decrypt_bytes_with_password-encrypt_example :
    decrypt_bytes_with_password toy crates "password" container ≡ ok (5 ∷ 6 ∷ [])
unfolding encrypt_bytes_with_password
decrypt_bytes_with_password-encrypt_example =
    decrypt_bytes_with_password-encrypt toy crates toy-HasAead crates-HasCodecs 0 "password"
      (5 ∷ 6 ∷ []) container refl

containers_tests :
    (decrypt_bytes_with_argon2_raw toy crates "password" (replicate 28 0) ≡ ok [])
    × (generate_secure_secret toy crates 0 0
        ≡ err (invalid_input "Secret length must be greater than zero"))
    × (generate_secure_secret toy crates 0 2 ≡ ok (3 ∷ 3 ∷ []))
unfolding decrypt_bytes_with_argon2_raw generate_secure_secret
containers_tests = (refl, refl, refl)
