-- ===== src/Tests/Toy.antt =====
-- Functions in place of the vHSM's libraries: a cipher that changes nothing, and a sharing of one
-- key.
use kms_platform.Common.{
  ℕ, zero, suc, ◌≡◌, refl, sym, ◌==◌, arith, String, Bool, true, false, ◌&&◌, List, [], ◌∷◌, Bytes,
  ok, err, none, length, if◌then◌else◌,
}
use kms_platform.Host.{Host}
use kms_platform.Host.Laws.{HasAead, HasSharing, HasScalars}

abbrev pub replicate : {A : Type 0} → ℕ → A → List A
replicate zero x = []
replicate (suc n) x = x ∷ replicate n x

pub length-replicate : {A : Type 0} (n : ℕ) (x : A) → length (replicate n x) ≡ n
length-replicate zero x = refl
length-replicate (suc n) x = omega (arith, length-replicate n x)

abbrev bytes_eq : Bytes → Bytes → Bool
bytes_eq [] [] = true
bytes_eq [] (y ∷ ys) = false
bytes_eq (x ∷ xs) [] = false
bytes_eq (x ∷ xs) (y ∷ ys) = x == y && bytes_eq xs ys

bytes_eq→eq : (xs ys : Bytes) → bytes_eq xs ys ≡ true → xs ≡ ys
bytes_eq→eq [] [] e = refl
bytes_eq→eq [] (y ∷ ys) e = absurd (ground arith)
bytes_eq→eq (x ∷ xs) [] e = absurd (ground arith)
bytes_eq→eq (x ∷ xs) (y ∷ ys) e = let rest = bytes_eq→eq xs ys in ground (arith, rest)

abbrev pub key : Bytes
key = replicate 32 7

abbrev pub toy : Host
toy = record {
  random = λ draw n. replicate n 7;
  aes_init = λ k. ok tt;
  aes_encrypt = λ k nonce plaintext. ok plaintext;
  aes_decrypt = λ k nonce ciphertext. ok ciphertext;
  gen_shares = λ call total threshold secret.
      if bytes_eq secret key then ok (replicate total "share") else err "another key";
  unlock = λ shares. ok key;
  certificate_from_params = λ call params. ok (record { pem = ok "PEM"; private_key_der = [] });
  from_pkcs8_der = λ der. ok key;
  public_point = λ k. 4 ∷ k;
  is_scalar = λ k. true;
  sign = λ k message. message;
  parse_pem = λ text. ok [];
  parse_csr = λ der. none;
  spki_der = λ point. point;
  tbs_der = λ tbs. tbs.serial;
  certificate_der = λ tbs signature. tbs;
  base64 = λ bytes. "base64";
  hex = λ bytes. "00";
}

pub toy-HasAead : HasAead toy
toy-HasAead = record {
  random_length = λ draw n. length-replicate n 7;
  open_sealed = λ k nonce plaintext ciphertext e. sym e;
}

pub toy-HasSharing : HasSharing toy
toy-HasSharing = record {
  shares_length =
      λ call total threshold secret shares e. shares_length call total threshold secret shares e;
  unlock_shares = λ call total threshold secret shares given e picked enough.
      unlock_shares call total threshold secret shares e;
}
  where
    shares_length :
        (call total threshold : ℕ) (secret : Bytes) (shares : List String)
        → toy.gen_shares call total threshold secret ≡ ok shares
        → length shares ≡ total
    shares_length call total threshold secret shares e =
        ground (arith, length-replicate {A = String} total "share")

    unlock_shares :
        (call total threshold : ℕ) (secret : Bytes) (shares : List String)
        → toy.gen_shares call total threshold secret ≡ ok shares
        → toy.unlock shares ≡ ok secret
    unlock_shares call total threshold secret shares e = ground (arith, bytes_eq→eq secret key)

pub toy-HasScalars : HasScalars toy
toy-HasScalars = record { scalar = λ der k e. scalar k e }
  where
    scalar : (k : Bytes) → toy.from_pkcs8_der [] ≡ ok k → (length k ≡ 32) × (toy.is_scalar k ≡ true)
    scalar k e = let same : k ≡ key = cc in (rw same refl, refl)
