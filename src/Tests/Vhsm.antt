-- ===== src/Tests/Vhsm.antt =====
-- The vHSM with concrete libraries: a ceremony, keys, certificates and interleaved requests.
use mathlib.Core.List.{Memᴰ}
use kms_platform.Common.{
  inl, ℕ, ◌≡◌, refl, ◌⊎◌, true, List, [], ◌∷◌, Bytes, some, none, ok, length, arith, All, ◌≤◌, ◌<◌,
  ◌++◌, trim,
}
use kms_platform.Common.Picks.{HasDistinct}
use kms_platform.Sss.{split_shares, number_shares, combine_shares}
use kms_platform.Vhsm.Protocol.{
  ping, Share, generate_ceremony, init_master_key, generate_kek, generate_data_key, encrypt,
  decrypt, decrypted, load_root_ca, sign_with_ca_key, master_key_initialized, signature,
  ceremony_generated, error,
}
use kms_platform.Vhsm.State.{VhsmState, new}
use kms_platform.Vhsm.Crypto.{
  encrypt_bytes, decrypt_bytes, generate_and_split_master_key, reconstruct_master_key,
}
use kms_platform.Vhsm.Certificate.{build_root_ca_certificate_pem}
use kms_platform.Vhsm.Handler.{Env, ceremony, answered, handle_request, serve, start}
use kms_platform.Vhsm.Tasks.{World, boot, arrive, Reach, here, next, begin}
use kms_platform.Vhsm.Tasks.Invariant.{IsSound, IsConsistent, Reach-IsSound}
use kms_platform.Vhsm.Tasks.Race.{ceremonies_race}
use kms_platform.Vhsm.Unseal.{unseal_restores}
use kms_platform.Vhsm.Access.{
  error_changes_nothing, IsErrorCode, locked_answers_keyless, answers_keyless, unlocked_only_by,
}
use kms_platform.Vhsm.Secrets.{decrypt-encrypt}
use kms_platform.Vhsm.DataKeys.{IsServed, data_key_opens, kek_serves_data_keys}
use kms_platform.Vhsm.Chain.{chain_signs_with_certified_key}
use kms_platform.Tests.Toy.{toy, toy-HasAead, toy-HasSharing, toy-HasScalars, key, replicate}

abbrev at : ℕ → Env
at n = record { draw = n; now = 1700000000 }

abbrev unlocked : VhsmState
unlocked = record {
  initialized = true;
  active_key_version = 1;
  master_key = some key;
  unseal_started_at = none;
  active_ca_keys = [];
}

abbrev shares : List Share
shares = (1, "share") ∷ (2, "share") ∷ (3, "share") ∷ []

abbrev given : List Share
given = (3, "share") ∷ (1, "share") ∷ []

abbrev sealed_of : Bytes → Bytes
sealed_of plaintext = replicate 12 7 ++ plaintext

given-IsMember : All (λ s. Memᴰ s shares) given
given-IsMember = (Memᴰ.tail (Memᴰ.tail (Memᴰ.head refl)), (Memᴰ.head refl, tt))

given-HasDistinct : HasDistinct (λ s. s.0) given
given-HasDistinct = ((λ e. absurd (omega arith), tt), (tt, tt))

-- A ceremony has made its key and its shares, and waits for the state's lock.
abbrev in_ceremony : World
in_ceremony = record { state = new; waiting = ceremony key shares ∷ []; answers = [] }

Reach-IsSound_example : IsSound in_ceremony
unfolding arrive start generate_and_split_master_key split_shares number_shares trim
Reach-IsSound_example =
    Reach-IsSound toy {w = in_ceremony} (next here (begin boot (at 0) (generate_ceremony 2 3)))

unseal_restores_example :
    ((handle_request toy (at 9) (init_master_key 1 given) new).0 ≡ answered master_key_initialized)
    × ((handle_request toy (at 9) (init_master_key 1 given) new).1.master_key
        ≡ (handle_request toy (at 0) (generate_ceremony 2 3) new).1.master_key)
unfolding handle_request generate_and_split_master_key split_shares number_shares trim
unseal_restores_example =
    unseal_restores toy (at 0) (at 9) 2 3 1 new new shares given toy-HasSharing refl (omega arith)
      given-HasDistinct given-IsMember (omega arith) (omega arith)

decrypt-encrypt_example :
    (handle_request toy (at 1) (decrypt "master_key" (some 1) (sealed_of (5 ∷ []))) (
      serve toy
        ((at 1, generate_kek "AES256GCM") ∷ [])
        (handle_request toy (at 0) (encrypt "master_key" none (5 ∷ [])) unlocked).1)).0
    ≡ answered (decrypted (5 ∷ []) 1)
unfolding handle_request encrypt_bytes
decrypt-encrypt_example =
    decrypt-encrypt toy (at 0) (at 1) "master_key" none (5 ∷ []) (sealed_of (5 ∷ [])) 1 unlocked
      ((at 1, generate_kek "AES256GCM") ∷ []) toy-HasAead refl (refl, tt) refl

chain_signs_with_certified_key_example :
    (k : Bytes) × (4 ∷ key ≡ 4 ∷ k)
    × ((handle_request toy (at 6) (load_root_ca "root" (sealed_of key)) unlocked).0
        ≡ answered master_key_initialized)
    × ((handle_request toy
          (at 7)
          (sign_with_ca_key "root" "ECDSA_P256" (1 ∷ []))
          (handle_request toy (at 6) (load_root_ca "root" (sealed_of key)) unlocked).1).0
        ≡ answered (signature (1 ∷ [])))
unfolding handle_request build_root_ca_certificate_pem encrypt_bytes trim decrypt_bytes serve
chain_signs_with_certified_key_example =
    chain_signs_with_certified_key toy (at 0) (at 6) (at 7) "root" "root" "ca" "ECDSA_P256"
      "ECDSA_P256" 365 1 (sealed_of key) (4 ∷ key) (1 ∷ []) (some "PEM") unlocked [] toy-HasAead
      toy-HasScalars refl tt refl

kek_serves_data_keys_example :
    IsServed toy
      (at 3)
      key
      1
      (handle_request toy (at 3) (generate_data_key (sealed_of key) none " AES256GCM") (
        serve toy
          ((at 2, ping) ∷ [])
          (handle_request toy (at 0) (generate_kek "AES256GCM") unlocked).1)).0
unfolding handle_request encrypt_bytes trim
kek_serves_data_keys_example =
    kek_serves_data_keys toy (at 0) (at 3) "AES256GCM" " AES256GCM" "AES256GCM" none (sealed_of key)
      1 1 unlocked ((at 2, ping) ∷ []) toy-HasAead refl (refl, tt) refl refl (inl refl)

data_key_opens_example :
    (root : Bytes) × (kek : Bytes) × (some key ≡ some root)
    × (decrypt_bytes toy root (sealed_of key) ≡ ok kek)
    × (decrypt_bytes toy kek (sealed_of key) ≡ ok key)
    × (◌≡◌ {A = ℕ} 1 1)
    × (1 ≡ unlocked.active_key_version)
unfolding handle_request encrypt_bytes decrypt_bytes trim
data_key_opens_example =
    data_key_opens toy (at 0) (sealed_of key) key (sealed_of key) none "AES256GCM" 1 1 unlocked
      toy-HasAead refl

error_changes_nothing_example :
    ((handle_request toy (at 0) (generate_ceremony 2 3) unlocked).1 ≡ unlocked) × IsErrorCode 400
unfolding handle_request
error_changes_nothing_example =
    error_changes_nothing toy (at 0) (generate_ceremony 2 3) unlocked 400
      "vHSM is already initialized. Reset required to re-run ceremony." refl

new-IsConsistent : IsConsistent new
new-IsConsistent = record { flag = refl; version = refl; sealed = λ _. refl }

locked_answers_keyless_example :
    (answers_keyless (handle_request toy (at 0) (generate_ceremony 2 3) new).0 ≡ true)
    ⊎ ((t : ℕ) × (n : ℕ) × (made : Bytes) × (parts : List Share) × (generate_ceremony 2 3
          ≡ generate_ceremony t n)
        × (generate_and_split_master_key toy 0 n t ≡ ok (made, parts))
        × ((handle_request toy (at 0) (generate_ceremony 2 3) new).0
            ≡ answered (ceremony_generated parts)))
unfolding handle_request
locked_answers_keyless_example =
    locked_answers_keyless toy (at 0) (generate_ceremony 2 3) new new-IsConsistent refl

unlocked_only_by_example :
    ((t : ℕ) × (n : ℕ) × (made : List Share) × (init_master_key 2 given ≡ generate_ceremony t n)
      × (generate_and_split_master_key toy 0 n t ≡ ok (key, made))
      × ((handle_request toy (at 0) (init_master_key 2 given) new).0
          ≡ answered (ceremony_generated made)))
    ⊎ ((t : ℕ) × (held : List Share) × (init_master_key 2 given ≡ init_master_key t held)
        × (0 < t)
        × (t ≤ length held)
        × (reconstruct_master_key toy held ≡ ok key))
unfolding handle_request reconstruct_master_key combine_shares
unlocked_only_by_example =
    unlocked_only_by toy (at 0) (init_master_key 2 given) new key new-IsConsistent refl refl

ceremonies_race_example :
    ((w : World) × Reach toy boot w
      × (w.answers
          ≡ answered (ceremony_generated shares) ∷ answered (ceremony_generated shares) ∷ [])
      × (w.state.master_key ≡ some key))
    × ((handle_request toy
          (at 9)
          (generate_ceremony 2 3)
          (handle_request toy (at 0) (generate_ceremony 2 3) new).1).0
        ≡ answered (error 400 "vHSM is already initialized. Reset required to re-run ceremony."))
unfolding handle_request generate_and_split_master_key split_shares number_shares trim
ceremonies_race_example = ceremonies_race toy (at 0) (at 9) 2 3 2 3 key key shares shares refl refl
