-- ===== src/Sss/Laws.antt =====
-- Enough of the shares that `split_shares` makes give the secret back to `combine_shares`, in any
-- order.
use mathlib.Core.List.{Memᴰ}
use kms_platform.Common.{
  ℕ, ◌≡◌, ◌≤◌, refl, ap, subst, length-map, String, List, [], ◌∷◌, map, Bytes, ok, length, All,
  arith, trim, inl, inr, Result-cases, ◌+◌,
}
use kms_platform.Common.Picks.{HasDistinct, Picks, Picks-map, Picks-of_HasDistinct}
use kms_platform.Host.{Host}
use kms_platform.Host.Laws.{HasSharing}
use kms_platform.Sss.{SecretShare, number_shares, split_shares, combine_shares, to_pair, key_size}

abbrev value_of : ℕ × String → String
value_of s = s.1

values-number_shares :
    (idx : ℕ) (raw : List String)
    → map value_of (map to_pair (number_shares idx raw)) ≡ map trim raw
unfolding number_shares
values-number_shares idx [] = refl
values-number_shares idx (r ∷ raw) = ap (λ l. trim r ∷ l) (values-number_shares (idx + 1) raw)

-- A split that succeeds had a usable threshold and a key of the right size.
pub split_shares_valid :
    (h : Host) (call : ℕ) (secret : Bytes) (total threshold : ℕ) (shares : List (ℕ × String))
    → split_shares h call secret total threshold ≡ ok shares
    → (2 ≤ threshold) × (threshold ≤ total) × (length secret ≡ key_size)
unfolding split_shares
split_shares_valid h call secret total threshold shares e = ground arith

split_shares-eq_map :
    (h : Host) (call : ℕ) (secret : Bytes) (total threshold : ℕ) (shares : List (ℕ × String))
    → split_shares h call secret total threshold ≡ ok shares
    → (raw : List String) × (h.gen_shares call total threshold secret ≡ ok raw)
      × (shares ≡ map to_pair (number_shares 0 raw))
unfolding split_shares
split_shares-eq_map h call secret total threshold shares e =
    elim (Result-cases (h.gen_shares call total threshold secret)) [
      | inl (raw, made) ↦ (raw, made, ground arith)
      | inr (m, bad) ↦ absurd (ground arith)
    ]

pub combine_shares-eq-ok :
    (h : Host) (shares : List SecretShare) (secret : Bytes)
    → 2 ≤ length shares
    → length secret ≡ key_size
    → h.unlock (map (λ s. s.value) shares) ≡ ok secret
    → combine_shares h shares ≡ ok secret
unfolding combine_shares
combine_shares-eq-ok h (a ∷ b ∷ shares) secret many size found = ground arith
combine_shares-eq-ok h _ secret many size found = absurd (omega arith)

-- Shares of one split, at least as many as the threshold, with different indices, unlock its secret.
pub unlock-split_shares :
    (h : Host) (call : ℕ) (secret : Bytes) (total threshold : ℕ) (shares given : List (ℕ × String))
    → HasSharing h
    → split_shares h call secret total threshold ≡ ok shares
    → threshold ≤ length given
    → HasDistinct (λ s. s.0) given
    → All (λ s. Memᴰ s shares) given
    → h.unlock (map value_of given) ≡ ok secret
unlock-split_shares h call secret total threshold shares given law made enough distinct members =
    let (raw, generated, numbered) =
      split_shares-eq_map h call secret total threshold shares made in
    let picked =
      Picks-map value_of (Picks-of_HasDistinct (λ s. s.0) given shares distinct members) in
    let values : map value_of shares ≡ map trim raw = rw numbered (values-number_shares 0 raw) in
    law.unlock_shares call total threshold secret raw (map value_of given) generated
      (subst (Picks (map value_of given)) values picked) (rw length-map enough)
