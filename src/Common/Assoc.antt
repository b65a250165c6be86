-- ===== src/Common/Assoc.antt =====
-- `HashMap<String, V>` as an association list: the program never depends on the order of iteration,
-- where it iterates at all.
use kms_platform.Common.Tests.{if◌then◌else◌, Bool-cases}
use kms_platform.Common.Text.{str_eq, eq_iff}
use Prim.Native.String.{String}
use mathlib.Core.Path.{◌≡◌, refl}
use mathlib.Core.Bool.{Bool, true}
use mathlib.Core.Logic.{inl, inr}
use mathlib.Core.Option.{Option, none, some}
use mathlib.Core.List.{List, [], ◌∷◌}
use native.Mathlib.Omega.{arith}

abbrev pub Assoc {ℓ} : Type ℓ → Type ℓ
Assoc V = List (String × V)

module _ {ℓ} {V : Type ℓ} where
  -- `m.get(key)`
  unfoldable pub lookup : String → Assoc V → Option V
  lookup key [] = none
  lookup key (entry ∷ others) =
      let deeper = lookup key others in if str_eq entry.0 key then some entry.1 else deeper

  -- `m.insert(key, value)`: an entry of the same key is replaced.
  unfoldable pub insert : String → V → Assoc V → Assoc V
  insert key value [] = (key, value) ∷ []
  insert key value (entry ∷ others) =
      let deeper = insert key value others in
      if str_eq entry.0 key then (key, value) ∷ others else entry ∷ deeper

  -- `m.retain(|_, v| p(v))`
  unfoldable pub retain : (V → Bool) → Assoc V → Assoc V
  retain p [] = []
  retain p ((j, v) ∷ m) = let rest = retain p m in if p v then (j, v) ∷ rest else rest

  pub lookup-retain :
      (p : V → Bool) (k : String) (v : V) (m : Assoc V)
      → lookup k m ≡ some v
      → p v ≡ true
      → lookup k (retain p m) ≡ some v
  unfolding lookup retain
  lookup-retain p k v [] found kept = absurd (ground arith)
  lookup-retain p k v ((j, w) ∷ m) found kept = elim (Bool-cases (str_eq j k)) [
    | inl same ↦ ground (arith, same)
    | inr other ↦ ground (arith, other, lookup-retain p k v m)
  ]

  pub lookup-insert :
      (written asked : String) (value : V) (entries : Assoc V)
      → lookup asked (insert written value entries)
        ≡ (if str_eq written asked then some value else lookup asked entries)
  unfolding lookup insert
  lookup-insert written asked value [] = refl
  lookup-insert written asked value (entry ∷ others) =
      let deeper = lookup-insert written asked value others in
      elim (Bool-cases (str_eq entry.0 written)) [
        | inl hit ↦ ground (arith, hit, (eq_iff entry.0 written).0 hit)
        | inr miss ↦ ground (
          arith,
          miss,
          deeper,
          eq_iff entry.0 written,
          eq_iff entry.0 asked,
          eq_iff written asked,
        )
      ]
