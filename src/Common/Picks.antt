-- ===== src/Common/Picks.antt =====
-- Taking elements out of a list at different positions, in any order.
use mathlib.Core.List.{List, [], ◌∷◌, map, Memᴰ}
use mathlib.Core.Path.{ap}
use mathlib.Core.Logic.{◌≢◌}
use Prim.Native.Nat.{ℕ}
use kms_platform.Common.Lists.{All}

-- `zs` is `ys` without one occurrence of `x`.
pub data Removes {ℓ} {A : Type ℓ} : A → List A → List A → Type ℓ where
  first : {x : A} {ys : List A} → Removes x (x ∷ ys) ys
  later : {x y : A} {ys zs : List A} → Removes x ys zs → Removes x (y ∷ ys) (y ∷ zs)

-- `xs` are elements of `ys` at different positions.
pub data Picks {ℓ} {A : Type ℓ} : List A → List A → Type ℓ where
  done : {ys : List A} → Picks [] ys
  pick : {x : A} {xs ys zs : List A} → Removes x ys zs → Picks xs zs → Picks (x ∷ xs) ys

pub All-Removes {ℓ κ} :
    {A : Type ℓ} (P : A → Type κ) {x : A} {ys zs : List A}
    → Removes x ys zs
    → All P ys
    → P x × All P zs
All-Removes P first a = a
All-Removes P (later r) a = let (p, rest) = All-Removes P r a.1 in (p, (a.0, rest))

module _ {ℓ κ} {A : Type ℓ} {B : Type κ} (f : A → B) where
  Removes-map : {x : A} {ys zs : List A} → Removes x ys zs → Removes (f x) (map f ys) (map f zs)
  Removes-map first = first
  Removes-map (later r) = later (Removes-map r)

  pub Picks-map : {xs ys : List A} → Picks xs ys → Picks (map f xs) (map f ys)
  Picks-map done = done
  Picks-map (pick r p) = pick (Removes-map r) (Picks-map p)

module _ {ℓ} {A : Type ℓ} where
  removes_of_mem : {x : A} {ys : List A} → Memᴰ x ys → (zs : List A) × Removes x ys zs
  removes_of_mem (Memᴰ.head {xs} e) = (xs, rw e first)
  removes_of_mem (Memᴰ.tail {x} m) = let (zs, r) = removes_of_mem m in (x ∷ zs, later r)

  mem_of_removes : {x y : A} {ys zs : List A} → Removes x ys zs → y ≢ x → Memᴰ y ys → Memᴰ y zs
  mem_of_removes first ne (Memᴰ.head e) = absurd (ne e)
  mem_of_removes first ne (Memᴰ.tail m) = m
  mem_of_removes (later r) ne (Memᴰ.head e) = Memᴰ.head e
  mem_of_removes (later r) ne (Memᴰ.tail m) = Memᴰ.tail (mem_of_removes r ne m)

module _ {ℓ} {A : Type ℓ} (label : A → ℕ) where
  -- No two elements have the same label.
  abbrev pub HasDistinct : List A → Type 0
  HasDistinct [] = Unit
  HasDistinct (x ∷ xs) = All (λ y. label y ≢ label x) xs × HasDistinct xs

  members_left :
      {x : A} {ys zs : List A} (xs : List A)
      → Removes x ys zs
      → All (λ y. label y ≢ label x) xs
      → All (λ y. Memᴰ y ys) xs
      → All (λ y. Memᴰ y zs) xs
  members_left [] r apart m = tt
  members_left (y ∷ xs) r apart m =
      (mem_of_removes r (λ e. apart.0 (ap label e)) m.0, members_left xs r apart.1 m.1)

  -- Members with different labels stand at different positions.
  pub Picks-of_HasDistinct :
      (xs ys : List A) → HasDistinct xs → All (λ x. Memᴰ x ys) xs → Picks xs ys
  Picks-of_HasDistinct [] ys d m = done
  Picks-of_HasDistinct (x ∷ xs) ys d m =
      let (zs, r) = removes_of_mem m.0 in
      pick r (Picks-of_HasDistinct xs zs d.1 (members_left xs r d.0 m.1))
