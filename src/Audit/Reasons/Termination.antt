-- ===== src/Audit/Reasons/Termination.antt =====
-- The loops of `sanitize_reason` end: a turn never looks again at what it wrote.
use Prim.Native.Char.{Char}
use kms_platform.Common.{
  ℕ, zero, suc, ◌+◌, ◌==◌, ◌≤◌, ◌<◌, ◌≡◌, refl, Bool, true, false, List, [], ◌∷◌, ◌++◌, take, drop,
  length, Option, none, some, All, arith, Bool-cases, Option-cases, inl, inr, ap, ◌∙◌, sym, subst,
}
use kms_platform.Audit.Reasons.{
  Chars, lower, to_ascii_lowercase, starts_with, find, replace_range, redacted, redact_first,
  redact_loop,
}

-- A pattern stands at the front of a text.
unfoldable pub stands_at : List ℕ → Chars → Bool
unfolding starts_with to_ascii_lowercase
stands_at p s = starts_with p (to_ascii_lowercase s)

-- A pattern stands nowhere in `w ++ u` before `u`.
abbrev pub Apart : List ℕ → Chars → Chars → Type 0
Apart p [] u = Unit
Apart p (c ∷ w) u = (stands_at p (c ∷ (w ++ u)) ≡ false) × Apart p w u

abbrev pub Plain : List ℕ → Type 0
Plain p = All (λ c. (c == 91) ≡ false) p

-- What the loops need of a pattern: it is not empty and has no opening bracket, and no part of the
-- replacement is the front of it.
pub record IsPattern (p : List ℕ) : Type 0 where
  pub size : ℕ
  pub size_of : length p ≡ suc size
  pub plain : Plain p
  pub apart : (u : Chars) → Apart p redacted u

abbrev pub prefixed : Char → Option Chars → Option Chars
prefixed c none = none
prefixed c (some s) = some (c ∷ s)

drop-suc : (n : ℕ) (c : Char) (s : Chars) {m : ℕ} → m ≡ suc n → drop m (c ∷ s) ≡ drop n s
drop-suc n c s e = rw e refl

replace_range-later :
    (pos n : ℕ) (text : Chars) (c : Char) (s : Chars)
    → replace_range (suc pos) (n + suc pos) text (c ∷ s) ≡ c ∷ replace_range pos (n + pos) text s
unfolding replace_range
replace_range-later pos n text c s =
    ap (λ rest. c ∷ (take pos s ++ (text ++ rest))) (drop-suc (n + pos) c s (omega arith))

module _ (p : List ℕ) where
  pub redact_first-here :
      (c : Char) (s : Chars)
      → stands_at p (c ∷ s) ≡ true
      → redact_first p (c ∷ s) ≡ some (redacted ++ drop (length p) (c ∷ s))
  unfolding redact_first find to_ascii_lowercase replace_range stands_at
  redact_first-here c s here = ground (arith, here)

  pub redact_first-later :
      (c : Char) (s : Chars)
      → stands_at p (c ∷ s) ≡ false
      → redact_first p (c ∷ s) ≡ prefixed c (redact_first p s)
  unfolding redact_first find to_ascii_lowercase replace_range stands_at
  redact_first-later c s later = elim (Option-cases (find p (to_ascii_lowercase s))) [
    | inl lost ↦ ground (arith, later, lost)
    | inr (pos, found) ↦
        ground (arith, later, found, replace_range-later pos (length p) redacted c s)
  ]

  no_bracket :
      (a : ℕ) (q : List ℕ) (u : Chars)
      → (a == 91) ≡ false
      → stands_at (a ∷ q) (redacted ++ u) ≡ true
      → ⊥
  unfolding stands_at to_ascii_lowercase lower
  no_bracket a q u plain stood = ground (arith, plain, stood)

  -- A pattern without a bracket that stands at the front after a turn stood there before.
  pub stands_at-redact_first :
      (q : List ℕ) (s replaced : Chars)
      → Plain q
      → redact_first p s ≡ some replaced
      → stands_at q replaced ≡ true
      → stands_at q s ≡ true
  unfolding stands_at to_ascii_lowercase redact_first find
  stands_at-redact_first [] s replaced plain done stood = refl
  stands_at-redact_first (a ∷ q) [] replaced plain done stood = absurd (ground (arith, done))
  stands_at-redact_first (a ∷ q) (c ∷ s) replaced plain done stood =
      elim (Bool-cases (stands_at p (c ∷ s))) [
        | inl here ↦
            let front = redact_first-here c s here in
            let e : redacted ++ drop (length p) (c ∷ s) ≡ replaced = ground (arith, front, done) in
            absurd (
              no_bracket a q (drop (length p) (c ∷ s)) plain.0
                (subst (λ x. stands_at (a ∷ q) x ≡ true) (sym e) stood))
        | inr later ↦ elim (Option-cases (redact_first p s)) [
          | inl lost ↦ absurd (ground (arith, redact_first-later c s later, lost, done))
          | inr (t, found) ↦
              let rest = stands_at-redact_first q s t plain.1 found in
              ground (arith, redact_first-later c s later, found, done, stood, rest)
        ]
      ]

  redact_loop-turn :
      (fuel : ℕ) (s replaced : Chars)
      → redact_first p s ≡ some replaced
      → redact_loop (suc fuel) p s ≡ redact_loop fuel p replaced
  unfolding redact_loop
  redact_loop-turn fuel s replaced turn = ground (arith, turn)

  redact_loop-skip :
      (fuel : ℕ) (c : Char) (s : Chars)
      → Plain p
      → stands_at p (c ∷ s) ≡ false
      → redact_loop fuel p (c ∷ s) ≡ prefixed c (redact_loop fuel p s)
  unfolding redact_loop
  redact_loop-skip zero c s plain apart = refl
  redact_loop-skip (suc fuel) c s plain apart =
      let later = redact_first-later c s apart in
      elim (Option-cases (redact_first p s)) [
        | inl lost ↦ ground (arith, later, lost)
        | inr (t, found) ↦
            let turn : redact_first p (c ∷ s) ≡ some (c ∷ t) = ground (arith, later, found) in
            elim (Bool-cases (stands_at p (c ∷ t))) [
              | inl stood ↦
                  let before = stands_at-redact_first p (c ∷ s) (c ∷ t) plain turn stood in
                  absurd (ground (arith, before, apart))
              | inr still ↦ ground (
                arith,
                redact_loop-turn fuel (c ∷ s) (c ∷ t) turn,
                redact_loop-turn fuel s t found,
                redact_loop-skip fuel c t plain still,
              )
            ]
      ]

  abbrev append : Chars → Option Chars → Option Chars
  append w none = none
  append w (some s) = some (w ++ s)

  redact_loop-Apart :
      (fuel : ℕ) (w u r : Chars)
      → Plain p
      → Apart p w u
      → redact_loop fuel p u ≡ some r
      → redact_loop fuel p (w ++ u) ≡ some (w ++ r)
  redact_loop-Apart fuel [] u r plain apart done = done
  redact_loop-Apart fuel (c ∷ w) u r plain (away, others) done =
      let rest = redact_loop-Apart fuel w u r plain others done in
      ground (arith, redact_loop-skip fuel c (w ++ u) plain away, rest)

  length-drop : (n : ℕ) (s : Chars) → length (drop n s) ≤ length s
  length-drop zero s = omega arith
  length-drop (suc n) [] = omega arith
  length-drop (suc n) (c ∷ s) = omega (arith, length-drop n s)

  -- More turns than characters are enough.
  pub redact_loop-total :
      (most fuel : ℕ) (s : Chars)
      → IsPattern p
      → length s ≤ most
      → length s < fuel
      → (r : Chars) × (redact_loop fuel p s ≡ some r)
  unfolding redact_loop
  redact_loop-total most zero s keyword short enough = absurd (omega (arith, enough))
  redact_loop-total most (suc fuel) [] keyword short enough = ([], refl)
  redact_loop-total zero (suc fuel) (c ∷ s) keyword short enough = absurd (omega (arith, short))
  redact_loop-total (suc most) (suc fuel) (c ∷ s) keyword short enough =
      elim (Bool-cases (stands_at p (c ∷ s))) [
        | inl here ↦
            let u = drop (length p) (c ∷ s) in
            let fewer : length u ≤ length s = rw (keyword.size_of) (length-drop keyword.size s) in
            let (r, done) =
              redact_loop-total most fuel u keyword (omega (arith, fewer, short))
                (omega (arith, fewer, enough)) in
            let whole = redact_loop-Apart fuel redacted u r keyword.plain (keyword.apart u) done in
            (
              redacted ++ r,
              redact_loop-turn fuel (c ∷ s) (redacted ++ u) (redact_first-here c s here) ∙ whole,
            )
        | inr away ↦
            let (r, done) =
              redact_loop-total most (suc fuel) s keyword (omega (arith, short))
                (omega (arith, enough)) in
            (c ∷ r, ground (arith, redact_loop-skip (suc fuel) c s keyword.plain away, done))
      ]
