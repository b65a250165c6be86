-- ===== src/Audit/Reasons/Redacted.antt =====
-- What `sanitize_reason` leaves of a reason.
use Prim.Native.Char.{Char, code}
use kms_platform.Common.{
  ℕ, zero, suc, ◌==◌, ◌≡◌, refl, Bool, true, false, not, ◌&&◌, ◌||◌, String, List, [], ◌∷◌, ◌++◌,
  map, drop, length, Option, none, some, All, All-map, is_empty, arith, Bool-cases, Option-cases,
  inl, inr, subst, ap, sym, str_eq, trim,
}
use kms_platform.Audit.Reasons.{
  Chars, chars, from_chars, lower, to_ascii_lowercase, starts_with, find, redacted, redact_first,
  redact_loop, redact_all, keywords, pattern, reason_of, sanitize_reason,
}
use kms_platform.Audit.Reasons.Termination.{
  stands_at, Apart, Plain, IsPattern, redact_first-here, redact_first-later, stands_at-redact_first,
  redact_loop-total,
}

-- Neither list is the front of the other, and where they part is not later than the shorter's end.
abbrev parts_from : List ℕ → Chars → Bool
parts_from [] w = false
parts_from (a ∷ p) [] = false
parts_from (a ∷ p) (c ∷ w) = not (a == lower (code c)) || parts_from p w

abbrev parts_from_each : List ℕ → Chars → Bool
parts_from_each p [] = true
parts_from_each p (c ∷ w) = parts_from p (c ∷ w) && parts_from_each p w

abbrev is_plain : List ℕ → Bool
is_plain [] = true
is_plain (a ∷ p) = not (a == 91) && is_plain p

abbrev is_pattern : List ℕ → Bool
is_pattern p = not (is_empty p) && (is_plain p && parts_from_each p redacted)

stands_at-parts_from :
    (p : List ℕ) (w u : Chars) → parts_from p w ≡ true → stands_at p (w ++ u) ≡ false
unfolding stands_at starts_with to_ascii_lowercase
stands_at-parts_from [] w u apart = absurd (ground arith)
stands_at-parts_from (a ∷ p) [] u apart = absurd (ground arith)
stands_at-parts_from (a ∷ p) (c ∷ w) u apart =
    let rest = stands_at-parts_from p w u in
    elim (Bool-cases (a == lower (code c))) [
      | inl same ↦ ground (arith, same, rest, apart)
      | inr other ↦ ground (arith, other)
    ]

Apart-parts_from_each : (p : List ℕ) (w u : Chars) → parts_from_each p w ≡ true → Apart p w u
Apart-parts_from_each p [] u apart = tt
Apart-parts_from_each p (c ∷ w) u apart = elim (Bool-cases (parts_from p (c ∷ w))) [
  | inl away ↦ (
    stands_at-parts_from p (c ∷ w) u away,
    Apart-parts_from_each p w u (ground (arith, away, apart)),
  )
  | inr same ↦ absurd (ground (arith, same, apart))
]

Plain-is_plain : (p : List ℕ) → is_plain p ≡ true → Plain p
Plain-is_plain [] plain = tt
Plain-is_plain (a ∷ p) plain = (ground arith, Plain-is_plain p (ground arith))

IsPattern-is_pattern : (p : List ℕ) → is_pattern p ≡ true → IsPattern p
IsPattern-is_pattern [] test = absurd (ground arith)
IsPattern-is_pattern (a ∷ p) test = record {
  size = length p;
  size_of = refl;
  plain = Plain-is_plain (a ∷ p) (ground arith);
  apart = λ u. Apart-parts_from_each (a ∷ p) redacted u (ground arith);
}

keywords-IsPattern : All IsPattern (map pattern keywords)
unfolding lower
keywords-IsPattern = All-map IsPattern-is_pattern (map pattern keywords) (
  refl,
  (refl, (refl, (refl, (refl, (refl, (refl, (refl, (refl, (refl, (refl, (refl, tt))))))))))),
)

-- The pattern stands nowhere in the text.
abbrev Lacks : List ℕ → Chars → Type 0
Lacks q s = redact_first q s ≡ none

module _ (q : List ℕ) where
  Lacks-cons : (c : Char) (s : Chars) → stands_at q (c ∷ s) ≡ false → Lacks q s → Lacks q (c ∷ s)
  Lacks-cons c s away lack = ground (arith, redact_first-later q c s away, lack)

  Lacks-uncons :
      (c : Char) (s : Chars) → Lacks q (c ∷ s) → (stands_at q (c ∷ s) ≡ false) × Lacks q s
  Lacks-uncons c s lack = elim (Bool-cases (stands_at q (c ∷ s))) [
    | inl here ↦ absurd (ground (arith, redact_first-here q c s here, lack))
    | inr away ↦ (away, ground (arith, redact_first-later q c s away, lack))
  ]

  Lacks-append : (w u : Chars) → Apart q w u → Lacks q u → Lacks q (w ++ u)
  Lacks-append [] u apart lack = lack
  Lacks-append (c ∷ w) u (away, others) lack =
      Lacks-cons c (w ++ u) away (Lacks-append w u others lack)

  Lacks-drop : (n : ℕ) (s : Chars) → Lacks q s → Lacks q (drop n s)
  Lacks-drop zero s lack = lack
  Lacks-drop (suc n) [] lack = lack
  Lacks-drop (suc n) (c ∷ s) lack = Lacks-drop n s (Lacks-uncons c s lack).1

  -- A turn for one pattern does not bring in another.
  Lacks-redact_first :
      (p : List ℕ) (s t : Chars) → IsPattern q → redact_first p s ≡ some t → Lacks q s → Lacks q t
  unfolding redact_first find
  Lacks-redact_first p [] t keyword turn lack = absurd (ground (arith, turn))
  Lacks-redact_first p (c ∷ s) t keyword turn lack = elim (Bool-cases (stands_at p (c ∷ s))) [
    | inl here ↦
        let u = drop (length p) (c ∷ s) in
        let e : redacted ++ u ≡ t = ground (arith, redact_first-here p c s here, turn) in
        subst (Lacks q) e
          (Lacks-append redacted u (keyword.apart u) (Lacks-drop (length p) (c ∷ s) lack))
    | inr away ↦ elim (Option-cases (redact_first p s)) [
      | inl lost ↦ absurd (ground (arith, redact_first-later p c s away, lost, turn))
      | inr (r, found) ↦
          let e : c ∷ r ≡ t = ground (arith, redact_first-later p c s away, found, turn) in
          let (apart, rest) = Lacks-uncons c s lack in
          let still : stands_at q (c ∷ r) ≡ false = elim (Bool-cases (stands_at q (c ∷ r))) [
            | inr off ↦ off
            | inl stood ↦
                let whole : redact_first p (c ∷ s) ≡ some (c ∷ r) =
                  ground (arith, redact_first-later p c s away, found) in
                let before = stands_at-redact_first p q (c ∷ s) (c ∷ r) keyword.plain whole stood in
                absurd (ground (arith, before, apart))
          ] in
          subst (Lacks q) e (Lacks-cons c r still (Lacks-redact_first p s r keyword found rest))
    ]
  ]

  Lacks-redact_loop :
      (fuel : ℕ) (p : List ℕ) (s r : Chars)
      → IsPattern q
      → redact_loop fuel p s ≡ some r
      → Lacks q s
      → Lacks q r
  unfolding redact_loop
  Lacks-redact_loop zero p s r keyword done lack = absurd (ground (arith, done))
  Lacks-redact_loop (suc fuel) p s r keyword done lack = elim (Option-cases (redact_first p s)) [
    | inl lost ↦ let e : s ≡ r = ground (arith, lost, done) in subst (Lacks q) e lack
    | inr (t, turn) ↦
        Lacks-redact_loop fuel p t r keyword (ground (arith, turn, done))
          (Lacks-redact_first p s t keyword turn lack)
  ]

  redact_loop-Lacks : (fuel : ℕ) (s r : Chars) → redact_loop fuel q s ≡ some r → Lacks q r
  unfolding redact_loop
  redact_loop-Lacks zero s r done = absurd (ground (arith, done))
  redact_loop-Lacks (suc fuel) s r done = elim (Option-cases (redact_first q s)) [
    | inl lost ↦ let e : s ≡ r = ground (arith, lost, done) in subst (Lacks q) e lost
    | inr (t, turn) ↦ redact_loop-Lacks fuel t r (ground (arith, turn, done))
  ]

  Lacks-redact_all :
      (ps : List (List ℕ)) (s r : Chars)
      → IsPattern q
      → redact_all ps s ≡ some r
      → Lacks q s
      → Lacks q r
  unfolding redact_all
  Lacks-redact_all [] s r keyword done lack =
      let e : s ≡ r = ground (arith, done) in subst (Lacks q) e lack
  Lacks-redact_all (p ∷ ps) s r keyword done lack =
      elim (Option-cases (redact_loop (suc (length s)) p s)) [
        | inl stuck ↦ absurd (ground (arith, stuck, done))
        | inr (t, over) ↦
            Lacks-redact_all ps t r keyword (ground (arith, over, done))
              (Lacks-redact_loop (suc (length s)) p s t keyword over lack)
      ]

redact_all-Lacks :
    (ps : List (List ℕ)) (s r : Chars)
    → All IsPattern ps
    → redact_all ps s ≡ some r
    → All (λ p. Lacks p r) ps
unfolding redact_all
redact_all-Lacks [] s r known done = tt
redact_all-Lacks (p ∷ ps) s r (keyword, others) done =
    elim (Option-cases (redact_loop (suc (length s)) p s)) [
      | inl stuck ↦ absurd (ground (arith, stuck, done))
      | inr (t, over) ↦
          let rest : redact_all ps t ≡ some r = ground (arith, over, done) in
          let own = redact_loop-Lacks p (suc (length s)) s t over in
          (Lacks-redact_all p ps t r keyword rest own, redact_all-Lacks ps t r others rest)
    ]

redact_all-total :
    (ps : List (List ℕ)) (s : Chars) → All IsPattern ps → (r : Chars) × (redact_all ps s ≡ some r)
unfolding redact_all
redact_all-total [] s known = (s, refl)
redact_all-total (p ∷ ps) s (keyword, others) =
    let (t, over) =
      redact_loop-total p (length s) (suc (length s)) s keyword (omega arith) (omega arith) in
    let (r, rest) = redact_all-total ps t others in (r, ground (arith, over, rest))

-- Every reason that a caller gives is redacted in finitely many turns: the inner loop makes for each
-- keyword at most as many replacements as its text has characters.
pub redact_all-ends :
    (reason : Chars) → (s : Chars) × (redact_all (map pattern keywords) reason ≡ some s)
redact_all-ends reason = redact_all-total (map pattern keywords) reason keywords-IsPattern

chars-from_chars : (s : Chars) → chars (from_chars s) ≡ s
chars-from_chars [] = refl
chars-from_chars (c ∷ s) = ap (λ t. c ∷ t) (chars-from_chars s)

Lacks-find : (q : List ℕ) (s : Chars) → Lacks q s → find q (to_ascii_lowercase s) ≡ none
unfolding redact_first
Lacks-find q s lack = elim (Option-cases (find q (to_ascii_lowercase s))) [
  | inl lost ↦ lost
  | inr (pos, found) ↦ absurd (ground (arith, found, lack))
]

reason_of-some :
    (left : Option Chars) (s : String) → reason_of left ≡ some s → left ≡ some (chars s)
reason_of-some none s e = absurd (ground (arith, e))
reason_of-some (some []) s e = absurd (ground (arith, e))
reason_of-some (some (c ∷ t)) s e =
    let same : from_chars (c ∷ t) ≡ s = cc in rw (← same) (ap some (sym (chars-from_chars (c ∷ t))))

-- A reason that comes out of `sanitize_reason` has none of the twelve keywords in it, in upper or
-- lower case.
pub sanitize_reason-find :
    (reason s : String)
    → sanitize_reason (some reason) ≡ some s
    → All (λ keyword. find (pattern keyword) (to_ascii_lowercase (chars s)) ≡ none) keywords
unfolding sanitize_reason
sanitize_reason-find reason s given =
    let left = redact_all (map pattern keywords) (chars reason) in
    let e : reason_of left ≡ some s = elim (Bool-cases (str_eq (trim reason) "")) [
      | inl blank ↦ absurd (ground (arith, blank, given))
      | inr text ↦ ground (arith, text, given)
    ] in
    let over = reason_of-some left s e in
    let lack =
      redact_all-Lacks (map pattern keywords) (chars reason) (chars s) keywords-IsPattern over in
    All-map (λ q. Lacks-find q (chars s)) (map pattern keywords) lack
