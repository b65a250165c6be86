-- ===== src/Service/RateLimiter/Laws.antt =====
-- The rate limiter keeps to its limit in every window of time.
use kms_platform.Common.{
  ℕ, ◌≡◌, ◌≤◌, ◌<◌, ◌+◌, ◌-◌, refl, String, true, false, ◌&&◌, List, [], ◌∷◌, ◌++◌, length,
  length-append, lt_or_le, filter, leb, if◌then◌else◌, arith, str_eq, eq_iff, eq_refl, Bool-cases,
  inl, inr,
}
use kms_platform.Common.Assoc.{Assoc, insert, lookup-insert}
use kms_platform.Service.RateLimiter.{duration, entries, check}

-- How many of the instants lie in the window that starts at `from`.
abbrev pub count : ℕ → ℕ → List ℕ → ℕ
count from window [] = 0
count from window (t ∷ ts) =
    let rest = count from window ts in
    if leb from t && leb t (from + window) then rest + 1 else rest

-- The calls of `check` come at these instants, in this order, for these keys.
abbrev pub IsOrdered : ℕ → List (ℕ × String) → Type 0
IsOrdered last [] = Unit
IsOrdered last ((now, key) ∷ calls) = (last ≤ now) × IsOrdered now calls

-- The instants at which `key` was allowed.
unfoldable pub admitted : String → ℕ → ℕ → List (ℕ × String) → Assoc (List ℕ) → List ℕ
unfolding check
admitted key limit window_sec [] buckets = []
admitted key limit window_sec ((now, k) ∷ calls) buckets =
    let rest = admitted key limit window_sec calls (check now k limit window_sec buckets).1 in
    if str_eq k key && (check now k limit window_sec buckets).0.allowed then now ∷ rest else rest

count-append :
    (from window : ℕ) (ts us : List ℕ)
    → count from window (ts ++ us) ≡ count from window ts + count from window us
count-append from window [] us = omega arith
count-append from window (t ∷ ts) us = ground (arith, count-append from window ts us)

count-length : (from window : ℕ) (ts : List ℕ) → count from window ts ≤ length ts
count-length from window [] = omega arith
count-length from window (t ∷ ts) = ground (arith, count-length from window ts)

-- What is older than the window before `now` is in no window that reaches `now`.
count-filter :
    (from now window : ℕ) (ts : List ℕ)
    → now ≤ from + window
    → count from window (filter (λ t. leb (now - t) window) ts) ≡ count from window ts
count-filter from now window [] reach = refl
count-filter from now window (t ∷ ts) reach = ground (arith, count-filter from now window ts reach)

entries-insert :
    (key k : String) (instants : List ℕ) (buckets : Assoc (List ℕ))
    → entries key (insert k instants buckets)
      ≡ (if str_eq k key then instants else entries key buckets)
unfolding entries
entries-insert key k instants buckets = elim (Bool-cases (str_eq k key)) [
  | inl same ↦ ground (arith, same, lookup-insert k key instants buckets)
  | inr other ↦ ground (arith, other, lookup-insert k key instants buckets)
]

module _ (key : String) (limit window_sec : ℕ) where
  kept : ℕ → Assoc (List ℕ) → List ℕ
  kept now buckets = filter (λ t. leb (now - t) (duration window_sec)) (entries key buckets)

  -- A call for another key changes nothing for this one.
  check-other :
      (now : ℕ) (k : String) (buckets : Assoc (List ℕ))
      → str_eq k key ≡ false
      → entries key (check now k limit window_sec buckets).1 ≡ entries key buckets
  unfolding check
  check-other now k buckets other =
      let es = filter (λ t. leb (now - t) (duration window_sec)) (entries k buckets) in
      ground
        (arith, entries-insert key k (es ++ (now ∷ [])) buckets, entries-insert key k es buckets)

  check-allowed :
      (now : ℕ) (buckets : Assoc (List ℕ))
      → length (kept now buckets) < limit
      → ((check now key limit window_sec buckets).0.allowed ≡ true)
        × (entries key (check now key limit window_sec buckets).1 ≡ kept now buckets ++ (now ∷ []))
  unfolding check kept
  check-allowed now buckets room = (
    ground arith,
    ground (arith, eq_refl key, entries-insert key key (kept now buckets ++ (now ∷ [])) buckets),
  )

  check-refused :
      (now : ℕ) (buckets : Assoc (List ℕ))
      → limit ≤ length (kept now buckets)
      → ((check now key limit window_sec buckets).0.allowed ≡ false)
        × (entries key (check now key limit window_sec buckets).1 ≡ kept now buckets)
  unfolding check kept
  check-refused now buckets full =
      (ground arith, ground (arith, eq_refl key, entries-insert key key (kept now buckets) buckets))

  -- After the end of a window nothing is admitted into it.
  count-admitted_late :
      (from last : ℕ) (calls : List (ℕ × String)) (buckets : Assoc (List ℕ))
      → IsOrdered last calls
      → from + duration window_sec < last
      → count from (duration window_sec) (admitted key limit window_sec calls buckets) ≡ 0
  unfolding admitted
  count-admitted_late from last [] buckets o late = refl
  count-admitted_late from last ((now, k) ∷ calls) buckets o late =
      ground
        (arith, count-admitted_late from now calls (check now k limit window_sec buckets).1 o.1)

  length-filter :
      (now : ℕ) (ts : List ℕ)
      → length (filter (λ t. leb (now - t) (duration window_sec)) ts) ≤ length ts
  length-filter now [] = omega arith
  length-filter now (t ∷ ts) = ground (arith, length-filter now ts)

  -- One call for `key`, given the bound on what follows it.
  count-admitted_step :
      (from now : ℕ) (calls : List (ℕ × String)) (buckets : Assoc (List ℕ))
      → length (entries key buckets) ≤ limit
      → let after = (check now key limit window_sec buckets).1 in
        let later = count from (duration window_sec) (admitted key limit window_sec calls after) in
        (length (entries key after) ≤ limit
          → count from (duration window_sec) (entries key after) + later ≤ limit)
        → (from + duration window_sec < now → later ≡ 0)
        → count from (duration window_sec) (entries key buckets)
            + count from
                (duration window_sec)
                (admitted key limit window_sec ((now, key) ∷ calls) buckets)
          ≤ limit
  unfolding admitted kept
  count-admitted_step from now calls buckets small more late =
      let window = duration window_sec in
      let held = entries key buckets in
      let at = count-filter from now window held in
      let short = length-filter now held in
      let sized = count-length from window held in
      let joined = count-append from window (kept now buckets) (now ∷ []) in
      let sum = length-append (kept now buckets) (now ∷ []) in
      elim (lt_or_le (length (kept now buckets)) limit) [
        | inl room ↦
            let (allow, next) = check-allowed now buckets room in
            ground (arith, eq_refl key, allow, next, more, late, at, joined, sum, short, sized)
        | inr full ↦
            let (refuse, next) = check-refused now buckets full in
            ground (arith, eq_refl key, refuse, next, more, late, at, short, sized)
      ]

  -- The instants that are remembered and those that will be admitted, together.
  count-admitted :
      (from last : ℕ) (calls : List (ℕ × String)) (buckets : Assoc (List ℕ))
      → IsOrdered last calls
      → length (entries key buckets) ≤ limit
      → count from (duration window_sec) (entries key buckets)
          + count from (duration window_sec) (admitted key limit window_sec calls buckets)
        ≤ limit
  unfolding admitted kept
  count-admitted from last [] buckets o small =
      ground (arith, count-length from (duration window_sec) (entries key buckets))
  count-admitted from last ((now, k) ∷ calls) buckets o small =
      let after = (check now k limit window_sec buckets).1 in
      elim (Bool-cases (str_eq k key)) [
        | inr other ↦
            let unchanged = check-other now k buckets other in
            let more = count-admitted from now calls after o.1 (rw unchanged small) in
            ground (arith, unchanged, more)
        | inl same ↦ rw ((eq_iff k key).0 same) (
            count-admitted_step from now calls buckets small
              (λ short.
                count-admitted from now calls (check now key limit window_sec buckets).1 o.1 short)
              (λ late.
                count-admitted_late from now calls (check now key limit window_sec buckets).1 o.1
                  late))
      ]

-- Whatever the calls are that come one after the other, no window of the configured length has more
-- calls admitted for a key than the limit.
pub check_keeps_limit :
    (key : String) (limit window_sec from last : ℕ) (calls : List (ℕ × String))
    → IsOrdered last calls
    → count from (duration window_sec) (admitted key limit window_sec calls []) ≤ limit
unfolding entries
check_keeps_limit key limit window_sec from last calls o =
    omega (arith, count-admitted key limit window_sec from last calls [] o (omega arith))
