-- ===== src/Audit/Details/Secrets.antt =====
-- Nothing under a secret's name is left in the details of an entry.
use Prim.Native.String.{[] as nil, ◌∷◌ as cons, ◌++◌}
use text.Mathlib.TextLemmas.{nil-append, cons-append}
use kms_platform.Common.{
  ℕ, ◌≡◌, refl, true, String, List, [], ◌∷◌, ◌++◌ as cat, some, str_eq, arith, Bool-cases, inl, inr,
}
use kms_platform.Audit.Reasons.{chars, pattern, find, next, starts_with, to_ascii_lowercase}
use kms_platform.Audit.Details.{
  Value, null, boolean, number, string, array, object, Values, no_values, value_and, Members,
  no_members, member, str_less, insert_field, redacted_key, found, is_secret, canonicalize_value,
  canonicalize_items, canonicalize_fields,
}

-- No value but the replacement stands in it.
mutual
  pub IsRedacted : Value → Type 0
  IsRedacted null = ⊥
  IsRedacted (boolean b) = ⊥
  IsRedacted (number n) = ⊥
  IsRedacted (string s) = s ≡ "[REDACTED]"
  IsRedacted (array items) = AreRedacted items
  IsRedacted (object fields) = HaveRedacted fields

  pub AreRedacted : Values → Type 0
  AreRedacted no_values = Unit
  AreRedacted (value_and value items) = IsRedacted value × AreRedacted items

  pub HaveRedacted : Members → Type 0
  HaveRedacted no_members = Unit
  HaveRedacted (member key value fields) = IsRedacted value × HaveRedacted fields

starts_with-append : (p a b : List ℕ) → starts_with p a ≡ true → starts_with p (cat a b) ≡ true
unfolding starts_with
starts_with-append [] a b front = refl
starts_with-append (c ∷ p) [] b front = absurd (ground (arith, front))
starts_with-append (c ∷ p) (d ∷ a) b front =
    let rest = starts_with-append p a b in ground (arith, front, rest)

found-next : (n : ℕ) → found (next (some n)) ≡ true
found-next n = refl

find-append : (p a b : List ℕ) → found (find p a) ≡ true → found (find p (cat a b)) ≡ true
unfolding find
find-append p [] b held = absurd (ground (arith, held))
find-append p (d ∷ a) b held =
    let rest = find-append p a b in
    let front = starts_with-append p (d ∷ a) b in ground (arith, held, rest, front)

lowercase-append :
    (s t : String)
    → to_ascii_lowercase (chars (s ++ t))
      ≡ cat (to_ascii_lowercase (chars s)) (to_ascii_lowercase (chars t))
unfolding to_ascii_lowercase
lowercase-append nil t = rw (nil-append t) refl
lowercase-append (cons c s) t = rw (cons-append c s t, lowercase-append s t) refl

-- A name under a secret's name is a secret's name.
is_secret-append : (s t : String) → is_secret s ≡ true → is_secret (s ++ t) ≡ true
unfolding is_secret
is_secret-append s t held = rw (lowercase-append s t) (
    find-append (pattern "secret") (to_ascii_lowercase (chars s)) (to_ascii_lowercase (chars t))
      held)

HaveRedacted-insert_field :
    (key : String) (value : Value) (fields : Members)
    → IsRedacted value
    → HaveRedacted fields
    → HaveRedacted (insert_field key value fields)
unfolding insert_field IsRedacted
HaveRedacted-insert_field key value no_members own others = (own, tt)
HaveRedacted-insert_field key value (member name inner fields) own (first, others) =
    let rest = HaveRedacted-insert_field key value fields own others in
    elim (Bool-cases (str_eq name key)) [
      | inl hit ↦ rw hit (own, others)
      | inr miss ↦ elim (Bool-cases (str_less key name)) [
        | inl less ↦ rw (miss, less) (own, (first, others))
        | inr more ↦ rw (miss, more) (first, rest)
      ]
    ]

mutual
  unfolding canonicalize_value IsRedacted

  redacts :
      (key : String) (value : Value)
      → is_secret key ≡ true
      → IsRedacted (canonicalize_value (some key) value)
  redacts key null secret = rw secret refl
  redacts key (boolean b) secret = rw secret refl
  redacts key (number n) secret = rw secret refl
  redacts key (string s) secret = rw secret refl
  redacts key (array items) secret = redacts_items key items secret
  redacts key (object fields) secret = redacts_fields key fields no_members secret tt

  redacts_items :
      (key : String) (items : Values)
      → is_secret key ≡ true
      → AreRedacted (canonicalize_items (some key) items)
  redacts_items key no_values secret = tt
  redacts_items key (value_and value items) secret =
      (redacts key value secret, redacts_items key items secret)

  redacts_fields :
      (key : String) (fields ordered : Members)
      → is_secret key ≡ true
      → HaveRedacted ordered
      → HaveRedacted (canonicalize_fields (some key) fields ordered)
  redacts_fields key no_members ordered secret done = done
  redacts_fields key (member name inner fields) ordered secret done =
      let own =
        redacts (redacted_key (some key) name) inner (is_secret-append key ("." ++ name) secret) in
      redacts_fields key fields _ secret (HaveRedacted-insert_field name _ ordered own done)

-- Under a name that has the word secret in it, in upper or lower case, every value of the details
-- is replaced, however deep it stands.
pub canonicalize_value-IsRedacted :
    (key : String) (value : Value)
    → is_secret key ≡ true
    → IsRedacted (canonicalize_value (some key) value)
canonicalize_value-IsRedacted key value secret = redacts key value secret
