-- ===== src/Audit/Tamper.antt =====
-- Two tables that both pass the check and end in the same hash are the same, or show a collision.
use kms_platform.Common.{
  ℕ, ◌≡◌, ◌≢◌, ◌+◌, refl, Bool, true, false, ◌&&◌, String, Bytes, List, [], ◌∷◌, Option, none, some,
  map, length, str_eq, eq_iff, eq_refl, arith, Bool-cases, ◌⊎◌, inl, inr, ap, subst, sym, ◌∙◌,
}
use kms_platform.Audit.{
  Libraries, Payload, AuditLogRow, payload, input_of, verify_records, latest_hash, genesis,
}

text_eq : Option String → Option String → Bool
text_eq none none = true
text_eq none (some b) = false
text_eq (some a) none = false
text_eq (some a) (some b) = str_eq a b

payload_eq : Payload → Payload → Bool
payload_eq [] [] = true
payload_eq [] (q ∷ qs) = false
payload_eq (p ∷ ps) [] = false
payload_eq (p ∷ ps) (q ∷ qs) = str_eq p.0 q.0 && (text_eq p.1 q.1 && payload_eq ps qs)

text_eq→eq : (a b : Option String) → text_eq a b ≡ true → a ≡ b
unfolding text_eq
text_eq→eq none none e = refl
text_eq→eq none (some b) e = absurd (ground arith)
text_eq→eq (some a) none e = absurd (ground arith)
text_eq→eq (some a) (some b) e = ap some ((eq_iff a b).0 e)

payload_eq→eq : (p q : Payload) → payload_eq p q ≡ true → p ≡ q
unfolding payload_eq
payload_eq→eq [] [] e = refl
payload_eq→eq [] (q ∷ qs) e = absurd (ground arith)
payload_eq→eq (p ∷ ps) [] e = absurd (ground arith)
payload_eq→eq ((k, v) ∷ ps) ((k', v') ∷ qs) e =
    let same_key : k ≡ k' = (eq_iff k k').0 (ground arith) in
    let same_text : v ≡ v' = text_eq→eq v v' (ground arith) in
    let rest : ps ≡ qs = payload_eq→eq ps qs (ground arith) in cc

payload_eq_refl : (p : Payload) → payload_eq p p ≡ true
unfolding payload_eq text_eq
payload_eq_refl [] = refl
payload_eq_refl ((k, none) ∷ ps) = ground (arith, eq_refl k, payload_eq_refl ps)
payload_eq_refl ((k, some v) ∷ ps) = ground (arith, eq_refl k, eq_refl v, payload_eq_refl ps)

-- At some position the two tables have records that are hashed from different texts to one hash.
abbrev pub Collision : Libraries → List AuditLogRow → List AuditLogRow → Type 0
Collision l [] rows' = ⊥
Collision l (r ∷ rows) [] = ⊥
Collision l (r ∷ rows) (r' ∷ rows') =
    ((payload l (input_of l r) ≢ payload l (input_of l r'))
      × (l.sha256_json (payload l (input_of l r)) ≡ l.sha256_json (payload l (input_of l r'))))
    ⊎ Collision l rows rows'

same_or_other : (p q : Payload) → (p ≡ q) ⊎ (p ≢ q)
same_or_other p q = elim (Bool-cases (payload_eq p q)) [
  | inl hit ↦ inl (payload_eq→eq p q hit)
  | inr miss ↦ inr (λ same.
      absurd (ground (arith, miss, subst (λ r. payload_eq p r ≡ true) same (payload_eq_refl p))))
]

module _ (l : Libraries) (pubkeys : List Bytes) where
  -- A record that is counted continues the chain and has its own hash.
  pub verify_records-cons :
      (last : String) (n m : ℕ) (r : AuditLogRow) (records : List AuditLogRow)
      → verify_records l pubkeys last n (r ∷ records) ≡ (m, none)
      → (r.prev_hash ≡ last)
        × (l.sha256_json (payload l (input_of l r)) ≡ r.hash)
        × (verify_records l pubkeys r.hash (n + 1) records ≡ (m, none))
  unfolding verify_records
  verify_records-cons last n m r records done =
      let hash = l.sha256_json (payload l (input_of l r)) in
      (
        (eq_iff r.prev_hash last).0 (ground arith),
        (eq_iff hash r.hash).0 (ground arith),
        ground arith,
      )

  chains_agree :
      (last last' : String) (n n' m m' : ℕ) (rows rows' : List AuditLogRow)
      → verify_records l pubkeys last n rows ≡ (m, none)
      → verify_records l pubkeys last' n' rows' ≡ (m', none)
      → length rows ≡ length rows'
      → latest_hash l last rows ≡ latest_hash l last' rows'
      → ((last ≡ last')
          × (map (λ r. payload l (input_of l r)) rows ≡ map (λ r. payload l (input_of l r)) rows'))
        ⊎ Collision l rows rows'
  chains_agree last last' n n' m m' [] [] done done' size ends = inl (ends, refl)
  chains_agree last last' n n' m m' [] (r' ∷ rows') done done' size ends =
      absurd (omega (arith, size))
  chains_agree last last' n n' m m' (r ∷ rows) [] done done' size ends =
      absurd (omega (arith, size))
  chains_agree last last' n n' m m' (r ∷ rows) (r' ∷ rows') done done' size ends =
      let (prev, own, rest) = verify_records-cons last n m r rows done in
      let (prev', own', rest') = verify_records-cons last' n' m' r' rows' done' in
      elim (chains_agree r.hash r'.hash (n + 1) (n' + 1) m m' rows rows' rest rest'
        (omega (arith, size)) ends) [
          | inr collision ↦ inr (inr collision)
          | inl (hashes, payloads) ↦
              elim (same_or_other (payload l (input_of l r)) (payload l (input_of l r'))) [
                | inr other ↦ inr (inl (other, own ∙ hashes ∙ sym own'))
                | inl same ↦
                    inl (
                      (let links : r.prev_hash ≡ r'.prev_hash = cc in sym prev ∙ links ∙ prev'),
                      cc,
                    )
              ]
        ]

-- Two tables of audit records of the same length that both pass the check without an error, and that
-- end in the same hash, agree in everything that is hashed of every record, or at some position they
-- have records that are hashed from different texts to the same hash.
pub verified_tables_agree :
    (l : Libraries) (pubkeys : List Bytes) (m m' : ℕ) (rows rows' : List AuditLogRow)
    → verify_records l pubkeys genesis 0 rows ≡ (m, none)
    → verify_records l pubkeys genesis 0 rows' ≡ (m', none)
    → length rows ≡ length rows'
    → latest_hash l genesis rows ≡ latest_hash l genesis rows'
    → (map (λ r. payload l (input_of l r)) rows ≡ map (λ r. payload l (input_of l r)) rows')
      ⊎ Collision l rows rows'
verified_tables_agree l pubkeys m m' rows rows' done done' size ends =
    elim (chains_agree l pubkeys genesis genesis 0 0 m m' rows rows' done done' size ends) [
      | inl (_, same) ↦ inl same
      | inr collision ↦ inr collision
    ]
