-- ===== src/Keys/Rewrap/Endless.antt =====
-- The loop of `rewrap_keys` has no way out but an error.
use kms_platform.Common.{
  ℕ, zero, suc, ◌≡◌, ◌≢◌, ◌<◌, refl, ◌+◌, ◌==◌, false, List, [], ◌∷◌, some, Bytes, ok, length,
  length-map, is_empty, take, if◌then◌else◌, arith, Result-cases, inl, inr, ◌∙◌,
}
use kms_platform.Keys.{
  Table, Postgres, IsOrdering, update_encrypted_key, update_encrypted_keys_batch,
  get_keys_needing_rewrap as rows_needing_rewrap,
}
use kms_platform.Keys.Repository.{KeyPairEntity, map_key_row, map_key_rows, get_keys_needing_rewrap}
use kms_platform.Keys.Rewrap.{
  KmsCryptoService, RewrapKeysInput, reencrypt, Round, continues, round, rewrap_loop, rewrap_keys,
}

length-update_batch :
    (updates : List (ℕ × Bytes)) (rows : Table)
    → length (update_encrypted_keys_batch updates rows) ≡ length rows
unfolding update_encrypted_keys_batch update_encrypted_key
length-update_batch [] rows = refl
length-update_batch ((id, bytes) ∷ updates) rows =
    length-update_batch updates (update_encrypted_key id bytes rows)
    ∙ length-map (λ r. if r.id == id then record r { encrypted_key_data = bytes } else r) rows

map_key_rows-size :
    (rows : Table) (entities : List KeyPairEntity)
    → 0 < length rows
    → map_key_rows rows ≡ ok entities
    → is_empty entities ≡ false
unfolding map_key_rows
map_key_rows-size [] entities some_rows read = absurd (ground arith)
map_key_rows-size (r ∷ rows) entities some_rows read = elim (Result-cases (map_key_row r)) [
  | inr (e, bad) ↦ absurd (ground arith)
  | inl (entity, one) ↦ elim (Result-cases (map_key_rows rows)) [
    | inr (e, bad) ↦ absurd (ground arith)
    | inl (others, more) ↦
        let all : entities ≡ entity ∷ others = ground (arith, one, more, read) in rw all refl
  ]
]

length-take : (n : ℕ) (rows : Table) → 0 < n → 0 < length rows → 0 < length (take n rows)
length-take zero rows n some_rows = absurd (ground arith)
length-take (suc n) [] m some_rows = absurd (ground arith)
length-take (suc n) (r ∷ rows) m some_rows = omega arith

module _ (pg : Postgres) (c : KmsCryptoService) (version batch_size : ℕ)
    (order : IsOrdering pg.by_age) (batch : 0 < batch_size) where
  -- A round on a table that is not empty goes on with a table of the same size, or fails.
  round-continues :
      (draw : ℕ) (rows : Table) (total : ℕ) (next : Round)
      → 0 < length rows
      → round pg c draw version batch_size rows total ≡ ok next
      → (rows' : Table) × (total' : ℕ) × (next ≡ continues rows' total') × (0 < length rows')
  unfolding round get_keys_needing_rewrap rows_needing_rewrap
  round-continues draw rows total next some_rows went =
      elim (Result-cases (get_keys_needing_rewrap pg version batch_size rows)) [
        | inr (e, bad) ↦ absurd (ground arith)
        | inl (pending, read) ↦
            let left =
              length-take batch_size (pg.by_age rows) batch (rw (order.size rows) some_rows) in
            let work : is_empty pending ≡ false =
              map_key_rows-size (take batch_size (pg.by_age rows)) pending left read in
            elim (Result-cases (reencrypt c draw pending)) [
              | inr (e, bad) ↦ absurd (ground (arith, read, work, bad, went))
              | inl (updates, done) ↦ (
                update_encrypted_keys_batch updates rows,
                total + length updates,
                ground (arith, read, work, done, went),
                rw (length-update_batch updates rows) some_rows,
              )
            ]
      ]

  rewrap_loop-endless :
      (fuel draw : ℕ) (rows : Table) (total : ℕ) (result : ℕ × Table)
      → 0 < length rows
      → rewrap_loop fuel pg c draw version batch_size rows total ≢ some (ok result)
  unfolding rewrap_loop
  rewrap_loop-endless zero draw rows total result some_rows e = ground arith
  rewrap_loop-endless (suc fuel) draw rows total result some_rows e =
      elim (Result-cases (round pg c draw version batch_size rows total)) [
        | inr (m, bad) ↦ ground arith
        | inl (next, went) ↦
            let (rows', total', on, left) = round-continues draw rows total next some_rows went in
            rewrap_loop-endless fuel (draw + batch_size) rows' total' result left
              (ground (arith, went, on, e))
      ]

-- With a batch size that is not 0, `rewrap_keys` never returns a count for a table that has keys,
-- however many rounds it is given: it fails, or it goes on. `ORDER BY` only orders the rows.
pub rewrap_keys-endless :
    (pg : Postgres) (c : KmsCryptoService) (input : RewrapKeysInput) (rows : Table) (fuel : ℕ)
    (result : ℕ × Table)
    → IsOrdering pg.by_age
    → 0 < input.batch_size
    → 0 < length rows
    → rewrap_keys fuel pg c input rows ≢ some (ok result)
unfolding rewrap_keys
rewrap_keys-endless pg c input rows fuel result order batch some_rows e =
    elim (Result-cases c.current_master_key_version) [
      | inr (m, bad) ↦ ground arith
      | inl (version, now) ↦
          rewrap_loop-endless pg c version input.batch_size order batch fuel 0 rows 0 result
            some_rows (ground (arith, now, e))
    ]
