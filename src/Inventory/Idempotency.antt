-- ===== src/Inventory/Idempotency.antt =====
-- internal/shared/idempotency.go: the keys of requests that were processed. A key is unique whatever
-- its module.
use odyssey_erp.Common.{
  ℕ, ◌-◌, Bool, false, not, ◌≡◌, refl, ap, List, [], ◌∷◌, ◌++◌, String, str_eq, str_eq_iff, ltb,
  exists, select, Bool-cases, inl, inr, Action, gets, modify, raise_if, ◌>>=◌, ◌>>◌,
}
use odyssey_erp.Inventory.Model.{
  Error, key_required, module_required, already_processed, KeyRow, Db,
}

abbrev pub has_key : String → List KeyRow → Bool
has_key key ks = exists (λ k. str_eq k.key key) ks

abbrev pub without_key : String → List KeyRow → List KeyRow
without_key key ks = select (λ k. not (str_eq k.key key)) ks

module _ {F L : Type 0} where
  unfoldable pub check_and_insert : String → String → Action (Db F L) Error (Unit {0})
  check_and_insert key module_name = do
    raise_if (str_eq key "") key_required
    raise_if (str_eq module_name "") module_required
    db ← gets (λ db. db)
    raise_if (has_key key db.keys) already_processed
    modify (λ db. record db {
      keys = db.keys ++ record { key = key; module_name = module_name; created_at = db.clock } ∷ [];
    })

  -- Removes the entries that are older than the retention time.
  unfoldable pub cleanup : ℕ → Action (Db F L) Error (Unit {0})
  cleanup older_than = modify (λ db. record db {
    keys = select (λ k. not (ltb k.created_at (db.clock - older_than))) db.keys;
  })

  unfoldable pub delete : String → Action (Db F L) Error (Unit {0})
  delete key = do
    raise_if (str_eq key "") key_required
    modify (λ db. record db { keys = without_key key db.keys })

-- A key that was inserted and is deleted again leaves the keys as they were.
pub without_key-insert :
    (key : String) (ks : List KeyRow) (row : KeyRow)
    → row.key ≡ key
    → has_key key ks ≡ false
    → without_key key (ks ++ row ∷ []) ≡ ks
without_key-insert key [] row same h = rw (same, (str_eq_iff key key).1 refl) refl
without_key-insert key (k ∷ ks) row same h = elim (Bool-cases (str_eq k.key key)) [
  | inl e ↦ absurd (cc (rw e at h))
  | inr e ↦ rw e (ap (λ l. k ∷ l) (without_key-insert key ks row same (rw e at h)))
]
