-- ===== src/Inventory/Balances.antt =====
-- The balance table against the stock cards (internal/inventory/service.go: postMovement;
-- repository.go: UpsertBalance, InsertCardEntry): what a warehouse holds of a product.
use odyssey_erp.Common.{
  ℕ, true, false, ◌≡◌, refl, sym, ap, ◌∙◌, Option, none, some, List, [], ◌∷◌, ◌++◌, if◌then◌else◌,
  find, Bool-cases, inl, inr, arith,
}
use odyssey_erp.Common.Float.{FloatOps}
use odyssey_erp.Inventory.Model.{Balance, CardRow}
use odyssey_erp.Inventory.Repository.{is_balance_of, is_card_of, upserted, float_to_numeric}

module _ (fl : FloatOps) where
  open fl use {Float}

  -- What is held, as the balance table has it: the quantity and the average cost.
  abbrev pub held : Option (Balance Float) → Option (Float × Float)
  held none = none
  held (some b) = some (b.qty, b.avg_cost)

  -- What is held, as the cards have it: the balance that the last card writes down.
  abbrev pub later : Option (Float × Float) → Option (Float × Float) → Option (Float × Float)
  later x none = x
  later x (some y) = some y

  abbrev pub card_balance : ℕ → ℕ → CardRow Float → Option (Float × Float)
  card_balance w p c =
      if is_card_of fl w p c then some (c.card.balance_qty, c.card.balance_cost) else none

  abbrev pub carded : ℕ → ℕ → List (CardRow Float) → Option (Float × Float)
  carded w p [] = none
  carded w p (c ∷ cs) = later (card_balance w p c) (carded w p cs)

  later_assoc : (x y z : Option (Float × Float)) → later x (later y z) ≡ later (later x y) z
  later_assoc x y none = refl
  later_assoc x y (some z) = refl

  later-none : (x : Option (Float × Float)) → later none x ≡ x
  later-none none = refl
  later-none (some x) = refl

  pub carded-append :
      (w p : ℕ) (cs : List (CardRow Float)) (c : CardRow Float)
      → carded w p (cs ++ c ∷ []) ≡ later (carded w p cs) (card_balance w p c)
  carded-append w p [] c = sym (later-none (card_balance w p c))
  carded-append w p (d ∷ cs) c =
      ap (later (card_balance w p d)) (carded-append w p cs c)
      ∙ later_assoc (card_balance w p d) (carded w p cs) (card_balance w p c)

  -- What is held after an upsert: the amounts as the columns give them back.
  abbrev pub stored_pair : Float → Float → Float × Float
  stored_pair q a = (float_to_numeric fl q, float_to_numeric fl a)

  same_row :
      (w p : ℕ) (b x : Balance Float)
      → is_balance_of fl b.warehouse_id b.product_id x ≡ true
      → is_balance_of fl w p x ≡ is_balance_of fl w p b
  same_row w p b x h = ground arith

  other_row :
      (w p : ℕ) (b x : Balance Float)
      → is_balance_of fl b.warehouse_id b.product_id x ≡ false
      → is_balance_of fl w p x ≡ true
      → is_balance_of fl w p b ≡ false
  other_row w p b x h here = ground arith

  pub held-upserted :
      (w p : ℕ) (b : Balance Float) (now : ℕ) (bs : List (Balance Float))
      → held (find (is_balance_of fl w p) (upserted fl b now bs)) ≡ (
          if is_balance_of fl w p b
          then some (stored_pair b.qty b.avg_cost)
          else held (find (is_balance_of fl w p) bs))
  held-upserted w p b now [] = elim (Bool-cases (is_balance_of fl w p b)) [
    | inl e ↦ rw e refl
    | inr e ↦ rw e refl
  ]
  held-upserted w p b now (x ∷ xs) =
      elim (Bool-cases (is_balance_of fl b.warehouse_id b.product_id x)) [
        | inl same ↦ elim (Bool-cases (is_balance_of fl w p b)) [
          | inl e ↦ rw (same, same_row w p b x same, e) refl
          | inr e ↦ rw (same, same_row w p b x same, e) refl
        ]
        | inr other ↦ elim (Bool-cases (is_balance_of fl w p x)) [
          | inl here ↦ rw (other, here, other_row w p b x other here) refl
          | inr there ↦ rw (other, there) (held-upserted w p b now xs)
        ]
      ]
