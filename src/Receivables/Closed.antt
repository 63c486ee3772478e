-- ===== src/Receivables/Closed.antt =====
-- The life of an invoice (internal/ar/service.go): what is paid or void stays as it is.
use odyssey_erp.Common.{
  ℕ, Bool, true, false, not, ◌&&◌, ◌≡◌, refl, some, List, [], ◌∷◌, String, str_eq, ◌==◌, exists,
  count, pure, raise_if, or_raise, ◌>>=◌, ◌>>◌, for_each, Keeps, >>=-Keeps, raise_if-Keeps,
  or_raise-Keeps, for_each-Keeps, find-append_found, find-update_same, arith,
}
use odyssey_erp.Common.Float.{FloatOps}
use odyssey_erp.Receivables.Model.{
  ArInvoiceStatus, draft, posted, paid, void, not_found, constraint_violated, number_taken,
  invalid_status, void_reason_required, not_in_draft, cannot_be_voided, insufficient_amount,
  allocation_not_positive, customer_required, total_not_positive, already_invoiced,
  delivery_not_configured, amount_not_positive, allocation_required, allocation_exceeds_payment,
  ArInvoice, CreateArInvoiceLineInput, CreateArInvoiceInput, PostArInvoiceInput, VoidArInvoiceInput,
  PaymentAllocationInput, CreateArPaymentInput, Db,
}
use odyssey_erp.Receivables.Repository.{
  is_draft, is_posted, can_be_voided, has_id, invoice_with_id, get_ar_invoice,
  create_ar_invoice_row, create_ar_invoice_line, post_ar_invoice_row, void_ar_invoice_row,
  get_invoice_balance, create_ar_payment_row, create_payment_allocation, posted_row, voided_row,
  paid_row,
}
use odyssey_erp.Receivables.Service.{
  CreateArInvoiceFromDeliveryInput, Ports, post_ar_invoice, void_ar_invoice, check_allocations,
  create_ar_invoice, create_ar_invoice_from_delivery, register_ar_payment, number_of, answer,
  delivery_invoice,
}

-- A status that no call leaves.
abbrev pub is_closed : ArInvoiceStatus → Bool
is_closed draft = false
is_closed posted = false
is_closed paid = true
is_closed void = true

not_draft : (s : ArInvoiceStatus) → is_closed s ≡ true → is_draft s ≡ false
not_draft s h = ground arith

not_posted : (s : ArInvoiceStatus) → is_closed s ≡ true → is_posted s ≡ false
not_posted s h = ground arith

and_false : (a b : Bool) → (a && false && b) ≡ false
and_false true true = refl
and_false true false = refl
and_false false true = refl
and_false false false = refl

-- The calls of the service that may write.
pub data Request (F : Type 0) : Type 0 where
  invoicing : CreateArInvoiceInput F → Request F
  invoicing_delivery : CreateArInvoiceFromDeliveryInput → Request F
  posting : PostArInvoiceInput → Request F
  voiding : VoidArInvoiceInput → Request F
  paying : CreateArPaymentInput F → Request F

module _ (fl : FloatOps) (ports : Ports (fl.Float)) where
  open fl use {Float, zero as zero_float, lt, le, store, add}

  -- The tables after a call, whatever it answers.
  abbrev pub after : Request Float → Db Float → Db Float
  after (invoicing i) db = (create_ar_invoice fl ports i db).1
  after (invoicing_delivery i) db = (create_ar_invoice_from_delivery fl ports i db).1
  after (posting i) db = (post_ar_invoice fl i db).1
  after (voiding i) db = (void_ar_invoice fl i db).1
  after (paying i) db = (register_ar_payment fl ports i db).1

  module _ (k : ℕ) (x : ArInvoice Float) (closed : is_closed x.status ≡ true) where
    abbrev Has : Db Float → Type 0
    Has db = invoice_with_id fl k db ≡ some x

    other_draft : (j : ℕ) → (x.id == j && is_draft x.status) ≡ false
    other_draft j = rw (not_draft x.status closed) (ground arith)

    other_posted : (j : ℕ) (b : Bool) → (x.id == j && is_posted x.status && b) ≡ false
    other_posted j b = rw (not_posted x.status closed) (and_false (x.id == j) b)

    get-Keeps : (j : ℕ) → Keeps Has (get_ar_invoice fl j)
    unfolding get_ar_invoice
    get-Keeps j db h = or_raise-Keeps Has (invoice_with_id fl j db) not_found db h

    balance-Keeps : (j : ℕ) → Keeps Has (get_invoice_balance fl j)
    unfolding get_invoice_balance
    balance-Keeps j db h =
        >>=-Keeps Has (or_raise (invoice_with_id fl j db) not_found) _
          (or_raise-Keeps Has (invoice_with_id fl j db) not_found) (λ y d hd. hd) db h

    create_row-Keeps : (i : CreateArInvoiceInput Float) → Keeps Has (create_ar_invoice_row fl i)
    unfolding create_ar_invoice_row
    create_row-Keeps i db h =
        >>=-Keeps Has (raise_if (lt (store 2 i.total) zero_float) constraint_violated) _
          (raise_if-Keeps Has _ _)
          (λ u.
            >>=-Keeps Has
              (raise_if (exists (λ y. str_eq y.number i.number) db.invoices) number_taken) _
              (raise_if-Keeps Has _ _) (λ v d hd. find-append_found (has_id fl k) d.invoices _ hd))
          db h

    create_line-Keeps :
        (j : ℕ) (l : CreateArInvoiceLineInput Float) → Keeps Has (create_ar_invoice_line fl j l)
    unfolding create_ar_invoice_line
    create_line-Keeps j l db h = h

    post_row-Keeps : (j by : ℕ) → Keeps Has (post_ar_invoice_row fl j by)
    unfolding post_ar_invoice_row
    post_row-Keeps j by db h =
        >>=-Keeps Has
          (raise_if (not (exists (λ y. y.id == j && is_draft y.status) db.invoices)) not_in_draft) _
          (raise_if-Keeps Has _ _)
          (λ u d hd.
            find-update_same (has_id fl k) (λ y. y.id == j && is_draft y.status)
              (posted_row fl by d.clock) d.invoices (λ y. refl) (other_draft j) hd)
          db h

    other_voidable : (j : ℕ) → (x.id == j && can_be_voided fl x.status) ≡ false
    other_voidable j = rw (not_draft x.status closed, not_posted x.status closed) (ground arith)

    voided_row-Keeps : (j by : ℕ) (reason : String) → Keeps Has (void_ar_invoice_row fl j by reason)
    unfolding void_ar_invoice_row
    voided_row-Keeps j by reason db h =
        >>=-Keeps Has
          (raise_if (not (exists (λ y. y.id == j && can_be_voided fl y.status) db.invoices))
            cannot_be_voided)
          _ (raise_if-Keeps Has _ _)
          (λ u d hd.
            find-update_same (has_id fl k) (λ y. y.id == j && can_be_voided fl y.status)
              (voided_row fl by reason d.clock) d.invoices (λ y. refl) (other_voidable j) hd)
          db h

    allocation-Keeps :
        (payment j : ℕ) (amount : Float) → Keeps Has (create_payment_allocation fl payment j amount)
    unfolding create_payment_allocation
    allocation-Keeps payment j amount =
        >>=-Keeps Has (raise_if (not (lt zero_float (store 4 amount))) constraint_violated) _
          (raise_if-Keeps Has _ _)
          λ u d hd.
            find-update_same (has_id fl k) _ (paid_row fl d.clock) d.invoices (λ y. refl)
              (other_posted j _) hd

    payment_row-Keeps : (i : CreateArPaymentInput Float) → Keeps Has (create_ar_payment_row fl i)
    unfolding create_ar_payment_row
    payment_row-Keeps i db h =
        >>=-Keeps Has (raise_if (not (lt zero_float (store 2 i.amount))) constraint_violated) _
          (raise_if-Keeps Has _ _)
          (λ u.
            >>=-Keeps Has
              (raise_if (exists (λ y. str_eq y.number i.number) db.payments) number_taken) _
              (raise_if-Keeps Has _ _) (λ v d hd. hd))
          db h

    created-Keeps :
        (i : CreateArInvoiceInput Float) (number : String)
        → Keeps Has (do
          y ← create_ar_invoice_row fl (record i { number = number })
          for_each i.lines (create_ar_invoice_line fl y.id)
          pure y)
    created-Keeps i number =
        >>=-Keeps Has (create_ar_invoice_row fl (record i { number = number })) _
          (create_row-Keeps (record i { number = number }))
          λ y.
            >>=-Keeps Has (for_each i.lines (create_ar_invoice_line fl y.id)) _
              (for_each-Keeps Has i.lines (create_ar_invoice_line fl y.id) (create_line-Keeps y.id))
              λ _ d hd. hd

    paid-Keeps :
        (i : CreateArPaymentInput Float) (number : String)
        → Keeps Has (do
          y ← create_ar_payment_row fl (record i { number = number })
          for_each i.allocations (λ a. create_payment_allocation fl y.id a.ar_invoice_id a.amount)
          pure y)
    paid-Keeps i number =
        >>=-Keeps Has (create_ar_payment_row fl (record i { number = number })) _
          (payment_row-Keeps (record i { number = number }))
          λ y.
            >>=-Keeps Has
              (for_each i.allocations
                (λ a. create_payment_allocation fl y.id a.ar_invoice_id a.amount))
              _
              (for_each-Keeps Has i.allocations
                (λ a. create_payment_allocation fl y.id a.ar_invoice_id a.amount)
                (λ a. allocation-Keeps y.id a.ar_invoice_id a.amount))
              λ _ d hd. hd

    create-Keeps : (i : CreateArInvoiceInput Float) → Keeps Has (create_ar_invoice fl ports i)
    unfolding create_ar_invoice
    create-Keeps i =
        >>=-Keeps Has (raise_if (i.customer_id == 0) customer_required) _ (raise_if-Keeps Has _ _)
          λ _.
            >>=-Keeps Has (raise_if (le i.total zero_float) total_not_positive) _
              (raise_if-Keeps Has _ _)
              λ _. λ db. created-Keeps i (number_of fl ports i.number ports.invoice_number db) db

    delivery-Keeps :
        (i : CreateArInvoiceFromDeliveryInput)
        → Keeps Has (create_ar_invoice_from_delivery fl ports i)
    unfolding create_ar_invoice_from_delivery
    delivery-Keeps i =
        >>=-Keeps Has (or_raise ports.delivery delivery_not_configured) _
          (or_raise-Keeps Has ports.delivery delivery_not_configured)
          λ fetch. λ db.
            >>=-Keeps Has
              (raise_if
                (not (
                  count
                    (λ y.
                      y.delivery_order_id == i.delivery_order_id && not (i.delivery_order_id == 0))
                    db.invoices
                  == 0))
                already_invoiced)
              _ (raise_if-Keeps Has _ _)
              (λ _.
                >>=-Keeps Has (answer fl ports (fetch i.delivery_order_id)) _ (λ d hd. hd)
                  λ info. create-Keeps (delivery_invoice fl ports i info))
              db

    post-Keeps : (i : PostArInvoiceInput) → Keeps Has (post_ar_invoice fl i)
    unfolding post_ar_invoice
    post-Keeps i = >>=-Keeps Has (get_ar_invoice fl i.invoice_id) _ (get-Keeps i.invoice_id) λ y.
        >>=-Keeps Has (raise_if (not (is_draft y.status)) invalid_status) _ (raise_if-Keeps Has _ _)
          λ _. post_row-Keeps i.invoice_id i.posted_by

    void-Keeps : (i : VoidArInvoiceInput) → Keeps Has (void_ar_invoice fl i)
    unfolding void_ar_invoice
    void-Keeps i = >>=-Keeps Has (get_ar_invoice fl i.invoice_id) _ (get-Keeps i.invoice_id) λ y.
        >>=-Keeps Has
          (raise_if (not (is_draft y.status) && not (is_posted y.status)) invalid_status) _
          (raise_if-Keeps Has _ _)
          λ _.
            >>=-Keeps Has (raise_if (str_eq i.void_reason "") void_reason_required) _
              (raise_if-Keeps Has _ _) λ _. voided_row-Keeps i.invoice_id i.voided_by i.void_reason

    check-Keeps :
        (total : Float) (as' : List (PaymentAllocationInput Float))
        → Keeps Has (check_allocations fl total as')
    unfolding check_allocations
    check-Keeps total [] db h = h
    check-Keeps total (a ∷ as') db h =
        (>>=-Keeps Has (raise_if (le a.amount zero_float) allocation_not_positive) _
            (raise_if-Keeps Has _ _)
            λ _.
              >>=-Keeps Has (get_ar_invoice fl a.ar_invoice_id) _ (get-Keeps a.ar_invoice_id) λ y.
                >>=-Keeps Has (raise_if (not (is_posted y.status)) invalid_status) _
                  (raise_if-Keeps Has _ _)
                  λ _.
                    >>=-Keeps Has (get_invoice_balance fl a.ar_invoice_id) _
                      (balance-Keeps a.ar_invoice_id)
                      λ balance.
                        >>=-Keeps Has (raise_if (lt balance a.amount) insufficient_amount) _
                          (raise_if-Keeps Has _ _) λ _. check-Keeps (add total a.amount) as')
          db h

    register-Keeps : (i : CreateArPaymentInput Float) → Keeps Has (register_ar_payment fl ports i)
    unfolding register_ar_payment
    register-Keeps i =
        >>=-Keeps Has (raise_if (le i.amount zero_float) amount_not_positive) _
          (raise_if-Keeps Has _ _)
          λ _.
            >>=-Keeps Has
              (raise_if (elim i.allocations [ [] ↦ true | a ∷ as' ↦ false ]) allocation_required) _
              (raise_if-Keeps Has _ _)
              λ _.
                >>=-Keeps Has (check_allocations fl zero_float i.allocations) _
                  (check-Keeps zero_float i.allocations)
                  λ total.
                    >>=-Keeps Has (raise_if (lt i.amount total) allocation_exceeds_payment) _
                      (raise_if-Keeps Has _ _)
                      λ _.
                        λ db. paid-Keeps i (number_of fl ports i.number ports.payment_number db) db

  -- No call of the service, on whichever invoice and whether or not it fails, changes the row of an
  -- invoice that is paid or void.
  pub closed_lem :
      (k : ℕ) (x : ArInvoice Float) (db : Db Float) (r : Request Float)
      → is_closed x.status ≡ true
      → invoice_with_id fl k db ≡ some x
      → invoice_with_id fl k (after r db) ≡ some x
  closed_lem k x db (invoicing i) closed h = create-Keeps k x closed i db h
  closed_lem k x db (invoicing_delivery i) closed h = delivery-Keeps k x closed i db h
  closed_lem k x db (posting i) closed h = post-Keeps k x closed i db h
  closed_lem k x db (voiding i) closed h = void-Keeps k x closed i db h
  closed_lem k x db (paying i) closed h = register-Keeps k x closed i db h
