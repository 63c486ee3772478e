-- ===== src/Receivables/Payments.antt =====
-- Payments (internal/ar/service.go: RegisterARPayment): what a payment that is registered has tested and
-- written.
use odyssey_erp.Common.{
  not-false, String, if◌then◌else◌, ℕ, ◌+◌, true, false, not, ◌≡◌, refl, sym, subst, ap, ◌∙◌, some,
  List, [], ◌∷◌, ◌++◌, ++_nil, ++_assoc, select, update, ◌==◌, ◌&&◌, str_eq, exists, inl, inr,
  Bool-cases, Option-cases, ok, raise_if, raise_if-ok, pure, pure-ok, ◌>>=◌, ◌>>◌, for_each,
  >>=-elim, All,
}
use odyssey_erp.Common.Float.{FloatOps}
use odyssey_erp.Receivables.Model.{
  paid, ArInvoice, ArPayment, ArPaymentAllocation, PaymentAllocationInput, CreateArPaymentInput, Db,
}
use odyssey_erp.Receivables.Repository.{
  is_posted, invoice_with_id, get_ar_invoice, get_invoice_balance, balance_of,
  create_ar_payment_row, create_payment_allocation, new_payment, settle_invoice, sum_allocated,
  new_allocation,
}
use odyssey_erp.Receivables.Service.{Ports, check_allocations, register_ar_payment, number_of}

module _ (fl : FloatOps) where
  open fl use {Float, zero as zero_float, lt, le, store, add, sub}

  -- The amounts of an invoice's allocations, added up.
  unfoldable pub total_of : Float → List (ArPaymentAllocation Float) → Float
  total_of acc [] = acc
  total_of acc (a ∷ rows) = total_of (add acc a.amount) rows

  sum_allocated_total :
      (k : ℕ) (rows : List (ArPaymentAllocation Float)) (acc : Float)
      → sum_allocated fl acc k rows ≡ total_of acc (select (λ a. a.ar_invoice_id == k) rows)
  unfolding sum_allocated total_of
  sum_allocated_total k [] acc = refl
  sum_allocated_total k (a ∷ rows) acc =
      let counted = sum_allocated_total k rows (add acc a.amount) in
      let skipped = sum_allocated_total k rows acc in
      elim (Bool-cases (a.ar_invoice_id == k)) [ inl e ↦ rw e counted | inr e ↦ rw e skipped ]

  -- An allocation that may be made: a positive amount within the balance of a posted invoice.
  abbrev pub Payable : Db Float → PaymentAllocationInput Float → Type 0
  Payable db a =
      (le a.amount zero_float ≡ false)
      × (x : ArInvoice Float) × (invoice_with_id fl a.ar_invoice_id db ≡ some x)
      × (is_posted x.status ≡ true)
      × (lt
            (sub x.total
              (total_of zero_float (select (λ b. b.ar_invoice_id == x.id) db.allocations)))
            a.amount
          ≡ false)

  unfoldable pub sum_amounts : Float → List (PaymentAllocationInput Float) → Float
  sum_amounts acc [] = acc
  sum_amounts acc (a ∷ rows) = sum_amounts (add acc a.amount) rows

  get_ar_invoice-ok :
      (k : ℕ) (db : Db Float) {x : ArInvoice Float} {t : Db Float}
      → get_ar_invoice fl k db ≡ (ok x, t)
      → (invoice_with_id fl k db ≡ some x) × (t ≡ db)
  unfolding get_ar_invoice
  get_ar_invoice-ok k db h = elim (Option-cases (invoice_with_id fl k db)) [
    | inl missing ↦ absurd (cc (rw missing at h))
    | inr (y, found) ↦ let (e, et) = pure-ok (rw found at h) in (cc, et)
  ]

  get_invoice_balance-ok :
      (k : ℕ) (db : Db Float) (x : ArInvoice Float) {b : Float} {t : Db Float}
      → invoice_with_id fl k db ≡ some x
      → get_invoice_balance fl k db ≡ (ok b, t)
      → (b ≡ balance_of fl x db) × (t ≡ db)
  unfolding get_invoice_balance
  get_invoice_balance-ok k db x found h = pure-ok (rw found at h)

  check_allocations-ok :
      (total : Float) (rows : List (PaymentAllocationInput Float)) (db : Db Float) {s : Float}
      {t : Db Float}
      → check_allocations fl total rows db ≡ (ok s, t)
      → All (Payable db) rows × (s ≡ sum_amounts total rows) × (t ≡ db)
  unfolding check_allocations sum_amounts
  check_allocations-ok total [] db h = let (e, et) = pure-ok h in (tt, e, et)
  check_allocations-ok total (a ∷ rows) db {s} {t} h =
      >>=-elim (raise_if (le a.amount zero_float) _) _ db h λ u1 s1 first h1.
        let (c1, e1) = raise_if-ok (le a.amount zero_float) _ db first in
        >>=-elim (get_ar_invoice fl a.ar_invoice_id) _ s1 h1 λ x s2 second h2.
          let (found, e2) = get_ar_invoice-ok a.ar_invoice_id s1 second in
          >>=-elim (raise_if (not (is_posted x.status)) _) _ s2 h2 λ u3 s3 third h3.
            let (c3, e3) = raise_if-ok (not (is_posted x.status)) _ s2 third in
            >>=-elim (get_invoice_balance fl a.ar_invoice_id) _ s3 h3 λ b s4 fourth h4.
              let same3 : s3 ≡ db = e3 ∙ e2 ∙ e1 in
              let here : invoice_with_id fl a.ar_invoice_id db ≡ some x = rw e1 at found in
              let (eb, e4) =
                get_invoice_balance-ok a.ar_invoice_id db x here (rw same3 at fourth) in
              >>=-elim (raise_if (lt b a.amount) _) _ s4 h4 λ u5 s5 fifth h5.
                let (c5, e5) = raise_if-ok (lt b a.amount) _ s4 fifth in
                let (rest, es, et) =
                  check_allocations-ok (add total a.amount) rows db (rw (e5 ∙ e4) at h5) in
                (
                  (
                    (
                      c1,
                      x,
                      here,
                      not-false (is_posted x.status) c3,
                      ap (λ v. lt (sub x.total v) a.amount)
                            (sym (sum_allocated_total x.id db.allocations zero_float))
                          ∙ rw eb at c5,
                    ),
                    rest,
                  ),
                  es,
                  et,
                )

  -- The rows of the allocations, with consecutive ids.
  unfoldable pub stored_allocations :
      ℕ → ℕ → ℕ → List (PaymentAllocationInput Float) → List (ArPaymentAllocation Float)
  stored_allocations k payment now [] = []
  stored_allocations k payment now (a ∷ rows) =
      record {
        id = k;
        ar_payment_id = payment;
        ar_invoice_id = a.ar_invoice_id;
        amount = store 4 a.amount;
        created_at = now;
      }
      ∷ stored_allocations (k + 1) payment now rows

  -- Allocations that come in one after the other: a posted invoice whose allocations reach its total is
  -- paid from then on.
  unfoldable pub settled_rows :
      ℕ
      → List (ArPaymentAllocation Float)
      → List (ArPaymentAllocation Float)
      → List (ArInvoice Float)
      → List (ArInvoice Float)
  settled_rows now before [] xs = xs
  settled_rows now before (a ∷ rows) xs =
      let k = a.ar_invoice_id in
      let reached = total_of zero_float (select (λ b. b.ar_invoice_id == k) (before ++ a ∷ [])) in
      settled_rows now (before ++ a ∷ []) rows (
        update (λ x. x.id == k && is_posted x.status && le x.total reached)
          (λ x. record x { status = paid; updated_at = now }) xs)

  abbrev allocated : ℕ → PaymentAllocationInput Float → Db Float → Db Float
  allocated payment a db = settle_invoice fl a.ar_invoice_id (record db {
    allocations = db.allocations ++ new_allocation fl payment a.ar_invoice_id a.amount db ∷ [];
    next_allocation = db.next_allocation + 1;
  })

  create_payment_allocation-ok :
      (payment : ℕ) (a : PaymentAllocationInput Float) (db : Db Float) {u : Unit {0}} {t : Db Float}
      → create_payment_allocation fl payment a.ar_invoice_id a.amount db ≡ (ok u, t)
      → t ≡ allocated payment a db
  unfolding create_payment_allocation
  create_payment_allocation-ok payment a db h =
      elim (Bool-cases (lt zero_float (store 4 a.amount))) [
        | inl good ↦ (pure-ok (rw good at h)).1
        | inr bad ↦ absurd (cc (rw bad at h))
      ]

  allocations-ok :
      (payment : ℕ) (rows : List (PaymentAllocationInput Float)) (db : Db Float) {u : Unit {0}}
      {t : Db Float}
      → for_each rows (λ a. create_payment_allocation fl payment a.ar_invoice_id a.amount) db
        ≡ (ok u, t)
      → (t.allocations
          ≡ db.allocations ++ stored_allocations db.next_allocation payment db.clock rows)
        × (t.payments ≡ db.payments)
        × (t.invoices
            ≡ settled_rows db.clock db.allocations
                (stored_allocations db.next_allocation payment db.clock rows)
                db.invoices)
  unfolding stored_allocations settled_rows
  allocations-ok payment [] db h =
      let (e, et) = pure-ok h in
      (
        ap (λ (x : Db Float). x.allocations) et ∙ sym (++_nil db.allocations),
        ap (λ (x : Db Float). x.payments) et,
        ap (λ (x : Db Float). x.invoices) et,
      )
  allocations-ok payment (a ∷ rows) db h =
      >>=-elim (create_payment_allocation fl payment a.ar_invoice_id a.amount) _ db h
        λ u s first h1.
          let es = create_payment_allocation-ok payment a db first in
          let (ea, ep, ei) = allocations-ok payment rows (allocated payment a db) (rw es at h1) in
          (
            ea
                ∙ ++_assoc db.allocations
                    (new_allocation fl payment a.ar_invoice_id a.amount db ∷ []) _,
            ep,
            ei
                ∙ ap
                    (λ reached.
                      settled_rows db.clock
                        (db.allocations
                          ++ new_allocation fl payment a.ar_invoice_id a.amount db ∷ [])
                        (stored_allocations (db.next_allocation + 1) payment db.clock rows)
                        (update
                          (λ x. x.id == a.ar_invoice_id && is_posted x.status && le x.total reached)
                          (λ x. record x { status = paid; updated_at = db.clock }) db.invoices))
                    (sum_allocated_total a.ar_invoice_id
                      (db.allocations ++ new_allocation fl payment a.ar_invoice_id a.amount db ∷ [])
                      zero_float),
          )

  module _ (ports : Ports Float) where
    abbrev pub IsFilled : List (PaymentAllocationInput Float) → Type 0
    IsFilled rows =
        (a : PaymentAllocationInput Float) × (others : List (PaymentAllocationInput Float)) × (rows
          ≡ a ∷ others)

    filled :
        (rows : List (PaymentAllocationInput Float))
        → (elim rows [ [] ↦ true | a ∷ others ↦ false ]) ≡ false
        → IsFilled rows
    filled [] h = absurd (cc h)
    filled (a ∷ others) h = (a, others, refl)

    -- The payment with the number that it gets.
    abbrev numbered : CreateArPaymentInput Float → Db Float → CreateArPaymentInput Float
    numbered i db = record i { number = number_of fl ports i.number ports.payment_number db }

    -- The row of a payment, with its own number or a generated one, under its first invoice.
    abbrev number_given : CreateArPaymentInput Float → Db Float → String
    number_given i db = if str_eq i.number "" then ports.payment_number db else i.number

    abbrev pub payment_row : CreateArPaymentInput Float → Db Float → ArPayment Float
    payment_row i db = record {
      id = db.next_payment;
      number = number_given i db;
      ar_invoice_id = elim i.allocations [ [] ↦ 0 | a ∷ rows ↦ a.ar_invoice_id ];
      amount = store 2 i.amount;
      paid_at = i.paid_at;
      method = i.method;
      note = i.note;
      created_by = i.created_by;
      created_at = db.clock;
      updated_at = db.clock;
    }

    -- What a payment that is registered has tested and written, as the next theorem states it.
    abbrev pub Registered : CreateArPaymentInput Float → Db Float → Db Float → Type 0
    Registered i db t =
        (le i.amount zero_float ≡ false)
        × IsFilled i.allocations
        × All (Payable db) i.allocations
        × (lt i.amount (sum_amounts zero_float i.allocations) ≡ false)
        × (exists (λ x. str_eq x.number (number_given i db)) db.payments ≡ false)
        × (t.payments ≡ db.payments ++ payment_row i db ∷ [])
        × (t.allocations
            ≡ db.allocations
              ++ stored_allocations db.next_allocation db.next_payment db.clock i.allocations)
        × (t.invoices
            ≡ settled_rows db.clock db.allocations
                (stored_allocations db.next_allocation db.next_payment db.clock i.allocations)
                db.invoices)

    abbrev with_payment : CreateArPaymentInput Float → Db Float → Db Float
    with_payment i db = record db {
      payments = db.payments ++ new_payment fl i db ∷ [];
      next_payment = db.next_payment + 1;
    }

    create_ar_payment_row-ok :
        (i : CreateArPaymentInput Float) (db : Db Float) {p : ArPayment Float} {t : Db Float}
        → create_ar_payment_row fl i db ≡ (ok p, t)
        → (exists (λ x. str_eq x.number i.number) db.payments ≡ false)
          × (p.id ≡ db.next_payment)
          × (t ≡ with_payment i db)
    unfolding create_ar_payment_row
    create_ar_payment_row-ok i db h = elim (Bool-cases (lt zero_float (store 2 i.amount))) [
      | inr bad ↦ absurd (cc (rw bad at h))
      | inl good ↦ elim (Bool-cases (exists (λ x. str_eq x.number i.number) db.payments)) [
        | inl taken ↦ absurd (cc (rw (good, taken) at h))
        | inr free ↦ let (e, et) = pure-ok (rw (good, free) at h) in (free, ap (λ x. x.id) e, et)
      ]
    ]

    registered-end :
        (i : CreateArPaymentInput Float) (db : Db Float) {p : ArPayment Float} {t : Db Float}
        → (do
          y ← create_ar_payment_row fl (numbered i db)
          for_each i.allocations (λ a. create_payment_allocation fl y.id a.ar_invoice_id a.amount)
          pure y)
            db
          ≡ (ok p, t)
        → (exists (λ x. str_eq x.number (numbered i db).number) db.payments ≡ false)
          × (t.payments ≡ db.payments ++ new_payment fl (numbered i db) db ∷ [])
          × (t.allocations
              ≡ db.allocations
                ++ stored_allocations db.next_allocation db.next_payment db.clock i.allocations)
          × (t.invoices
              ≡ settled_rows db.clock db.allocations
                  (stored_allocations db.next_allocation db.next_payment db.clock i.allocations)
                  db.invoices)
    registered-end i db {p} {t} h =
        >>=-elim (create_ar_payment_row fl (numbered i db)) _ db h λ y s first h1.
          >>=-elim
            (for_each i.allocations
              (λ a. create_payment_allocation fl y.id a.ar_invoice_id a.amount))
            _ s h1
            λ u s2 second h2.
              let (free, ey, es) = create_ar_payment_row-ok (numbered i db) db first in
              let (ea, ep, ei) = allocations-ok y.id i.allocations s second in
              let end : t ≡ s2 = (pure-ok h2).1 in
              (
                free,
                ap (λ (x : Db Float). x.payments) end ∙ (ep ∙ ap (λ (x : Db Float). x.payments) es),
                ap (λ (x : Db Float). x.allocations) end
                    ∙ (ea
                        ∙ (ap
                              (λ (x : Db Float).
                                x.allocations
                                ++ stored_allocations x.next_allocation y.id x.clock i.allocations)
                              es
                            ∙ ap
                                (λ k.
                                  db.allocations
                                  ++ stored_allocations db.next_allocation k db.clock i.allocations)
                                ey)),
                ap (λ (x : Db Float). x.invoices) end
                    ∙ ei
                    ∙ ap
                        (λ (x : Db Float).
                          settled_rows x.clock x.allocations
                            (stored_allocations x.next_allocation y.id x.clock i.allocations)
                            x.invoices)
                        es
                    ∙ ap
                        (λ k.
                          settled_rows db.clock db.allocations
                            (stored_allocations db.next_allocation k db.clock i.allocations)
                            db.invoices)
                        ey,
              )

    -- A payment that is registered had a positive amount and at least one allocation; the allocations add
    -- up to no more than that, each of them positive and within the balance that a posted invoice had
    -- before; and it had a number that was not used. It adds the payment and one row for each
    -- allocation, and a posted invoice whose allocations reach its total is paid.
    pub register_ar_payment_lem :
        (i : CreateArPaymentInput Float) (db : Db Float) {p : ArPayment Float} {t : Db Float}
        → register_ar_payment fl ports i db ≡ (ok p, t)
        → Registered i db t
    unfolding register_ar_payment
    register_ar_payment_lem i db h =
        >>=-elim (raise_if (le i.amount zero_float) _) _ db h λ u1 s1 first h1.
          let (c1, e1) = raise_if-ok (le i.amount zero_float) _ db first in
          >>=-elim (raise_if (elim i.allocations [ [] ↦ true | a ∷ rows ↦ false ]) _) _ s1 h1
            λ u2 s2 second h2.
              let (c2, e2) =
                raise_if-ok (elim i.allocations [ [] ↦ true | a ∷ rows ↦ false ]) _ s1 second in
              >>=-elim (check_allocations fl zero_float i.allocations) _ s2 h2 λ total s3 third h3.
                let (payable, es, e3) = check_allocations-ok zero_float i.allocations s2 third in
                >>=-elim (raise_if (lt i.amount total) _) _ s3 h3 λ u4 s4 fourth h4.
                  let (c4, e4) = raise_if-ok (lt i.amount total) _ s3 fourth in
                  let early : s2 ≡ db = e2 ∙ e1 in
                  let same : s4 ≡ db = e4 ∙ e3 ∙ early in
                  let (free, ep, ea, ei) = registered-end i db (rw same at h4) in
                  (
                    c1,
                    filled i.allocations c2,
                    subst (λ d. All (Payable d) i.allocations) early payable,
                    rw es at c4,
                    free,
                    ep,
                    ea,
                    ei,
                  )
