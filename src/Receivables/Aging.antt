-- ===== src/Receivables/Aging.antt =====
-- The aging report (internal/ar/service.go: CalculateARAging) against a description bucket by bucket.
use odyssey_erp.Common.{
  ℕ, Bool, true, false, ◌&&◌, not, ◌≡◌, refl, ap, ◌∙◌, List, [], ◌∷◌, if◌then◌else◌, leb, ltb, ◌==◌,
  ok, Bool-cases, inl, inr, arith,
}
use odyssey_erp.Common.Float.{FloatOps}
use odyssey_erp.Receivables.Model.{ArInvoice, ArAgingBucket, Db}
use odyssey_erp.Receivables.Repository.{balance_of}
use odyssey_erp.Receivables.Service.{
  days_late, into_bucket, aging_loop, calculate_ar_aging, empty_bucket, outstanding,
}

module _ (fl : FloatOps) where
  open fl use {Float, zero as zero_float, add, le}

  -- The sum of the open balances of those invoices whose number of days meets a test.
  unfoldable pub owed : (ℕ → Bool) → ℕ → Db Float → Float → List (ArInvoice Float) → Float
  owed test as_of db acc [] = acc
  owed test as_of db acc (x ∷ xs) =
      let rest = owed test as_of db acc xs in
      let counted = owed test as_of db (add acc (balance_of fl x db)) xs in
      if not (le (balance_of fl x db) zero_float) && test (days_late fl as_of x)
      then counted
      else rest

  abbrev pub between : ℕ → ℕ → ℕ → Bool
  between a b n = ltb a n && leb n b

  abbrev pub aged :
      ℕ → Db Float → ArAgingBucket Float → List (ArInvoice Float) → ArAgingBucket Float
  aged as_of db b xs = record {
    current = owed (λ n. n == 0) as_of db b.current xs;
    bucket30 = owed (between 0 30) as_of db b.bucket30 xs;
    bucket60 = owed (between 30 60) as_of db b.bucket60 xs;
    bucket90 = owed (between 60 90) as_of db b.bucket90 xs;
    bucket120 = owed (λ n. ltb 90 n) as_of db b.bucket120 xs;
  }

  -- One invoice that counts, with its number of days.
  abbrev aged_with :
      ℕ → Db Float → ℕ → Float → ArAgingBucket Float → List (ArInvoice Float) → ArAgingBucket Float
  aged_with as_of db n v b xs = record {
    current =
        if n == 0
        then owed (λ n. n == 0) as_of db (add b.current v) xs
        else owed (λ n. n == 0) as_of db b.current xs;
    bucket30 =
        if between 0 30 n
        then owed (between 0 30) as_of db (add b.bucket30 v) xs
        else owed (between 0 30) as_of db b.bucket30 xs;
    bucket60 =
        if between 30 60 n
        then owed (between 30 60) as_of db (add b.bucket60 v) xs
        else owed (between 30 60) as_of db b.bucket60 xs;
    bucket90 =
        if between 60 90 n
        then owed (between 60 90) as_of db (add b.bucket90 v) xs
        else owed (between 60 90) as_of db b.bucket90 xs;
    bucket120 =
        if ltb 90 n
        then owed (λ n. ltb 90 n) as_of db (add b.bucket120 v) xs
        else owed (λ n. ltb 90 n) as_of db b.bucket120 xs;
  }

  abbrev Tests : ℕ → Bool → Bool → Bool → Bool → Bool → Type 0
  Tests n a b c d e =
      ((n == 0) ≡ a)
      × (between 0 30 n ≡ b)
      × (between 30 60 n ≡ c)
      × (between 60 90 n ≡ d)
      × (ltb 90 n ≡ e)

  aged_step :
      (as_of : ℕ) (db : Db Float) (n : ℕ) (v : Float) (b : ArAgingBucket Float)
      (xs : List (ArInvoice Float))
      → aged as_of db (into_bucket fl n v b) xs ≡ aged_with as_of db n v b xs
  aged_step as_of db n v b xs = elim (Bool-cases (n == 0)) [
    | inl e ↦
        let (t1, t2, t3, t4, t5) : Tests n true false false false false =
          (e, ground arith, ground arith, ground arith, ground arith) in
        let into : into_bucket fl n v b ≡ record b { current = add b.current v } = rw e refl in
        ap (λ k. aged as_of db k xs) into ∙ rw (t1, t2, t3, t4, t5) refl
    | inr e ↦ elim (Bool-cases (leb n 30)) [
      | inl e2 ↦
          let (t1, t2, t3, t4, t5) : Tests n false true false false false =
            (e, ground arith, ground arith, ground arith, ground arith) in
          let into : into_bucket fl n v b ≡ record b { bucket30 = add b.bucket30 v } =
            rw (e, e2) refl in
          ap (λ k. aged as_of db k xs) into ∙ rw (t1, t2, t3, t4, t5) refl
      | inr e2 ↦ elim (Bool-cases (leb n 60)) [
        | inl e3 ↦
            let (t1, t2, t3, t4, t5) : Tests n false false true false false =
              (e, ground arith, ground arith, ground arith, ground arith) in
            let into : into_bucket fl n v b ≡ record b { bucket60 = add b.bucket60 v } =
              rw (e, e2, e3) refl in
            ap (λ k. aged as_of db k xs) into ∙ rw (t1, t2, t3, t4, t5) refl
        | inr e3 ↦ elim (Bool-cases (leb n 90)) [
          | inl e4 ↦
              let (t1, t2, t3, t4, t5) : Tests n false false false true false =
                (e, ground arith, ground arith, ground arith, ground arith) in
              let into : into_bucket fl n v b ≡ record b { bucket90 = add b.bucket90 v } =
                rw (e, e2, e3, e4) refl in
              ap (λ k. aged as_of db k xs) into ∙ rw (t1, t2, t3, t4, t5) refl
          | inr e4 ↦
              let (t1, t2, t3, t4, t5) : Tests n false false false false true =
                (e, ground arith, ground arith, ground arith, ground arith) in
              let into : into_bucket fl n v b ≡ record b { bucket120 = add b.bucket120 v } =
                rw (e, e2, e3, e4) refl in
              ap (λ k. aged as_of db k xs) into ∙ rw (t1, t2, t3, t4, t5) refl
        ]
      ]
    ]
  ]

  aging_loop_lem :
      (as_of : ℕ) (db : Db Float) (b : ArAgingBucket Float) (xs : List (ArInvoice Float))
      → aging_loop fl as_of db b xs ≡ aged as_of db b xs
  unfolding aging_loop owed
  aging_loop_lem as_of db b [] = refl
  aging_loop_lem as_of db b (x ∷ xs) = elim (Bool-cases (le (balance_of fl x db) zero_float)) [
    | inl none_left ↦ rw none_left (aging_loop_lem as_of db b xs)
    | inr some_left ↦ rw some_left (
        aging_loop_lem as_of db (into_bucket fl (days_late fl as_of x) (balance_of fl x db) b) xs
        ∙ aged_step as_of db (days_late fl as_of x) (balance_of fl x db) b xs)
  ]

  -- The aging report: each bucket is the sum of the open balances of the posted invoices, among the
  -- newest thousand, that are late by the bucket's number of days, in the order of the list.
  pub calculate_ar_aging_lem :
      (as_of : ℕ) (db : Db Float)
      → (as_of == 0) ≡ false
      → calculate_ar_aging fl as_of db
        ≡ (ok (aged as_of db (empty_bucket fl) (outstanding fl db)), db)
  unfolding calculate_ar_aging
  calculate_ar_aging_lem as_of db given =
      rw given
        (ap (λ b. (ok b, db)) (aging_loop_lem as_of db (empty_bucket fl) (outstanding fl db)))
