-- ===== src/Journals/Validation.antt =====
-- PostingInput.Validate (internal/accounting/journals/dto.go) against a description without a loop.
use odyssey_erp.Common.{
  ℕ, suc, ◌≤◌, false, ◌&&◌, ◌||◌, ◌≡◌, ◌≢◌, ◌↔◌, refl, sym, ap, ◌∙◌, List, [], ◌∷◌, All, length, ok,
  Bool-cases, Result-cases, inl, inr, ◌==◌, ltb, str_eq, str_eq_iff, arith, String,
}
use odyssey_erp.Common.Float.{FloatOps}
use odyssey_erp.Journals.Model.{PostingLineInput, PostingInput, validate, check_lines, check_sums}

str_apart : {a b : String} → str_eq a b ≡ false → a ≢ b
str_apart {a} {b} h e = cc ((str_eq_iff a b).1 e, h)

apart_str : {a b : String} → a ≢ b → str_eq a b ≡ false
apart_str {a} {b} n = elim (Bool-cases (str_eq a b)) [
  | inl same ↦ absurd (n ((str_eq_iff a b).0 same))
  | inr other ↦ other
]

==_apart : (a b : ℕ) → a ≢ b → (a == b) ≡ false
==_apart a b n = ground arith

module _ (fl : FloatOps) where
  open fl use {Float, zero as zero_float, add, lt, format2}

  unfoldable pub sum_debit : Float → List (PostingLineInput Float) → Float
  sum_debit acc [] = acc
  sum_debit acc (l ∷ ls) = sum_debit (add acc l.debit) ls

  unfoldable pub sum_credit : Float → List (PostingLineInput Float) → Float
  sum_credit acc [] = acc
  sum_credit acc (l ∷ ls) = sum_credit (add acc l.credit) ls

  abbrev pub GoodLine : PostingLineInput Float → Type 0
  GoodLine l =
      ((l.account_id == 0) ≡ false)
      × (lt l.debit zero_float ≡ false)
      × (lt l.credit zero_float ≡ false)
      × ((lt zero_float l.debit && lt zero_float l.credit) ≡ false)

  abbrev pub GoodInput : PostingInput Float → Type 0
  GoodInput i =
      (i.period_id ≢ 0)
      × (2 ≤ length i.lines)
      × All GoodLine i.lines
      × (format2 (sum_debit zero_float i.lines) ≡ format2 (sum_credit zero_float i.lines))
      × (i.source_module ≢ "")
      × (i.source_id ≢ 0)

  check_lines-ok :
      (k : ℕ) (d c : Float) (ls : List (PostingLineInput Float)) {s : Float × Float}
      → check_lines fl k d c ls ≡ ok s
      → All GoodLine ls × (s ≡ (sum_debit d ls, sum_credit c ls))
  unfolding check_lines sum_debit sum_credit
  check_lines-ok k d c [] h = (tt, cc)
  check_lines-ok k d c (l ∷ ls) h = elim (Bool-cases (l.account_id == 0)) [
    | inl bad ↦ absurd (cc (rw bad at h))
    | inr g1 ↦ elim (Bool-cases (lt l.debit zero_float || lt l.credit zero_float)) [
      | inl bad ↦ absurd (cc (rw (g1, bad) at h))
      | inr g2 ↦ elim (Bool-cases (lt zero_float l.debit && lt zero_float l.credit)) [
        | inl bad ↦ absurd (cc (rw (g1, g2, bad) at h))
        | inr g3 ↦
            let (rest, e) =
              check_lines-ok (suc k) (add d l.debit) (add c l.credit) ls (rw (g1, g2, g3) at h) in
            (((g1, ground arith, ground arith, g3), rest), e)
      ]
    ]
  ]

  check_lines-good :
      (k : ℕ) (d c : Float) (ls : List (PostingLineInput Float))
      → All GoodLine ls
      → check_lines fl k d c ls ≡ ok (sum_debit d ls, sum_credit c ls)
  unfolding check_lines sum_debit sum_credit
  check_lines-good k d c [] h = refl
  check_lines-good k d c (l ∷ ls) ((g1, g2, g3, g4), rest) =
      rw (g1, g2, g3, g4) (check_lines-good (suc k) (add d l.debit) (add c l.credit) ls rest)

  abbrev GoodSums : PostingInput Float → Float × Float → Type 0
  GoodSums i s = (format2 s.0 ≡ format2 s.1) × (i.source_module ≢ "") × (i.source_id ≢ 0)

  check_sums-ok :
      (i : PostingInput Float) (s : Float × Float) → check_sums fl i s ≡ ok tt → GoodSums i s
  unfolding check_sums
  check_sums-ok i (d, c) h = elim (Bool-cases (str_eq (format2 d) (format2 c))) [
    | inr bad ↦ absurd (cc (rw bad at h))
    | inl g1 ↦ elim (Bool-cases (str_eq i.source_module "")) [
      | inl bad ↦ absurd (cc (rw (g1, bad) at h))
      | inr g2 ↦ elim (Bool-cases (i.source_id == 0)) [
        | inl bad ↦ absurd (cc (rw (g1, g2, bad) at h))
        | inr g3 ↦ ((str_eq_iff (format2 d) (format2 c)).0 g1, str_apart g2, ground arith)
      ]
    ]
  ]

  check_sums-good :
      (i : PostingInput Float) (s : Float × Float) → GoodSums i s → check_sums fl i s ≡ ok tt
  unfolding check_sums
  check_sums-good i (d, c) (g1, g2, g3) =
      rw ((str_eq_iff (format2 d) (format2 c)).1 g1, apart_str g2, ==_apart i.source_id 0 g3) refl

  validate-good : (i : PostingInput Float) → GoodInput i → validate fl i ≡ ok tt
  unfolding validate
  validate-good i (g1, g2, g3, g4, g5, g6) =
      let long : ltb (length i.lines) 2 ≡ false = ground arith in
      rw (==_apart i.period_id 0 g1, long, check_lines-good 0 zero_float zero_float i.lines g3)
        (check_sums-good i _ (g4, g5, g6))

  validate-GoodInput : (i : PostingInput Float) → validate fl i ≡ ok tt → GoodInput i
  unfolding validate
  validate-GoodInput i h = elim (Bool-cases (i.period_id == 0)) [
    | inl bad ↦ absurd (cc (rw bad at h))
    | inr g1 ↦ elim (Bool-cases (ltb (length i.lines) 2)) [
      | inl bad ↦ absurd (cc (rw (g1, bad) at h))
      | inr g2 ↦ elim (Result-cases (check_lines fl 0 zero_float zero_float i.lines)) [
        | inr (e, bad) ↦ absurd (cc (rw (g1, g2, bad) at h))
        | inl (s, done) ↦
            let (good, es) = check_lines-ok 0 zero_float zero_float i.lines done in
            let (sums, named, sourced) = check_sums-ok i s (rw (g1, g2, done) at h) in
            (
              ground arith,
              ground arith,
              good,
              sym (ap (λ x. format2 x.0) es) ∙ sums ∙ ap (λ x. format2 x.1) es,
              named,
              sourced,
            )
      ]
    ]
  ]

  -- An input is accepted exactly if it names a period and a source, has two lines at least, each with
  -- an account, no negative amount and one positive side at most, and its two sums, as they are
  -- written with two decimals, are the same text.
  pub validate_lem : (i : PostingInput Float) → (validate fl i ≡ ok tt) ↔ GoodInput i
  validate_lem i = (validate-GoodInput i, validate-good i)
