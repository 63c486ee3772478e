-- ===== src/Common/Lists.antt =====
-- Tables as lists of rows, with the queries and updates that the statements run on them.
use Prim.Native.Nat.{ℕ, zero, suc, ◌+◌}
use mathlib.Core.Path.{◌≡◌, refl, ap, ◌∙◌}
use mathlib.Core.Logic.{◌≢◌, ◌⊎◌, inl, inr}
use mathlib.Core.Bool.{Bool, true, false, ◌||◌}
use mathlib.Core.Option.{Option, none, some}
use mathlib.Core.List.{List, [], ◌∷◌, ◌++◌, Memᴰ}
use native.Mathlib.Omega.{arith}
use odyssey_erp.Common.Tests.{if◌then◌else◌, Bool-cases}

-- A predicate of every row.
abbrev pub All {ℓ κ} : {A : Type ℓ} → (A → Type κ) → List A → Type κ
All P [] = Unit
All P (x ∷ xs) = P x × All P xs

module _ {ℓ} {A : Type ℓ} where
  abbrev pub length : List A → ℕ
  length [] = 0
  length (x ∷ xs) = suc (length xs)

  -- `SELECT ... WHERE p LIMIT 1`
  abbrev pub find : (A → Bool) → List A → Option A
  find p [] = none
  find p (x ∷ xs) = if p x then some x else find p xs

  -- `SELECT ... WHERE p`
  abbrev pub select : (A → Bool) → List A → List A
  select p [] = []
  select p (x ∷ xs) = let rest = select p xs in if p x then x ∷ rest else rest

  -- `UPDATE ... SET f WHERE p`
  abbrev pub update : (A → Bool) → (A → A) → List A → List A
  update p f [] = []
  update p f (x ∷ xs) = (if p x then f x else x) ∷ update p f xs

  -- `SELECT 1 ... WHERE p LIMIT 1`
  abbrev pub exists : (A → Bool) → List A → Bool
  exists p [] = false
  exists p (x ∷ xs) = p x || exists p xs

  -- `SELECT COUNT(*) ... WHERE p`
  abbrev pub count : (A → Bool) → List A → ℕ
  count p [] = 0
  count p (x ∷ xs) = (if p x then 1 else 0) + count p xs

-- Where a row of the result comes from, and what is among the rows that a query counts.
module _ {ℓ} {A : Type ℓ} where
  pub find-mem : (p : A → Bool) (xs : List A) {a : A} → find p xs ≡ some a → Memᴰ a xs
  find-mem p [] h = absurd (cc h)
  find-mem p (x ∷ xs) h = elim (Bool-cases (p x)) [
    | inl e ↦ Memᴰ.head (ground (arith, h))
    | inr e ↦ Memᴰ.tail (find-mem p xs (rw e at h))
  ]

  pub find-holds : (p : A → Bool) (xs : List A) {a : A} → find p xs ≡ some a → p a ≡ true
  find-holds p [] h = absurd (cc h)
  find-holds p (x ∷ xs) h = elim (Bool-cases (p x)) [
    | inl e ↦ ground (arith, h)
    | inr e ↦ find-holds p xs (rw e at h)
  ]

  pub find-none : (p : A → Bool) (xs : List A) {a : A} → find p xs ≡ none → Memᴰ a xs → p a ≡ false
  find-none p [] h m = elim m [ ]
  find-none p (x ∷ xs) h (Memᴰ.head e) = rw e (ground arith)
  find-none p (x ∷ xs) h (Memᴰ.tail m) = elim (Bool-cases (p x)) [
    | inl e ↦ absurd (ground arith)
    | inr e ↦ find-none p xs (rw e at h) m
  ]

  pub exists-false :
      (p : A → Bool) (xs : List A) {a : A} → exists p xs ≡ false → Memᴰ a xs → p a ≡ false
  exists-false p [] h m = elim m [ ]
  exists-false p (x ∷ xs) h (Memᴰ.head e) = rw e (ground arith)
  exists-false p (x ∷ xs) h (Memᴰ.tail m) = exists-false p xs (ground arith) m

  -- A row after an update is an old row, updated if it met the condition.
  pub mem-update :
      (p : A → Bool) (f : A → A) (xs : List A) {b : A}
      → Memᴰ b (update p f xs)
      → (a : A) × Memᴰ a xs × (b ≡ (if p a then f a else a))
  mem-update p f [] m = elim m [ ]
  mem-update p f (x ∷ xs) (Memᴰ.head e) = (x, Memᴰ.head refl, e)
  mem-update p f (x ∷ xs) (Memᴰ.tail m) =
      let (a, old, e) = mem-update p f xs m in (a, Memᴰ.tail old, e)

  -- A row after an insertion is an old row or the new one.
  pub mem-insert : (xs : List A) {a b : A} → Memᴰ b (xs ++ a ∷ []) → Memᴰ b xs ⊎ (b ≡ a)
  mem-insert [] (Memᴰ.head e) = inr e
  mem-insert [] (Memᴰ.tail m) = elim m [ ]
  mem-insert (x ∷ xs) (Memᴰ.head e) = inl (Memᴰ.head e)
  mem-insert (x ∷ xs) (Memᴰ.tail m) = elim (mem-insert xs m) [
    | inl old ↦ inl (Memᴰ.tail old)
    | inr e ↦ inr e
  ]

  -- Nothing is counted exactly if no row meets the condition.
  pub count-zero : (p : A → Bool) (xs : List A) {a : A} → count p xs ≡ 0 → Memᴰ a xs → p a ≡ false
  count-zero p [] h m = elim m [ ]
  count-zero p (x ∷ xs) h (Memᴰ.head e) = rw e (ground arith)
  count-zero p (x ∷ xs) h (Memᴰ.tail m) = count-zero p xs (ground arith) m

  pub count-mem : (p : A → Bool) (xs : List A) → count p xs ≢ 0 → (a : A) × Memᴰ a xs × (p a ≡ true)
  count-mem p [] h = absurd (h refl)
  count-mem p (x ∷ xs) h = elim (Bool-cases (p x)) [
    | inl e ↦ (x, Memᴰ.head refl, e)
    | inr e ↦ let (a, m, q) = count-mem p xs (ground arith) in (a, Memᴰ.tail m, q)
  ]

module _ {ℓ} {A : Type ℓ} where
  -- An old row is there after an update, updated if it met the condition.
  pub mem-update_of :
      (p : A → Bool) (f : A → A) (xs : List A) {a : A}
      → Memᴰ a xs
      → Memᴰ (if p a then f a else a) (update p f xs)
  mem-update_of p f [] m = elim m [ ]
  mem-update_of p f (x ∷ xs) (Memᴰ.head e) = Memᴰ.head (rw e)
  mem-update_of p f (x ∷ xs) (Memᴰ.tail m) = Memᴰ.tail (mem-update_of p f xs m)

  -- A lookup by the condition of an update that keeps the condition.
  pub find-update :
      (p : A → Bool) (f : A → A) (xs : List A) {a : A}
      → ((x : A) → p (f x) ≡ p x)
      → find p xs ≡ some a
      → find p (update p f xs) ≡ some (f a)
  find-update p f [] keeps h = absurd (cc h)
  find-update p f (x ∷ xs) {a} keeps h = elim (Bool-cases (p x)) [
    | inl e ↦ rw (e, keeps x, e) (ground (arith, h))
    | inr e ↦ rw (e, e) (find-update p f xs keeps (rw e at h))
  ]

  pub find-update-none :
      (p : A → Bool) (f : A → A) (xs : List A)
      → ((x : A) → p (f x) ≡ p x)
      → find p xs ≡ none
      → find p (update p f xs) ≡ none
  find-update-none p f [] keeps h = refl
  find-update-none p f (x ∷ xs) keeps h = elim (Bool-cases (p x)) [
    | inl e ↦ absurd (cc (rw e at h))
    | inr e ↦ rw (e, e) (find-update-none p f xs keeps (rw e at h))
  ]

  pub mem_of_exists :
      (p : A → Bool) (xs : List A) → exists p xs ≡ true → (a : A) × Memᴰ a xs × (p a ≡ true)
  mem_of_exists p [] h = absurd (cc h)
  mem_of_exists p (x ∷ xs) h = elim (Bool-cases (p x)) [
    | inl e ↦ (x, Memᴰ.head refl, e)
    | inr e ↦ let (a, m, q) = mem_of_exists p xs (rw e at h) in (a, Memᴰ.tail m, q)
  ]

module _ {ℓ} {A : Type ℓ} where
  pub find-append_found :
      (p : A → Bool) (xs ys : List A) {a : A} → find p xs ≡ some a → find p (xs ++ ys) ≡ some a
  find-append_found p [] ys h = absurd (cc h)
  find-append_found p (x ∷ xs) ys h = elim (Bool-cases (p x)) [
    | inl e ↦ rw e (rw e at h)
    | inr e ↦ rw e (find-append_found p xs ys (rw e at h))
  ]

  -- An update of other rows.
  pub find-update_apart :
      (p q : A → Bool) (f : A → A) (xs : List A) {a : A}
      → ((x : A) → q x ≡ true → p x ≡ false)
      → ((x : A) → p (f x) ≡ p x)
      → find p xs ≡ some a
      → find p (update q f xs) ≡ some a
  find-update_apart p q f [] apart keeps h = absurd (cc h)
  find-update_apart p q f (x ∷ xs) apart keeps h = elim (Bool-cases (q x)) [
    | inl e ↦
        rw (e, keeps x, apart x e) (find-update_apart p q f xs apart keeps (rw (apart x e) at h))
    | inr e ↦ elim (Bool-cases (p x)) [
      | inl f1 ↦ rw (e, f1) (rw f1 at h)
      | inr f1 ↦ rw (e, f1) (find-update_apart p q f xs apart keeps (rw f1 at h))
    ]
  ]

pub ++_assoc {ℓ} : {A : Type ℓ} (xs ys zs : List A) → (xs ++ ys) ++ zs ≡ xs ++ (ys ++ zs)
++_assoc [] ys zs = refl
++_assoc (x ∷ xs) ys zs = ap (λ l. x ∷ l) (++_assoc xs ys zs)

pub ++_nil {ℓ} : {A : Type ℓ} (xs : List A) → xs ++ [] ≡ xs
++_nil [] = refl
++_nil (x ∷ xs) = ap (λ l. x ∷ l) (++_nil xs)

-- A row that was inserted last is found, by a condition that it meets.
pub exists-append_last {ℓ} :
    {A : Type ℓ} (p : A → Bool) (xs : List A) (a : A) → p a ≡ true → exists p (xs ++ a ∷ []) ≡ true
exists-append_last p [] a h = rw h refl
exists-append_last p (x ∷ xs) a h = elim (Bool-cases (p x)) [
  | inl e ↦ rw e refl
  | inr e ↦ rw e (exists-append_last p xs a h)
]

pub length-append {ℓ} : {A : Type ℓ} (xs ys : List A) → length (xs ++ ys) ≡ length xs + length ys
length-append [] ys = omega arith
length-append (x ∷ xs) ys = rw (length-append xs ys) (omega arith)

-- LIMIT
abbrev pub take {ℓ} : {A : Type ℓ} → ℕ → List A → List A
take zero xs = []
take (suc n) [] = []
take (suc n) (x ∷ xs) = x ∷ take n xs

found_head {ℓ} :
    {A : Type ℓ} (p : A → Bool) (xs : List A) (x : A) {a : A}
    → p x ≡ true
    → find p (x ∷ xs) ≡ some a
    → x ≡ a
found_head p xs x e h = cc (rw e at h)

-- An update that does not meet the row that a query finds.
pub find-update_same {ℓ} :
    {A : Type ℓ} (p q : A → Bool) (f : A → A) (xs : List A) {a : A}
    → ((x : A) → p (f x) ≡ p x)
    → q a ≡ false
    → find p xs ≡ some a
    → find p (update q f xs) ≡ some a
find-update_same p q f [] keeps other h = absurd (cc h)
find-update_same p q f (x ∷ xs) {a} keeps other h = elim (Bool-cases (p x)) [
  | inl e ↦
      let same : q x ≡ false = ap q (found_head p xs x e h) ∙ other in rw (same, e) (rw e at h)
  | inr e ↦ elim (Bool-cases (q x)) [
    | inl e2 ↦ rw (e2, keeps x, e) (find-update_same p q f xs keeps other (rw e at h))
    | inr e2 ↦ rw (e2, e) (find-update_same p q f xs keeps other (rw e at h))
  ]
]

-- An update by another name.
pub update_ext {ℓ} :
    {A : Type ℓ} (p : A → Bool) (f g : A → A) (xs : List A)
    → ((x : A) → f x ≡ g x)
    → update p f xs ≡ update p g xs
update_ext p f g [] same = refl
update_ext p f g (x ∷ xs) same = elim (Bool-cases (p x)) [
  | inl e ↦ rw (e, same x) (ap (λ l. g x ∷ l) (update_ext p f g xs same))
  | inr e ↦ rw e (ap (λ l. x ∷ l) (update_ext p f g xs same))
]

-- A lookup of a row that an update does not meet.
pub find-update_others {ℓ} :
    {A : Type ℓ} (p q : A → Bool) (f : A → A) (xs : List A)
    → ((x : A) → q x ≡ true → p x ≡ false)
    → ((x : A) → p (f x) ≡ p x)
    → find p (update q f xs) ≡ find p xs
find-update_others p q f [] apart keeps = refl
find-update_others p q f (x ∷ xs) apart keeps =
    let rest = find-update_others p q f xs apart keeps in
    elim (Bool-cases (q x)) [
      | inl e ↦ rw (e, keeps x, apart x e) rest
      | inr e ↦ elim (Bool-cases (p x)) [ inl g ↦ rw (e, g) refl | inr g ↦ rw (e, g) rest ]
    ]
