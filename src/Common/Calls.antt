-- ===== src/Common/Calls.antt =====
-- A service call on a database: it returns a result or an error, and the database as it then is.
-- What was written before an error stays written, unless a transaction rolls it back.
use mathlib.Core.Path.{◌≡◌, refl, subst, ap}
use mathlib.Core.Bool.{Bool, true, false}
use mathlib.Core.List.{List, [], ◌∷◌}
use mathlib.Core.Logic.{◌⊎◌, inl, inr}
use mathlib.Core.Option.{Option, none, some}
use odyssey_erp.Common.Tests.{if◌then◌else◌}

pub data Result (E A : Type 0) : Type 0 where
  ok : A → Result E A
  err : E → Result E A

abbrev pub Action : Type 0 → Type 0 → Type 0 → Type 0
Action S E A = S → Result E A × S

module _ {S E A : Type 0} where
  abbrev pub pure : A → Action S E A
  pure a s = (ok a, s)

  abbrev pub raise : E → Action S E A
  raise e s = (err e, s)

  abbrev pub gets : (S → A) → Action S E A
  gets f s = (ok (f s), s)

  -- An absent row is the error.
  abbrev pub or_raise : Option A → E → Action S E A
  or_raise none e = raise e
  or_raise (some a) e = pure a

  -- A transaction: the writes of a body that ends in an error are rolled back.
  abbrev pub settle : S → Result E A × S → Result E A × S
  settle s (ok a, s') = (ok a, s')
  settle s (err e, s') = (err e, s)

  abbrev pub with_tx : Action S E A → Action S E A
  with_tx body s = settle s (body s)

abbrev pub and_then : {S E A B : Type 0} → (A → Action S E B) → Result E A × S → Result E B × S
and_then f (ok a, s) = f a s
and_then f (err e, s) = (err e, s)

infixl 5 ◌>>=◌ ◌>>◌
abbrev pub ◌>>=◌ : {S E A B : Type 0} → Action S E A → (A → Action S E B) → Action S E B
◌>>=◌ m f s = and_then f (m s)

abbrev pub ◌>>◌ : {S E A B : Type 0} → Action S E A → Action S E B → Action S E B
m >> k = m >>= λ _. k

-- `if c { return e }`
abbrev pub raise_if : {S E : Type 0} → Bool → E → Action S E (Unit {0})
raise_if c e s = if c then (err e, s) else (ok tt, s)

abbrev pub modify : {S E : Type 0} → (S → S) → Action S E (Unit {0})
modify f s = (ok tt, f s)

abbrev pub for_each :
    {S E A : Type 0} → List A → (A → Action S E (Unit {0})) → Action S E (Unit {0})
for_each [] f = pure tt
for_each (x ∷ xs) f = f x >> for_each xs f

-- Inversion of calls that end without an error.
module _ {S E A B : Type 0} where
  and_then-ok :
      (r : Result E A × S) (f : A → Action S E B) {b : B} {t : S}
      → and_then f r ≡ (ok b, t)
      → (a : A) × (s : S) × (r ≡ (ok a, s)) × (f a s ≡ (ok b, t))
  and_then-ok (ok a, s) f h = (a, s, refl, h)
  and_then-ok (err e, s) f h = absurd (cc h)

  pub >>=-ok :
      (m : Action S E A) (f : A → Action S E B) (s : S) {b : B} {t : S}
      → (m >>= f) s ≡ (ok b, t)
      → (a : A) × (s' : S) × (m s ≡ (ok a, s')) × (f a s' ≡ (ok b, t))
  >>=-ok m f s h = and_then-ok (m s) f h

module _ {S E A : Type 0} where
  settle-ok : (s : S) (r : Result E A × S) {a : A} {t : S} → settle s r ≡ (ok a, t) → r ≡ (ok a, t)
  settle-ok s (ok b, s') h = h
  settle-ok s (err e, s') h = absurd (cc h)

  settle-err : (s : S) (r : Result E A × S) {e : E} {t : S} → settle s r ≡ (err e, t) → t ≡ s
  settle-err s (ok b, s') h = absurd (cc h)
  settle-err s (err e, s') h = cc

  pub with_tx-ok :
      (m : Action S E A) (s : S) {a : A} {t : S} → with_tx m s ≡ (ok a, t) → m s ≡ (ok a, t)
  with_tx-ok m s h = settle-ok s (m s) h

  -- A transaction that ends in an error has written nothing.
  pub with_tx-err : (m : Action S E A) (s : S) {e : E} {t : S} → with_tx m s ≡ (err e, t) → t ≡ s
  with_tx-err m s h = settle-err s (m s) h

-- A test that let the call go on.
pub raise_if-ok :
    {S E : Type 0} (c : Bool) (e : E) (s : S) {u : Unit {0}} {t : S}
    → raise_if c e s ≡ (ok u, t)
    → (c ≡ false) × (t ≡ s)
raise_if-ok true e s h = absurd (cc h)
raise_if-ok false e s h = (refl, cc)

-- A row that is there.
pub or_raise-ok :
    {S E A : Type 0} (o : Option A) (e : E) (s : S) {a : A} {t : S}
    → or_raise o e s ≡ (ok a, t)
    → (o ≡ some a) × (t ≡ s)
or_raise-ok none e s h = absurd (cc h)
or_raise-ok (some a) e s h = (cc, cc)

pub Result-cases :
    {E A : Type 0} (r : Result E A) → ((a : A) × (r ≡ ok a)) ⊎ ((e : E) × (r ≡ err e))
Result-cases (ok a) = inl (a, refl)
Result-cases (err e) = inr (e, refl)

-- What holds after a transaction: what held before it, and after a body that ended well.
module _ {κ} {S E A : Type 0} (P : S → Type κ) where
  settle-state :
      (s : S) (r : Result E A × S)
      → P s
      → ((a : A) (t : S) → r ≡ (ok a, t) → P t)
      → P (settle s r).1
  settle-state s (ok a, t) before after = after a t refl
  settle-state s (err e, t) before after = before

  pub with_tx-state :
      (m : Action S E A) (s : S)
      → P s
      → ((a : A) (t : S) → m s ≡ (ok a, t) → P t)
      → P (with_tx m s).1
  with_tx-state m s before after = settle-state s (m s) before after

-- The same inversion for a goal: its variables stay variables, which keeps a long chain small.
pub >>=-elim {κ} :
    {S E A B : Type 0} {Q : Type κ} (m : Action S E A) (f : A → Action S E B) (s : S) {b : B}
    {t : S}
    → (m >>= f) s ≡ (ok b, t)
    → ((a : A) (s' : S) → m s ≡ (ok a, s') → f a s' ≡ (ok b, t) → Q)
    → Q
>>=-elim m f s h k = let (a, s', first, rest) = >>=-ok m f s h in k a s' first rest

-- What a call and what follows it both keep.
pub and_then-state {κ} :
    {S E A B : Type 0} (P : S → Type κ) (f : A → Action S E B) (r : Result E A × S)
    → P r.1
    → ((a : A) (s : S) → P s → P (f a s).1)
    → P (and_then f r).1
and_then-state P f (ok a, s) h keep = keep a s h
and_then-state P f (err e, s) h keep = h

-- Where an error of a chain comes from.
module _ {S E A B : Type 0} where
  and_then-err :
      (r : Result E A × S) (f : A → Action S E B) {e : E} {t : S}
      → and_then f r ≡ (err e, t)
      → (r ≡ (err e, t)) ⊎ ((a : A) × (s : S) × (r ≡ (ok a, s)) × (f a s ≡ (err e, t)))
  and_then-err (ok a, s) f h = inr (a, s, refl, h)
  and_then-err (err x, s) f h = inl (cc)

  pub >>=-err :
      (m : Action S E A) (f : A → Action S E B) (s : S) {e : E} {t : S}
      → (m >>= f) s ≡ (err e, t)
      → (m s ≡ (err e, t)) ⊎ ((a : A) × (s' : S) × (m s ≡ (ok a, s')) × (f a s' ≡ (err e, t)))
  >>=-err m f s h = and_then-err (m s) f h

pub pure-ok :
    {S E A : Type 0} {a b : A} {s t : S} → pure {S = S} {E = E} a s ≡ (ok b, t) → (b ≡ a) × (t ≡ s)
pure-ok h = (cc, cc)

pub Answer-cases :
    {S E A : Type 0} (r : Result E A × S)
    → ((a : A) × (s : S) × (r ≡ (ok a, s))) ⊎ ((e : E) × (s : S) × (r ≡ (err e, s)))
Answer-cases (ok a, s) = inl (a, s, refl)
Answer-cases (err e, s) = inr (e, s, refl)

-- A call after which a property of the state still holds, whether or not it ends in an error.
abbrev pub Keeps {κ} : {S E A : Type 0} → (S → Type κ) → Action S E A → Type κ
Keeps {S} P m = (s : S) → P s → P (m s).1

module _ {κ} {S E : Type 0} (P : S → Type κ) where
  pub >>=-Keeps :
      {A B : Type 0} (m : Action S E A) (f : A → Action S E B)
      → Keeps P m
      → ((a : A) → Keeps P (f a))
      → Keeps P (m >>= f)
  >>=-Keeps m f first rest s h = and_then-state P f (m s) (first s h) (λ a t. rest a t)

  pub raise_if-Keeps : (c : Bool) (e : E) → Keeps P (raise_if {S = S} c e)
  raise_if-Keeps true e s h = h
  raise_if-Keeps false e s h = h

  pub or_raise-Keeps : {A : Type 0} (o : Option A) (e : E) → Keeps P (or_raise {S = S} o e)
  or_raise-Keeps none e s h = h
  or_raise-Keeps (some a) e s h = h

  pub for_each-Keeps :
      {A : Type 0} (xs : List A) (f : A → Action S E (Unit {0}))
      → ((a : A) → Keeps P (f a))
      → Keeps P (for_each xs f)
  for_each-Keeps [] f keep s h = h
  for_each-Keeps (x ∷ xs) f keep s h =
      >>=-Keeps (f x) (λ u. for_each xs f) (keep x) (λ u. for_each-Keeps xs f keep) s h

  pub with_tx-Keeps : {A : Type 0} (m : Action S E A) → Keeps P m → Keeps P (with_tx m)
  with_tx-Keeps m keep s h = with_tx-state P m s h (λ a t e. subst P (ap (λ r. r.1) e) (keep s h))
