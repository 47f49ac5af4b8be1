-- ===== src/Tx.antt =====
-- A piece of server code that runs queries: it reads and writes the tables and may throw. What was
-- written before a throw stays written until a transaction rolls it back.
use remote_order_server.Common.{
  ◌≡◌, refl, sym, ap, ◌∙◌, subst, ℕ, Bool, Option, none, some, Text, if◌then◌else◌,
}
use remote_order_server.Common.Int.{ℤ}
use remote_order_server.Db.{Db}

-- The name of the product in the error of `deductStock`, or its id where it has no name.
pub data ProductLabel : Type 0 where
  by_name : Text → ProductLabel
  by_id : ℕ → ProductLabel

pub data Error : Type 0 where
  not_found already_posted not_posted cannot_edit_posted cannot_delete_posted : Error
  already_sold : Error
  sold_more : ℤ → Error
  insufficient_stock : ProductLabel → ℤ → ℤ → Error
  price_type_not_found product_not_found : ℕ → Error
  system_locked : Error
  in_document : Error → Error
  -- a column that may not be NULL, or a key that is there already
  rejected : Error
  access_denied : Error

pub data Result {ℓ} (A : Type ℓ) : Type ℓ where
  ok : A → Result A
  err : Error → Result A

abbrev pub Tx : Type 0 → Type 0
Tx A = Db → Result A × Db

module _ {A : Type 0} where
  abbrev pub pure : A → Tx A
  pure a db = (ok a, db)

  abbrev pub throw : Error → Tx A
  throw e db = (err e, db)

  abbrev pub gets : (Db → A) → Tx A
  gets f db = (ok (f db), db)

  abbrev pub or_throw : Option A → Error → Tx A
  or_throw none e = throw e
  or_throw (some a) e = pure a

  -- What COMMIT and ROLLBACK leave behind.
  abbrev pub settle : Db → Result A × Db → Result A × Db
  settle before (ok a, after) = (ok a, after)
  settle before (err e, after) = (err e, before)

  -- BEGIN, the body, and COMMIT, or ROLLBACK before the error is thrown on.
  abbrev pub transaction : Tx A → Tx A
  transaction m db = settle db (m db)

  -- `txClient` given: the body runs inside the caller's transaction.
  abbrev pub in_transaction : Bool → Tx A → Tx A
  in_transaction tx_client m = if tx_client then m else transaction m

infixl 5 ◌>>=◌ ◌>>◌
abbrev pub ◌>>=◌ : {A B : Type 0} → Tx A → (A → Tx B) → Tx B
◌>>=◌ m f db = let (r, db') = m db in elim r [ ok a ↦ f a db' | err e ↦ (err e, db') ]

abbrev pub ◌>>◌ : {A B : Type 0} → Tx A → Tx B → Tx B
m >> k = m >>= λ _. k

abbrev pub throw_if : Bool → Error → Tx (Unit {0})
throw_if c e db = (if c then err e else ok tt, db)

abbrev pub modify : (Db → Db) → Tx (Unit {0})
modify f db = (ok tt, f db)

abbrev Returned : {A : Type 0} → Result A → Type 0
Returned (ok a) = Unit
Returned (err e) = ⊥

abbrev value_or : {A : Type 0} → A → Result A → A
value_or d (ok a) = a
value_or d (err e) = d

-- Inversion of a bind that returns.
pub >>=-ok :
    {A B : Type 0} (m : Tx A) (f : A → Tx B) (db : Db) {b : B} {db' : Db}
    → (m >>= f) db ≡ (ok b, db')
    → (a : A) × (mid : Db) × (m db ≡ (ok a, mid)) × (f a mid ≡ (ok b, db'))
>>=-ok m f db {b} {db'} h = go (m db) refl h
  where
    go :
        (r : Result _ × Db)
        → m db ≡ r
        → (elim r.0 [ ok a ↦ f a r.1 | err e ↦ (err e, r.1) ]) ≡ (ok b, db')
        → (a : _) × (mid : Db) × (m db ≡ (ok a, mid)) × (f a mid ≡ (ok b, db'))
    go (ok a, mid) e k = (a, mid, e, k)
    go (err c, mid) e k = absurd (subst (λ r. Returned r.0) (sym k) tt)

-- A call cannot both throw and return.
pub thrown-ne-returned :
    {A : Type 0} (m : Result A × Db) {e : Error} {db db' : Db} {a : A}
    → m ≡ (err e, db)
    → m ≡ (ok a, db')
    → ⊥
thrown-ne-returned m p q = subst (λ r. Returned r.0) (sym q ∙ p) tt

-- What a call returns is determined, and so is what it leaves.
pub returned-same :
    {A : Type 0} (m : Result A × Db) {a b : A} {db db' : Db}
    → m ≡ (ok a, db)
    → m ≡ (ok b, db')
    → (b ≡ a) × (db' ≡ db)
returned-same m {a} {b} p q = (ap (λ r. value_or b r.0) (sym q ∙ p), ap (λ r. r.1) (sym q ∙ p))

-- A transaction that throws is rolled back.
pub settle-err :
    {A : Type 0} (before : Db) (r : Result A × Db) {e : Error} {db' : Db}
    → settle before r ≡ (err e, db')
    → db' ≡ before
settle-err before (ok a, after) h = absurd (subst (λ r. Returned r.0) h tt)
settle-err before (err c, after) h = sym (ap (λ r. r.1) h)
