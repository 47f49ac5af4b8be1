-- ===== src/Common/Keys.antt =====
-- Primary keys: rows of which no two have one key.
use remote_order_server.Common.Tests.{◌==◌, ==_refl, Bool-cases}
use remote_order_server.Common.Lists.{All, All-map, All-append}
use remote_order_server.Common.Sql.{find, update_where}
use Prim.Native.Nat.{ℕ}
use mathlib.Core.Path.{◌≡◌, refl, sym, ap, ap₂, ◌∙◌}
use mathlib.Core.Logic.{inl, inr}
use mathlib.Core.Bool.{Bool, true, false}
use mathlib.Core.Option.{some}
use mathlib.Core.List.{List, [], ◌∷◌, ◌++◌, map}
use native.Mathlib.Omega.{arith}

abbrev pub Distinct : List ℕ → Type 0
Distinct [] = Unit
Distinct (n ∷ ns) = All (λ m. (m == n) ≡ false) ns × Distinct ns

module _ {A : Type 0} (key : A → ℕ) where
  -- No two rows have one key.
  abbrev pub IsKey : List A → Type 0
  IsKey xs = Distinct (map key xs)

  pub All-keys :
      (n i : ℕ) (xs : List A)
      → (n == i) ≡ true
      → All (λ m. (m == n) ≡ false) (map key xs)
      → All (λ x. (key x == i) ≡ false) xs
  All-keys n i [] e h = tt
  All-keys n i (x ∷ xs) e h = (ground (arith, h.0), All-keys n i xs e h.1)

  pub update_where-none :
      (p : A → Bool) (f : A → A) (xs : List A)
      → All (λ x. p x ≡ false) xs
      → update_where p f xs ≡ xs
  update_where-none p f [] h = refl
  update_where-none p f (x ∷ xs) h = rw h.0 (ap (λ r. x ∷ r) (update_where-none p f xs h.1))

  -- An UPDATE by key sets one row.
  pub update_by_key :
      (i : ℕ) (f g : A → A) (xs : List A) {x : A}
      → IsKey xs
      → find (λ y. key y == i) xs ≡ some x
      → f x ≡ g x
      → update_where (λ y. key y == i) f xs ≡ update_where (λ y. key y == i) g xs
  update_by_key i f g [] u e h = refl
  update_by_key i f g (y ∷ xs) {x} u e h = elim (Bool-cases (key y == i)) [
    | inl k ↦
        let others = All-keys (key y) i xs k u.0 in
        let same : y ≡ x = ground arith in
        rw
          (
            k,
            update_where-none (λ z. key z == i) f xs others,
            update_where-none (λ z. key z == i) g xs others,
          )
          (ap (λ r. r ∷ xs) (ap f same ∙ h ∙ ap g (sym same)))
    | inr k ↦ rw (k, update_by_key i f g xs u.1 (rw k at e) h)
  ]

  pub keys-update_where :
      (p : A → Bool) (f : A → A) (xs : List A)
      → ((x : A) → key (f x) ≡ key x)
      → map key (update_where p f xs) ≡ map key xs
  keys-update_where p f [] keep = refl
  keys-update_where p f (x ∷ xs) keep = elim (Bool-cases (p x)) [
    | inl e ↦ rw e (ap₂ ◌∷◌ (keep x) (keys-update_where p f xs keep))
    | inr e ↦ rw e (ap₂ ◌∷◌ refl (keys-update_where p f xs keep))
  ]

  -- An INSERT of a row with a new key.
  pub keys-append :
      (t : A) (ts : List A)
      → All (λ u. (key u == key t) ≡ false) ts
      → IsKey ts
      → IsKey (ts ++ t ∷ [])
  keys-append t [] h k = (tt, tt)
  keys-append t (u ∷ ts) h k = (
    All-map _ key (ts ++ t ∷ []) (
        All-append _ ts _ (All-keys (key u) (key u) ts (==_refl (key u)) k.0)
          (ground (arith, h.0), tt)),
    keys-append t ts h.1 k.1,
  )
