-- ===== src/Reports/Periods.antt =====
-- Sums over the rows of a period, and over those before it.
use remote_order_server.Common.{
  ℕ, suc, ◌≤◌, ◌≡◌, sym, ◌∙◌, true, false, Option, none, some, List, ◌&&◌, if◌then◌else◌, sum_by,
  sum_by_congr, sum_by_add, All, arith, Bool-cases, inl, inr, leb, ltb, [], ◌∷◌,
}
use remote_order_server.Common.Int.{ℤ, pos, ◌+ℤ◌, +ℤ-zero, zero-+ℤ}
use remote_order_server.Reports.{in_period, midnight}

-- The period opens no later than the day after its last, or has no first day.
abbrev pub Opens : Option ℕ → ℕ → Type 0
Opens none day = Unit
Opens (some first) day = first ≤ suc day

midnight_mono : (a b : ℕ) → a ≤ b → midnight a ≤ midnight b
unfolding midnight
midnight_mono a b h = omega arith

pub all_of : {A : Type 0} (P : A → Type 0) (xs : List A) → ((x : A) → P x) → All P xs
all_of P [] f = tt
all_of P (x ∷ xs) f = (f x, all_of P xs f)

split_at :
    (n : ℤ) (t first end : ℕ)
    → first ≤ end
    → (if ltb t first then n else pos 0) +ℤ (if leb first t && ltb t end then n else pos 0)
      ≡ (if ltb t end then n else pos 0)
split_at n t first end h = elim (Bool-cases (ltb t first)) [
  | inl e ↦
      let late : leb first t ≡ false = ground arith in
      let early : ltb t end ≡ true = ground arith in rw (e, late, early) (+ℤ-zero n)
  | inr e ↦ let late : leb first t ≡ true = ground arith in rw (e, late) (zero-+ℤ _)
]

module _ {A : Type 0} (w : A → ℤ) (date : A → ℕ) where
  -- What came before a moment.
  abbrev pub before : ℕ → List A → ℤ
  before moment = sum_by (λ x. if ltb (date x) moment then w x else pos 0)

  abbrev pub within : Option ℕ → Option ℕ → List A → ℤ
  within from to = sum_by (λ x. if in_period from to (date x) then w x else pos 0)

  abbrev pub opening : Option ℕ → List A → ℤ
  opening none xs = pos 0
  opening (some day) xs = before (midnight day) xs

  -- What came before a period and what came in it are what came before its end.
  pub period_closes :
      (from : Option ℕ) (day : ℕ) (xs : List A)
      → Opens from day
      → opening from xs +ℤ within from (some day) xs ≡ before (midnight (suc day)) xs
  unfolding in_period
  period_closes none day xs o = zero-+ℤ _
  period_closes (some first) day xs o =
      sym (sum_by_add _ _ xs)
      ∙ sum_by_congr _ _ xs (
          all_of _ xs (λ x.
            split_at (w x) (date x) (midnight first) (midnight (suc day))
              (midnight_mono first (suc day) o)))
