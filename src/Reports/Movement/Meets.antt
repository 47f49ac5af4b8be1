-- ===== src/Reports/Movement/Meets.antt =====
-- The movement of a product over a period and over the next.
use remote_order_server.Common.{
  ℕ, suc, ◌≤◌, ◌≡◌, refl, sym, ap₂, ◌∙◌, Bool, true, false, some, List, if◌then◌else◌,
  sum_by-select, sum_by_congr, if_same, ltb,
}
use remote_order_server.Common.Int.{ℤ, pos, ◌+ℤ◌, int_laws, parts_of_eq}
use remote_order_server.Db.{Db}
use remote_order_server.Reports.{in_period, midnight}
use remote_order_server.Reports.Periods.{before, within, period_closes, all_of}
use remote_order_server.Reports.Movement.{
  Event, arrivals, departures, is_about, start_sum, period_sum, turnover,
}

-- The quantity of an event of a product.
abbrev pub moved : ℕ → Event → ℤ
moved p e = if is_about p e then e.quantity else pos 0

swap_ifs :
    (a b : Bool) (n : ℤ)
    → (if a then (if b then n else pos 0) else pos 0)
      ≡ (if b then (if a then n else pos 0) else pos 0)
swap_ifs true b n = refl
swap_ifs false b n = sym (if_same b (pos 0))

module _ (p : ℕ) where
  pub start_sum-before :
      (day : ℕ) (es : List Event)
      → start_sum p day es ≡ before (moved p) (λ e. e.date) (midnight day) es
  unfolding start_sum
  start_sum-before day es =
      sum_by-select _ (is_about p) es
      ∙ sum_by_congr _ _ es
          (all_of _ es (λ e. swap_ifs (is_about p e) (ltb e.date (midnight day)) e.quantity))

  period_sum-within :
      (from to : ℕ) (es : List Event)
      → period_sum p from to es ≡ within (moved p) (λ e. e.date) (some from) (some to) es
  unfolding period_sum
  period_sum-within from to es =
      sum_by-select _ (is_about p) es
      ∙ sum_by_congr _ _ es (
          all_of _ es
            (λ e. swap_ifs (is_about p e) (in_period (some from) (some to) e.date) e.quantity))

  -- What was there and what came is what is there on the next day.
  pub sums_close :
      (from to : ℕ) (es : List Event)
      → from ≤ suc to
      → start_sum p from es +ℤ period_sum p from to es ≡ start_sum p (suc to) es
  sums_close from to es o =
      ap₂ ◌+ℤ◌ (start_sum-before from es) (period_sum-within from to es)
      ∙ period_closes (moved p) (λ e. e.date) (some from) to es o
      ∙ sym (start_sum-before (suc to) es)

-- The closing quantity of a period is the opening one of a period that begins on the next day, for
-- every product, if the period does not end before it begins.
turnover-next :
    (from to later w p : ℕ) (db : Db)
    → from ≤ suc to
    → (turnover from to w db p).closing ≡ (turnover (suc to) later w db p).start
unfolding turnover
turnover-next from to later w p db o = omega (
  int_laws,
  parts_of_eq (sums_close p from to (arrivals w db) o),
  parts_of_eq (sums_close p from to (departures w db) o),
)
