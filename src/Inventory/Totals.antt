-- ===== src/Inventory/Totals.antt =====
-- Sums over deductions, links and batches.
use remote_order_server.Common.{ℕ, List, ◌==◌, if◌then◌else◌, sum_by}
use remote_order_server.Common.Int.{ℤ, pos}
use remote_order_server.Db.{Deduction, ItemBatch, ProductBatch}

-- What the deductions took from one batch.
abbrev pub taken : ℕ → List Deduction → ℤ
taken i = sum_by (λ d. if d.batch_id == i then d.quantity else pos 0)

-- What the items of a link table took from one batch.
abbrev pub used : ℕ → List ItemBatch → ℤ
used i = sum_by (λ l. if l.deduction.batch_id == i then l.deduction.quantity else pos 0)

-- What is left in the batches with one id.
abbrev pub held : ℕ → List ProductBatch → ℤ
held i = sum_by (λ b. if b.id == i then b.quantity_left else pos 0)

abbrev pub left_total : List ProductBatch → ℤ
left_total = sum_by (λ b. b.quantity_left)

abbrev pub taken_total : List Deduction → ℤ
taken_total = sum_by (λ d. d.quantity)
