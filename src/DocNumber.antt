-- ===== src/DocNumber.antt =====
-- utils/docNumberGenerator.ts: DDMMYY and the count of the day's documents plus one.
pub mod Repeats
use Prim.Native.Nat.{◌/◌, ◌%◌}
use remote_order_server.Common.{
  ℕ, zero, suc, ◌+◌, Bool, true, false, ◌&&◌, List, [], ◌∷◌, ◌++◌, ◌==◌, ltb, if◌then◌else◌, Text,
  select, length, reverse,
}
use remote_order_server.Db.{Env}

-- The decimal digits of a number, before those in `acc`; a number has fewer digits than its value
-- plus one.
decimal_loop : ℕ → ℕ → Text → Text
decimal_loop zero n acc = acc
decimal_loop (suc fuel) n acc =
    let more = decimal_loop fuel (n / 10) ((48 + n % 10) ∷ acc) in
    if ltb n 10 then (48 + n) ∷ acc else more

-- String(n)
unfoldable pub decimal : ℕ → Text
unfolding decimal_loop
decimal n = decimal_loop (suc n) n []

-- padStart(2, '0')
pad_2 : Text → Text
pad_2 [] = 48 ∷ 48 ∷ []
pad_2 (c ∷ []) = 48 ∷ c ∷ []
pad_2 (c ∷ d ∷ t) = c ∷ d ∷ t

take_2 : Text → Text
take_2 (c ∷ d ∷ t) = c ∷ d ∷ []
take_2 t = t

-- slice(-2)
last_2 : Text → Text
unfolding take_2
last_2 t = reverse (take_2 (reverse t))

unfoldable pub date_prefix : Env → ℕ → Text
unfolding decimal pad_2 last_2
date_prefix env date =
    pad_2 (decimal (env.day_of date))
    ++ (pad_2 (decimal (env.month_of date)) ++ last_2 (decimal (env.year_of date)))

-- `LIKE prefix%`, for a prefix of digits
unfoldable pub starts_with : Text → Text → Bool
starts_with [] t = true
starts_with (c ∷ p) [] = false
starts_with (c ∷ p) (d ∷ t) = c == d && starts_with p t

-- The numbers of the table's rows come as a list.
unfoldable pub generate_doc_number : Env → List Text → ℕ → Text
unfolding date_prefix starts_with
generate_doc_number env numbers date =
    date_prefix env date
    ++ decimal (length (select (starts_with (date_prefix env date)) numbers) + 1)
