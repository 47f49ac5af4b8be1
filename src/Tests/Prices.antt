-- ===== src/Tests/Prices.antt =====
-- Prices that are set and seen, and paths that are locked.
use remote_order_server.Common.{◌≡◌, refl, true, none, some, ◌++◌, All, codes, text_eq, text_or}
use remote_order_server.Common.Int.{pos}
use remote_order_server.Db.{Lock, PriceEntry}
use remote_order_server.Pricing.{
  PriceList, PriceSetParams, price_of, with_price, has_price, standard, price_for_user,
}
use remote_order_server.Lock.{
  post, modifies, lock_middleware, locked_503, next, protected_paths, default_reason,
}
use remote_order_server.Lock.Paths.{lock_middleware-paths}
use remote_order_server.Tests.{product_7}

abbrev prices : PriceList
prices = product_7.prices

retail_sees :
    price_for_user (some (some (codes "retail"))) (with_price standard (pos 20) prices)
    ≡ some (pos 20)
unfolding price_for_user price_of with_price has_price text_eq
retail_sees = refl

abbrev params : PriceSetParams
params = record {
  product_id = 7;
  new_price = pos 20;
  price_type_id = none;
  user_id = none;
  reason = none;
  effective_date = some 2000;
}

abbrev entry : PriceEntry
entry = record {
  product_id = 7;
  price_type_id = none;
  old_price = price_of standard prices;
  new_price = pos 20;
  effective_date = 2000;
  created_by = none;
  reason = none;
  created_at = 1000;
}

-- The date is in the future.
abbrev held : Lock
held = record { is_locked = true; locked_by = none; reason = some (codes "Bulk") }

lock_middleware-paths_example :
    (held.is_locked ≡ true
      → modifies post ≡ true
      → All
          (λ p.
            lock_middleware (some held) post (p ++ codes "/9/post")
            ≡ locked_503 (text_or held.reason default_reason))
          protected_paths)
    × (lock_middleware (some held) post (codes "/api/supplier-returns" ++ codes "/9/post") ≡ next)
lock_middleware-paths_example = lock_middleware-paths (some held) held post (codes "/9/post")
