-- ===== src/Lock/Paths.antt =====
-- Which requests the lock middleware stops.
use remote_order_server.Common.{
  ◌≡◌, refl, Bool-cases, inl, inr, true, Option, some, ◌++◌, All, Text, codes, text_or,
}
use remote_order_server.Db.{Lock}
use remote_order_server.DocNumber.{starts_with}
use remote_order_server.Lock.{
  Method, modifies, lock_middleware, locked_503, next, protected_paths, default_reason, some_prefix,
}

-- While the system is locked, a request that modifies and whose path begins with one of the
-- protected paths is answered with 503 and the reason of the lock. A request whose path begins with
-- '/api/supplier-returns' passes, whatever its method and the lock: the list does not name it.
pub lock_middleware-paths :
    (row : Option Lock) (l : Lock) (m : Method) (rest : Text)
    → (l.is_locked ≡ true
        → modifies m ≡ true
        → All
            (λ p.
              lock_middleware (some l) m (p ++ rest) ≡ locked_503 (text_or l.reason default_reason))
            protected_paths)
      × (lock_middleware row m (codes "/api/supplier-returns" ++ rest) ≡ next)
unfolding lock_middleware some_prefix starts_with
lock_middleware-paths row l m rest = (
  λ h k. rw (h, k) (refl, (refl, (refl, (refl, (refl, tt))))),
  elim (Bool-cases (modifies m)) [ inl k ↦ rw k refl | inr k ↦ rw k refl ],
)
