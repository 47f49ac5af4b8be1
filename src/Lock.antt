-- ===== src/Lock.antt =====
-- middleware/lockMiddleware.ts
pub mod Paths
use remote_order_server.Common.{
  Bool, true, false, ◌&&◌, Option, none, some, List, [], ◌∷◌, Text, codes, if◌then◌else◌, text_or,
}
use remote_order_server.Db.{Lock}
use remote_order_server.DocNumber.{starts_with}

pub data Method : Type 0 where
  get post put patch delete other : Method

-- ['POST', 'PUT', 'PATCH', 'DELETE'].includes(req.method)
unfoldable pub modifies : Method → Bool
modifies post = true
modifies put = true
modifies patch = true
modifies delete = true
modifies _ = false

abbrev pub protected_paths : List Text
protected_paths =
    codes "/api/realizations"
    ∷ codes "/api/goods-receipt"
    ∷ codes "/api/buyer-returns"
    ∷ codes "/api/price-documents"
    ∷ codes "/api/orders"
    ∷ []

unfoldable pub some_prefix : List Text → Text → Bool
unfolding starts_with
some_prefix [] path = false
some_prefix (p ∷ ps) path = if starts_with p path then true else some_prefix ps path

pub data Outcome : Type 0 where
  next : Outcome
  locked_503 : Text → Outcome

abbrev pub default_reason : Text
default_reason = codes "Document reposting in progress. Please wait."

-- The row of the query, if the query succeeds and finds one; a query that fails lets the request
-- through, as a missing row does.
unfoldable pub lock_middleware : Option Lock → Method → Text → Outcome
lock_middleware row method path =
    if modifies method && some_prefix protected_paths path
    then elim row [
      | none ↦ next
      | some l ↦ if l.is_locked then locked_503 (text_or l.reason default_reason) else next
    ]
    else next
