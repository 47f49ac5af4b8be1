-- ===== src/DocNumber/Repeats.antt =====
-- When the generator gives one number twice.
use remote_order_server.Common.{ℕ, ◌≡◌, refl, true, List, [], ◌∷◌, ◌++◌, arith, ==_refl, Text}
use remote_order_server.Db.{Env}
use remote_order_server.DocNumber.{date_prefix, starts_with, generate_doc_number}

starts_with-append : (p t : Text) → starts_with p (p ++ t) ≡ true
unfolding starts_with
starts_with-append [] t = refl
starts_with-append (c ∷ p) t = ground (arith, ==_refl c, starts_with-append p t)

-- The generator counts the numbers of the day. If a document of that day is deleted after the
-- generator gave a number to a new one, then the next number of the day is that number again.
pub generate_doc_number-repeats :
    (env : Env) (old : Text) (numbers : List Text) (date : ℕ)
    → starts_with (date_prefix env date) old ≡ true
    → generate_doc_number env (generate_doc_number env (old ∷ numbers) date ∷ numbers) date
      ≡ generate_doc_number env (old ∷ numbers) date
unfolding generate_doc_number
generate_doc_number-repeats env old numbers date h = rw (h, starts_with-append) refl
