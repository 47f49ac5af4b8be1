-- ===== src/Tests/Numbers.antt =====
-- Document numbers of one day.
use remote_order_server.Common.{◌≡◌, refl, List, [], ◌∷◌, Text, codes, true}
use remote_order_server.DocNumber.{date_prefix, starts_with, decimal, generate_doc_number}
use remote_order_server.DocNumber.Repeats.{generate_doc_number-repeats}
use remote_order_server.Tests.{clock}

-- A number of the day and one of another day.
abbrev first : Text
first = codes "1902261"

abbrev others : List Text
others = codes "1802261" ∷ []

second : generate_doc_number clock (first ∷ others) 3 ≡ codes "1902262"
unfolding generate_doc_number starts_with decimal
second = refl

of_the_day : starts_with (date_prefix clock 3) first ≡ true
unfolding starts_with date_prefix
of_the_day = refl

generate_doc_number-repeats_example :
    generate_doc_number clock (generate_doc_number clock (first ∷ others) 3 ∷ others) 3
    ≡ generate_doc_number clock (first ∷ others) 3
generate_doc_number-repeats_example = generate_doc_number-repeats clock first others 3 of_the_day
