-- ===== src/Tests/Planner.antt =====
-- Visits of clients.
use remote_order_server.Common.{refl, some, none, List, [], ◌∷◌, codes, ◌≡◌}
use remote_order_server.Schedule.{
  Visit, add, set_status, set_day, is_day, is_client, clients_on_day,
}
use remote_order_server.Schedule.Valid.{
  IsValid, here, step, adds, sets_status, sets_day, Reach-IsValid,
}

abbrev first_visits : List Visit
first_visits = (add (41 ∷ []) 1 (some 3) (some 41) []).1

abbrev done_visits : List Visit
done_visits = (set_status (codes "done") 1 first_visits).1

Reach-IsValid_example : IsValid (set_day none 1 done_visits).1
Reach-IsValid_example =
    Reach-IsValid
      (step
        (step (step here (adds (41 ∷ []) 1 (some 3) (some 41) []))
          (sets_status (codes "done") 1 first_visits))
        (sets_day none 1 done_visits))
      tt

-- A visit that is added without a day is on no day.
lost : clients_on_day 3 (add (41 ∷ []) 1 none (some 41) []).1 ≡ []
unfolding add is_day is_client
lost = refl
