-- ===== src/Metric/Tests.antt =====
-- The metrics with natural numbers for `double`: they are exact, and count no further than needed.
use http_proxy.Base.{
  ℕ, ◌+◌, ◌-◌, ◌/◌, ◌≤◌, ◌≡◌, refl, true, false, none, some, List, [], ◌∷◌, codes, ltb, arith,
}
use http_proxy.Metric.{
  Doubles, no_metrics, metric_get_value_string, metric_new_connection, metric_close_connection,
}
use http_proxy.Metric.Peak.{Event, opened, closed, after_all, Order, Peak, after_all-Peak}

abbrev naturals : Doubles ℕ
naturals = record {
  zero_d = 0;
  one_d = 1;
  add = λ a b. a + b;
  sub = λ a b. a - b;
  div = λ a b. a / b;
  gt = λ a b. ltb b a;
  print = λ digits n. (b'0' + n) ∷ [];
}

not_more : (a b : ℕ) → ltb b a ≡ false → a ≤ b
not_more a b h = ground arith

abbrev naturals_order : Order naturals
naturals_order = record {
  Le = λ a b. a ≤ b;
  le_refl = λ a. omega arith;
  not_gt = not_more;
  sub_one = λ a b h. omega arith;
}

-- Two connections, one of which is closed after five seconds, and a third.
abbrev events : List (Event ℕ)
events =
    opened true 10
    ∷ opened true 12
    ∷ closed 15 (record { init_time = 10; end_time = none })
    ∷ opened true 16
    ∷ []

after_all-Peak_example :
    Peak naturals naturals_order (after_all naturals events (no_metrics naturals))
after_all-Peak_example =
    after_all-Peak naturals naturals_order events (no_metrics naturals) (omega arith)

max_text :
    metric_get_value_string naturals 1 (after_all naturals events (no_metrics naturals))
    ≡ some (codes "2")
unfolding metric_get_value_string metric_new_connection metric_close_connection
max_text = refl
