-- ===== src/Metric/Peak.antt =====
-- The largest number of connections at once.
use http_proxy.Base.{◌≡◌, Bool, true, false, List, [], ◌∷◌, Bool-cases, inl, inr}
use http_proxy.Metric.{
  Doubles, Metrics, ConnectionTime, metric_new_connection, metric_close_connection,
  metric_add_transfered_bytes,
}

-- What happens to the metrics: a connection is opened, with memory for its times or without, one is
-- closed, and bytes are sent.
pub data Event (D : Type 0) : Type 0 where
  opened : Bool → D → Event D
  closed : D → ConnectionTime D → Event D
  sent : D → Event D

abbrev pub after : {D : Type 0} → Doubles D → Event D → Metrics D → Metrics D
after F (opened allocated now) ms = (metric_new_connection F allocated now ms).1
after F (closed now contime) ms = (metric_close_connection F now contime ms).1
after F (sent n) ms = metric_add_transfered_bytes F n ms

abbrev pub after_all : {D : Type 0} → Doubles D → List (Event D) → Metrics D → Metrics D
after_all F [] ms = ms
after_all F (e ∷ es) ms = after_all F es (after F e ms)

-- An order of the numbers that `>` tests, in which taking 1 away gives no larger number.
pub record Order {D : Type 0} (F : Doubles D) : Type 1 where
  pub Le : D → D → Type 0
  pub le_refl : (a : D) → Le a a
  pub not_gt : (a b : D) → F.gt a b ≡ false → Le a b
  pub sub_one : (a b : D) → Le a b → Le (F.sub a F.one_d) b

module _ {D : Type 0} (F : Doubles D) (O : Order F) where
  abbrev pub Peak : Metrics D → Type 0
  Peak ms = O.Le ms.inst_concurrent_connections ms.max_concurrent_connections

  opened-Peak :
      (allocated : Bool) (now : D) (ms : Metrics D)
      → Peak ms
      → Peak ((metric_new_connection F allocated now ms).1)
  unfolding metric_new_connection
  opened-Peak false now ms h = h
  opened-Peak true now ms h =
      let inst = F.add ms.inst_concurrent_connections F.one_d in
      elim (Bool-cases (F.gt inst ms.max_concurrent_connections)) [
        | inl more ↦ rw more (O.le_refl inst)
        | inr less ↦ rw less (O.not_gt inst ms.max_concurrent_connections less)
      ]

  after-Peak : (e : Event D) (ms : Metrics D) → Peak ms → Peak (after F e ms)
  unfolding metric_close_connection metric_add_transfered_bytes
  after-Peak (opened allocated now) ms h = opened-Peak allocated now ms h
  after-Peak (closed now contime) ms h = O.sub_one _ _ h
  after-Peak (sent n) ms h = h

  -- For numbers on which `>` tests an order, and in which taking 1 away gives no larger one, whatever
  -- connections are opened and closed and bytes sent, the number of connections is never above the
  -- maximum that the metrics report.
  pub after_all-Peak : (es : List (Event D)) (ms : Metrics D) → Peak ms → Peak (after_all F es ms)
  after_all-Peak [] ms h = h
  after_all-Peak (e ∷ es) ms h = after_all-Peak es (after F e ms) (after-Peak e ms h)
