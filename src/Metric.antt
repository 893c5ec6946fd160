-- ===== src/Metric.antt =====
-- metric.c: the counters of the proxy. Arithmetic on `double`, the clock and `sprintf` are arguments.
pub mod Peak
mod Tests
use http_proxy.Base.{
  ℕ, zero, suc, Bool, true, false, Option, none, some, List, [], ◌∷◌, Bytes, codes, ◌==◌, ltb, leb,
  if◌then◌else◌, ℤ, pos, negsuc,
}

-- What is used of `double`: the constants 0 and 1, the operations, `>`, and the text that `sprintf`
-- writes with as many digits behind the point as the first argument says.
pub record Doubles (D : Type 0) : Type 0 where
  pub zero_d : D
  pub one_d : D
  pub add : D → D → D
  pub sub : D → D → D
  pub div : D → D → D
  pub gt : D → D → Bool
  pub print : ℕ → D → Bytes

-- `metrics`, by the names of its indices, and `connection_time_sum`.
pub record Metrics (D : Type 0) : Type 0 where
  pub inst_concurrent_connections : D
  pub max_concurrent_connections : D
  pub accesses : D
  pub transfered_bytes : D
  pub avg_connection_time : D
  pub connection_time_sum : D

abbrev pub metrics_enum_size : ℕ
metrics_enum_size = 5

-- `metrics[number] = value`, for a number in range.
abbrev pub put_metric : {D : Type 0} → ℕ → D → Metrics D → Metrics D
put_metric zero x ms = record ms { inst_concurrent_connections = x }
put_metric (suc zero) x ms = record ms { max_concurrent_connections = x }
put_metric (suc (suc zero)) x ms = record ms { accesses = x }
put_metric (suc (suc (suc zero))) x ms = record ms { transfered_bytes = x }
put_metric (suc (suc (suc (suc _)))) x ms = record ms { avg_connection_time = x }

abbrev pub get_metric : {D : Type 0} → ℕ → Metrics D → D
get_metric zero ms = ms.inst_concurrent_connections
get_metric (suc zero) ms = ms.max_concurrent_connections
get_metric (suc (suc zero)) ms = ms.accesses
get_metric (suc (suc (suc zero))) ms = ms.transfered_bytes
get_metric (suc (suc (suc (suc _)))) ms = ms.avg_connection_time

unfoldable pub metric_create : {D : Type 0} → ℕ → D → Metrics D → ℤ × Metrics D
metric_create number value ms =
    if leb metrics_enum_size number then (negsuc 0, ms) else (pos 0, put_metric number value ms)

-- The text that is written to `value`; `none` when nothing is.
unfoldable pub metric_get_value_string : {D : Type 0} → Doubles D → ℕ → Metrics D → Option Bytes
metric_get_value_string F index ms =
    if leb metrics_enum_size index
    then none
    else if index == 4
    then some (F.print 6 (get_metric index ms))
    else some (F.print 0 (get_metric index ms))

unfoldable pub metric_get_name : ℕ → Option Bytes
metric_get_name zero = some (codes "inst_concurrent_conections")
metric_get_name (suc zero) = some (codes "max_concurrent_connections")
metric_get_name (suc (suc zero)) = some (codes "acceses")
metric_get_name (suc (suc (suc zero))) = some (codes "transfered_bytes")
metric_get_name (suc (suc (suc (suc zero)))) = some (codes "avg_connection_time")
metric_get_name (suc (suc (suc (suc (suc _))))) = none

abbrev pub metric_get_size : ℕ
metric_get_size = metrics_enum_size

-- `struct connection_time`; the times are seconds of the clock.
pub record ConnectionTime (D : Type 0) : Type 0 where
  pub init_time : D
  pub end_time : Option D

-- The first argument behind the arithmetic says whether `malloc` returns memory, the next one is the
-- time.
unfoldable pub metric_new_connection :
    {D : Type 0} → Doubles D → Bool → D → Metrics D → Option (ConnectionTime D) × Metrics D
metric_new_connection {D} F allocated now ms =
    let inst = F.add ms.inst_concurrent_connections F.one_d in
    let ms' : Metrics D = record ms { inst_concurrent_connections = inst } in
    let contime : ConnectionTime D = record { init_time = now; end_time = none } in
    if allocated
    then (
      some contime,
      if F.gt inst ms.max_concurrent_connections
          then record ms' { max_concurrent_connections = inst }
          else ms',
    )
    else (none, ms)

unfoldable pub metric_close_connection :
    {D : Type 0} → Doubles D → D → ConnectionTime D → Metrics D → ConnectionTime D × Metrics D
metric_close_connection F now contime ms =
    let accesses = F.add ms.accesses F.one_d in
    let sum = F.add ms.connection_time_sum (F.sub now contime.init_time) in
    (
      record contime { end_time = some now },
      record ms {
        inst_concurrent_connections = F.sub ms.inst_concurrent_connections F.one_d;
        accesses = accesses;
        connection_time_sum = sum;
        avg_connection_time = F.div sum accesses;
      },
    )

unfoldable pub metric_add_transfered_bytes : {D : Type 0} → Doubles D → D → Metrics D → Metrics D
metric_add_transfered_bytes F curr_transfered_bytes ms = record ms {
  transfered_bytes = F.add ms.transfered_bytes curr_transfered_bytes;
}

-- The static variables at the start.
abbrev pub no_metrics : {D : Type 0} → Doubles D → Metrics D
no_metrics F = record {
  inst_concurrent_connections = F.zero_d;
  max_concurrent_connections = F.zero_d;
  accesses = F.zero_d;
  transfered_bytes = F.zero_d;
  avg_connection_time = F.zero_d;
  connection_time_sum = F.zero_d;
}
