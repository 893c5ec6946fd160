-- ===== src/Admin.antt =====
-- admin_actions.c and admin_handlers.c: the requests of the administrator and the replies to them.
-- A `malloc` whose result the code tests may return NULL; the others are taken to return memory. `none`
-- is a read or write out of bounds.
pub mod Replies
pub mod Writing
mod Tests
use http_proxy.Base.{
  ℕ, zero, suc, ◌+◌, ◌%◌, Bool, true, false, Option, none, some, ◌>>=◌, List, [], ◌∷◌, ◌++◌, Bytes,
  codes, ◌==◌, ltb, leb, if◌then◌else◌, ℤ, pos, negsuc, length, take, int_is_pos,
}
use http_proxy.Config.{
  Configs, max_name, config_get_name, config_get_from_index, config_get_size, config_set_from_index,
}
use http_proxy.Metric.{Doubles, Metrics, metric_get_name, metric_get_size, metric_get_value_string}
use http_proxy.MsgQueue.{Queue, q_offer, q_poll, q_is_empty}
use http_proxy.Serializer.{Msg, serialize_msg, deserialize_msg}

-- `enum type`
abbrev pub list_metrics : ℕ
list_metrics = 1

abbrev pub list_configs : ℕ
list_configs = 2

abbrev pub get_metric_type : ℕ
get_metric_type = 3

abbrev pub get_config_type : ℕ
get_config_type = 4

abbrev pub set_config_type : ℕ
set_config_type = 5

abbrev pub error_type : ℕ
error_type = 6

-- `enum error_type`
abbrev pub config_not_found : ℕ
config_not_found = 0

abbrev pub metric_not_found : ℕ
metric_not_found = 1

abbrev pub config_not_set : ℕ
config_not_set = 2

abbrev pub invalid_length : ℕ
invalid_length = 3

abbrev pub unexpected_error : ℕ
unexpected_error = 4

-- What the requests work on, and whether the `malloc`s that the code tests return memory, the next one
-- first.
pub record Admin (D : Type 0) : Type 0 where
  pub configs : Configs
  pub metrics : Metrics D
  pub queue : Queue
  pub mallocs : ℕ → Bool

abbrev pub shift : (ℕ → Bool) → ℕ → Bool
shift f k = f (suc k)

-- Behind a `malloc`.
abbrev pub after_malloc : {D : Type 0} → Admin D → Admin D
after_malloc s = record s { mallocs = shift s.mallocs }

-- The C string at the start of some memory; `none` without a closing 0.
abbrev pub c_string : Bytes → Option Bytes
c_string [] = none
c_string (c ∷ cs) =
    let rest = c_string cs in
    if c == 0 then some [] else elim rest [ none ↦ none | some str ↦ some (c ∷ str) ]

-- The C string in an array `name`, which a name of 21 bytes fills.
abbrev pub c_name : Bytes → Option Bytes
c_name stored = if ltb max_name (length stored) then none else some stored

-- The first `n` bytes of some memory; `none` when it has less.
abbrev pub copied : ℕ → Bytes → Option Bytes
copied n memory = if ltb (length memory) n then none else some (take n memory)

-- The arguments: `double` arithmetic, what `sprintf` writes for `%d`, and what is in the memory that
-- `malloc` returns for a message.
module _ {D : Type 0} (F : Doubles D) (print_int : ℕ → Bytes) (junk : Msg) where
  abbrev pub send : Msg → Admin D → Option (Admin D)
  send m s = elim (q_offer true m s.queue) [
    | none ↦ none
    | some (_, q) ↦ some (record s { queue = q })
  ]

  abbrev pub end_message : ℕ → Msg
  end_message msg_type = record junk { type = msg_type; buffer_size = 0 }

  abbrev pub error_message : ℕ → Msg
  error_message error = record junk { type = error_type; buffer_size = 0; param = error }

  -- "(number)name: value"
  abbrev pub entry_text : ℕ → Bytes → Bytes → Bytes
  entry_text number title text =
      b'(' ∷ (print_int number ++ (b')' ∷ (title ++ (b':' ∷ (b' ' ∷ (text ++ (0 ∷ [])))))))

  abbrev pub entry_message : ℕ → ℕ → Bytes → Bytes → Msg
  entry_message msg_type number title text = record junk {
    type = msg_type;
    buffer_size = length (entry_text number title text);
    buffer = entry_text number title text;
  }

  abbrev pub send_end_of_list : ℕ → Admin D → Option (Admin D)
  send_end_of_list msg_type s = send (end_message msg_type) s

  abbrev pub send_error : ℕ → Admin D → Option (Admin D)
  send_error error s = send (error_message error) s

  -- The memory for a reply with a text, and that for the text; without one, an error is sent.
  abbrev pub send_text : Msg → Admin D → Option (Admin D)
  send_text m s =
      if s.mallocs 0
      then (if s.mallocs 1
          then send m (after_malloc (after_malloc s))
          else send_error unexpected_error (after_malloc (after_malloc s)))
      else send_error unexpected_error (after_malloc s)

  -- Behind the lookup of the name: `value` has room for 30 bytes.
  abbrev pub send_metric_named : ℕ → Admin D → Bytes → Option (Admin D)
  send_metric_named metric s title = elim (metric_get_value_string F metric s.metrics) [
    | none ↦ send_error unexpected_error s
    | some [] ↦ send_error unexpected_error s
    | some (c ∷ text) ↦
        if ltb (length text + 1) 30
        then send_text (entry_message get_metric_type metric title (c ∷ text)) s
        else none
  ]

  unfoldable pub send_metric : ℕ → Admin D → Option (Admin D)
  send_metric metric s = elim (metric_get_name metric) [
    | none ↦ send_error metric_not_found s
    | some title ↦ send_metric_named metric s title
  ]

  abbrev pub send_config_named : ℕ → Admin D → Bytes → Option (Admin D)
  send_config_named config s title = elim (config_get_from_index config s.configs) [
    | none ↦ send_error unexpected_error s
    | some memory ↦
        c_string memory >>= λ text. send_text (entry_message get_config_type config title text) s
  ]

  unfoldable pub send_config : ℕ → Admin D → Option (Admin D)
  send_config config s = elim (config_get_name config s.configs) [
    | none ↦ send_error config_not_found s
    | some stored ↦ c_name stored >>= send_config_named config s
  ]

  -- The loops, with the rounds that are left; an `unsigned char` is sent.
  unfoldable pub metrics_loop : ℕ → ℕ → Admin D → Option (Admin D)
  unfolding send_metric
  metrics_loop zero i s = some s
  metrics_loop (suc n) i s = send_metric i s >>= metrics_loop n ((i + 1) % 256)

  unfoldable pub configs_loop : ℕ → ℕ → Admin D → Option (Admin D)
  unfolding send_config
  configs_loop zero i s = some s
  configs_loop (suc n) i s = send_config (i % 256) s >>= configs_loop n (i + 1)

  unfoldable pub send_list_metrics : Admin D → Option (Admin D)
  unfolding metrics_loop
  send_list_metrics s = metrics_loop metric_get_size 0 s >>= send_end_of_list list_metrics

  unfoldable pub send_list_configs : Admin D → Option (Admin D)
  unfolding configs_loop
  send_list_configs s =
      configs_loop (config_get_size s.configs) 0 s >>= send_end_of_list list_configs

  -- Behind `config_set_from_index`, with its result.
  abbrev pub stored : Admin D → ℤ × Configs → Option (Admin D)
  stored s (pos _, cs) =
      if s.mallocs 0
      then send (end_message set_config_type) (after_malloc (record s { configs = cs }))
      else send_error unexpected_error (after_malloc (record s { configs = cs }))
  stored s (negsuc _, cs) = send_error config_not_set (record s { configs = cs })

  unfoldable pub check_set_config : ℕ → Bytes → ℕ → Admin D → Option (Admin D)
  check_set_config config value value_len s =
      if leb (config_get_size s.configs) config
      then send_error config_not_found s
      else if int_is_pos value_len
      then (if s.mallocs 0
          then (copied value_len value >>= λ val.
              stored (after_malloc s) (config_set_from_index config val s.configs))
          else send_error unexpected_error (after_malloc s))
      else send_error invalid_length s

  -- The switch on the type of a request; `check_credentials` does nothing.
  unfoldable pub answer : Msg → Admin D → Option (Admin D)
  unfolding send_list_metrics send_list_configs send_metric send_config check_set_config
  answer m s =
      if m.type == list_metrics
      then send_list_metrics s
      else if m.type == list_configs
      then send_list_configs s
      else if m.type == get_metric_type
      then send_metric m.param s
      else if m.type == get_config_type
      then send_config m.param s
      else if m.type == set_config_type
      then check_set_config m.param m.buffer m.buffer_size s
      else some s

  -- The state behind `deserialize_msg`, which allocates memory for a string.
  abbrev pub after_request : ℕ → Admin D → Admin D
  after_request buffer_size s = if int_is_pos buffer_size then after_malloc s else s

  -- `malloc` in `deserialize_msg`, where `fresh` is what the memory of some size holds.
  abbrev pub request_malloc : (ℕ → Bytes) → Admin D → ℕ → Option Bytes
  request_malloc fresh s n = if s.mallocs 0 then some (fresh n) else none

  -- The second argument is the memory at `buffer` behind `sctp_recvmsg`. That `deserialize_msg` returns
  -- NULL is not tested.
  unfoldable pub admin_read_handler : (ℕ → Bytes) → Bytes → Admin D → Option (Admin D)
  unfolding answer
  admin_read_handler fresh buffer s = elim (deserialize_msg (request_malloc fresh s) junk buffer) [
    | none ↦ none
    | some (m, rest) ↦ answer m (after_request m.buffer_size s)
  ]

-- MAX_MSG_SIZE
abbrev pub max_msg_size : ℕ
max_msg_size = 1024

-- The message is serialized into a buffer of that size and given to `sctp_sendmsg`; `sends` says whether
-- that succeeds. What leaves is `none` when it fails, which is only printed.
abbrev pub sent_message : {D : Type 0} → Bool → Admin D → Bytes → Option (Option Bytes × Admin D)
sent_message sends s bytes =
    if ltb max_msg_size (length bytes) then none else some (if sends then some bytes else none, s)

unfoldable pub admin_write_handler : {D : Type 0} → Bool → Admin D → Option (Option Bytes × Admin D)
admin_write_handler sends s = if q_is_empty s.queue then some (none, s) else elim (q_poll s.queue) [
  | none ↦ none
  | some (none, q) ↦ none
  | some (some m, q) ↦ serialize_msg m >>= sent_message sends (record s { queue = q })
]
