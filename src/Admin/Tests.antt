-- ===== src/Admin/Tests.antt =====
-- An administrator's requests to a proxy with one configuration.
use http_proxy.Base.{
  ℕ, ◌+◌, ◌≡◌, refl, true, false, none, some, List, [], ◌∷◌, ◌++◌, Bytes, codes, arith,
}
use http_proxy.Config.{config_get_name, config_get_from_index, closed}
use http_proxy.Metric.{Doubles, no_metrics}
use http_proxy.MsgQueue.{empty_queue}
use http_proxy.MsgQueue.Fifo.{Holds}
use http_proxy.Serializer.{Msg, serialize_msg}
use http_proxy.Admin.{Admin, list_configs, get_config_type, end_message, entry_message, send_config}
use http_proxy.Admin.Writing.{write_all, arriving, Packets, write_all-arriving}

-- No number is calculated with or printed in these requests but the index.
abbrev counts : Doubles ℕ
counts = record {
  zero_d = 0;
  one_d = 1;
  add = λ a b. a + b;
  sub = λ a b. a;
  div = λ a b. a;
  gt = λ a b. false;
  print = λ digits n. [];
}

abbrev digit : ℕ → Bytes
digit n = (b'0' + n) ∷ []

abbrev unset : Msg
unset = record { type = 0; param = 7; buffer_size = 0; buffer = [] }

abbrev cat : Bytes
cat = codes "cat"

abbrev admin : Admin ℕ
admin = record {
  configs = record { name = codes "cmd"; value = closed cat } ∷ [];
  metrics = no_metrics counts;
  queue = empty_queue;
  mallocs = λ k. true;
}

abbrev list_request : Msg
list_request = record { type = 2; param = 0; buffer_size = 0; buffer = [] }

abbrev reply : Msg
reply = entry_message counts digit unset get_config_type 0 (codes "cmd") cat

reply_text : reply.buffer ≡ codes "(0)cmd: cat" ++ (0 ∷ [])
reply_text = refl

-- The two bytes that are stored have no closing 0, and the next reply reads behind them.
abbrev unclosed : Admin ℕ
unclosed = record admin { configs = record { name = codes "cmd"; value = codes "tr" } ∷ [] }

read_behind : send_config counts digit unset 0 unclosed ≡ none
unfolding send_config config_get_name config_get_from_index
read_behind = refl

-- The reply, and the end of the list behind it.
abbrev two_waiting : Admin ℕ
two_waiting = record admin {
  queue = record {
    nodes =
        record { msg = reply; next = some 1 }
        ∷ record { msg = end_message counts digit unset list_configs; next = none }
        ∷ [];
    first = some 0;
    last = some 1;
  };
}

abbrev packets : List Bytes
packets = elim (serialize_msg reply) [
  | none ↦ []
  | some p ↦ elim (serialize_msg (end_message counts digit unset list_configs)) [
    | none ↦ []
    | some p' ↦ p ∷ p' ∷ []
  ]
]

waiting-Packets : Packets (reply ∷ end_message counts digit unset list_configs ∷ []) packets
unfolding serialize_msg
waiting-Packets = (refl, omega arith, (refl, omega arith, tt))

-- The first of the two packets is lost.
write_all-arriving_example :
    (s' : Admin ℕ) × (write_all (false ∷ true ∷ []) two_waiting
      ≡ some (arriving (false ∷ true ∷ []) packets, s'))
    × Holds s'.queue []
write_all-arriving_example =
    write_all-arriving (false ∷ true ∷ [])
      (reply ∷ end_message counts digit unset list_configs ∷ []) packets two_waiting
      (0, 1, refl, refl, (1, omega arith, refl, (refl, refl))) waiting-Packets refl
