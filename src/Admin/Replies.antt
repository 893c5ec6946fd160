-- ===== src/Admin/Replies.antt =====
-- The replies that wait for the administrator behind a request.
use http_proxy.Base.{
  ℕ, ◌+◌, ◌≤◌, ◌<◌, ◌≡◌, Bool, true, false, Option, some, ◌>>=◌, List, [], ◌∷◌, ◌++◌, Bytes, length,
  take, int_is_pos, if◌then◌else◌,
}
use http_proxy.Config.{Entry, Configs, set_value}
use http_proxy.Metric.{Doubles}
use http_proxy.MsgQueue.Fifo.{Holds}
use http_proxy.Serializer.{Msg}
use http_proxy.Admin.{
  Admin, shift, get_config_type, set_config_type, config_not_found, invalid_length,
  unexpected_error, c_string, c_name, end_message, error_message, entry_message, send_text,
}

-- What a request leads to: `cs` are the configurations then, the metrics are those of before, and the
-- messages `waiting` are those in the queue then. `left` is what the next `malloc`s give.
abbrev pub Replied :
    {D : Type 0} → Option (Admin D) → Admin D → Configs → (ℕ → Bool) → List Msg → Type 0
Replied {D} o s cs left waiting =
    (s' : Admin D) × (o ≡ some s')
    × (s'.configs ≡ cs)
    × (s'.metrics ≡ s.metrics)
    × (s'.mallocs ≡ left)
    × Holds s'.queue waiting

-- Behind a reply with a text: of its two `malloc`s the second is not called when the first gives NULL.
abbrev pub behind_reply : (ℕ → Bool) → ℕ → Bool
behind_reply f = if f 0 then shift (shift f) else shift f

abbrev pub behind_replies : (ℕ → Bool) → Configs → ℕ → Bool
behind_replies f [] = f
behind_replies f (e ∷ es) = behind_replies (behind_reply f) es

module _ {D : Type 0} (F : Doubles D) (print_int : ℕ → Bytes) (junk : Msg) where
  -- The message, or the error when there is no memory for it or its text.
  abbrev pub or_error : (ℕ → Bool) → Msg → Msg
  or_error f m =
      if f 0
      then if f 1 then m else error_message F print_int junk unexpected_error
      else error_message F print_int junk unexpected_error

  -- The text of the configuration at an index; `none` when its name or its value has no closing 0.
  abbrev pub config_entry : ℕ → Entry → Option Msg
  config_entry i e = c_name e.name >>= λ title. c_string e.value >>= λ text.
      some (entry_message F print_int junk get_config_type i title text)

  abbrev pub config_replies : ℕ → (ℕ → Bool) → Configs → Option (List Msg)
  config_replies i f [] = some []
  config_replies i f (e ∷ es) = config_entry i e >>= λ m.
      config_replies (i + 1) (behind_reply f) es >>= λ rs. some (or_error f m ∷ rs)

  abbrev send_entry : ℕ → Entry → Admin D → Bytes → Option (Admin D)
  send_entry i e s title = c_string e.value >>= λ text.
      send_text F print_int junk (entry_message F print_int junk get_config_type i title text) s

  -- The configurations `cs`, and one more message.
  abbrev pub OneMore : Option (Admin D) → Admin D → Configs → (ℕ → Bool) → List Msg → Msg → Type 0
  OneMore o s cs left ms m = Replied o s cs left (ms ++ (m ∷ []))

  -- What `check_set_config` comes to.
  pub data SetReplied (config value_len : ℕ) (value : Bytes) (s : Admin D) (ms : List Msg)
      (o : Option (Admin D)) : Type 0 where
    not_found :
        length s.configs ≤ config
        → OneMore o s s.configs s.mallocs ms (error_message F print_int junk config_not_found)
        → SetReplied config value_len value s ms o
    bad_length :
        config < length s.configs
        → int_is_pos value_len ≡ false
        → OneMore o s s.configs s.mallocs ms (error_message F print_int junk invalid_length)
        → SetReplied config value_len value s ms o
    no_memory_for_value :
        config < length s.configs
        → int_is_pos value_len ≡ true
        → s.mallocs 0 ≡ false
        → OneMore o s s.configs
            (shift s.mallocs)
            ms
            (error_message F print_int junk unexpected_error)
        → SetReplied config value_len value s ms o
    no_memory_for_reply :
        config < length s.configs
        → int_is_pos value_len ≡ true
        → s.mallocs 0 ≡ true
        → s.mallocs 1 ≡ false
        → OneMore o s
            (set_value s.configs config (take value_len value))
            (shift (shift s.mallocs))
            ms
            (error_message F print_int junk unexpected_error)
        → SetReplied config value_len value s ms o
    is_set :
        config < length s.configs
        → int_is_pos value_len ≡ true
        → s.mallocs 0 ≡ true
        → s.mallocs 1 ≡ true
        → OneMore o s
            (set_value s.configs config (take value_len value))
            (shift (shift s.mallocs))
            ms
            (end_message F print_int junk set_config_type)
        → SetReplied config value_len value s ms o
