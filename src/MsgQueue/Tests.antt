-- ===== src/MsgQueue/Tests.antt =====
-- A queue from which a message is taken while another one follows it.
use http_proxy.Base.{◌≡◌, refl, true, false, none, some, List, [], ◌∷◌, pos, negsuc}
use http_proxy.Serializer.{Msg}
use http_proxy.MsgQueue.{empty_queue}
use http_proxy.MsgQueue.Fifo.{
  Op, offer, poll, ask_empty, result, message, emptiness, run, fifo_run, run-fifo_run,
}

abbrev one : Msg
one = record { type = 1; param = 0; buffer_size = 0; buffer = [] }

abbrev two : Msg
two = record { type = 2; param = 0; buffer_size = 0; buffer = [] }

abbrev ops : List Op
ops =
    offer true one
    ∷ offer false one
    ∷ offer true two
    ∷ poll
    ∷ ask_empty
    ∷ poll
    ∷ poll
    ∷ offer true one
    ∷ poll
    ∷ []

run-fifo_run_example : run ops empty_queue ≡ some (fifo_run ops [])
run-fifo_run_example = run-fifo_run ops empty_queue [] (refl, refl)

answers :
    fifo_run ops []
    ≡ result (pos 0)
      ∷ result (negsuc 0)
      ∷ result (pos 0)
      ∷ message (some one)
      ∷ emptiness false
      ∷ message (some two)
      ∷ message none
      ∷ result (pos 0)
      ∷ message (some one)
      ∷ []
answers = refl
