-- ===== src/Buffer/Tests.antt =====
-- The theorems on buffer.c at small buffers.
use http_proxy.Base.{◌≡◌, refl, true, false, List, [], ◌∷◌, zeros, arith, inl, inr}
use http_proxy.Buffer.{Buffer, init_r, write, write_reverse, read}
use http_proxy.Buffer.Deque
use http_proxy.Buffer.Deque.{Op, put, put_back, take_one, look, room, Reply, done, byte, rooms}
use http_proxy.Buffer.Invariant.{IsValid}
use http_proxy.Buffer.Reach.{Reached, Reached-IsValid}
use http_proxy.Buffer.Refine.{view, run, run_refines}

abbrev stray : Buffer
stray = record { mem = []; inf_limit = 0; limit = 0; read = 0; write = 0 }

-- Two reserved bytes and four for data.
abbrev small : Buffer
small = record { mem = zeros 6; inf_limit = 2; limit = 6; read = 2; write = 2 }

small-IsValid : IsValid small
small-IsValid = record {
  inf_le_write = omega arith;
  read_le_write = omega arith;
  read_home = inr refl;
  write_le_limit = omega arith;
  in_storage = omega arith;
}

-- Three bytes received, one of them read.
abbrev used : Buffer
used = record { mem = 0 ∷ 0 ∷ 7 ∷ 8 ∷ 9 ∷ 0 ∷ []; inf_limit = 2; limit = 6; read = 3; write = 5 }

used-IsValid : IsValid used
used-IsValid = record {
  inf_le_write = omega arith;
  read_le_write = omega arith;
  read_home = inl (omega arith);
  write_le_limit = omega arith;
  in_storage = omega arith;
}

abbrev calls : List Op
calls = put 5 ∷ put 6 ∷ take_one ∷ put_back 4 ∷ room ∷ take_one ∷ look ∷ take_one ∷ take_one ∷ []

run_refines_example : run small calls ≡ Deque.run (view small) calls
run_refines_example = run_refines calls small-IsValid

calls_test :
    Deque.run (view small) calls
    ≡ done
      ∷ done
      ∷ byte 5
      ∷ done
      ∷ rooms true true true false
      ∷ byte 4
      ∷ byte 6
      ∷ byte 6
      ∷ byte 0
      ∷ []
unfolding Deque.run
calls_test = refl

abbrev begun : Buffer
begun = init_r stray 2 6 (zeros 6)

Reached-IsValid_example : IsValid (write_reverse (read (write (write begun 5) 6)).1 4)
Reached-IsValid_example = Reached-IsValid (
    Reached.put_back 4 (
      Reached.took (
        Reached.wrote 6
          (Reached.wrote 5 (Reached.made stray 2 6 (zeros 6) (omega arith) (omega arith))))))
