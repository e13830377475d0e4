-- ===== src/Ipc/Tests.antt =====
-- Endpoints of kernel/src/ipc.rs, new and after 32 receives.
use mantra_os.Common.{
  ℕ, zero, suc, ◌+◌, ◌≤◌, min, ◌≡◌, ◌⊎◌, refl, List, [], ◌∷◌, none, some, length, get_or, take,
  replicate, arith,
}
use mantra_os.Ipc.{Endpoint, empty_msg, empty_endpoint, push_msg, pop_msg}
use mantra_os.Ipc.Queue.{
  IsMsg, IsQueue, Sent, contents, push_msg_early, pop_msg_lem, push_msg_overwrites,
}

empties : (n i : ℕ) → IsMsg (get_or (replicate n empty_msg) i empty_msg)
unfolding empty_msg
empties zero i = (omega arith, refl)
empties (suc n) zero = (omega arith, refl)
empties (suc n) (suc i) = empties n i

empty-IsQueue : IsQueue empty_endpoint
unfolding empty_endpoint
empty-IsQueue = record {
  ordered = omega arith;
  fits = omega arith;
  small = omega arith;
  slots = refl;
  msgs = λ i. empties 32 i;
}

push_msg_early_example :
    ((empty_endpoint.tail ≡ empty_endpoint.head + 31)
      × (push_msg (7 ∷ 8 ∷ []) 3 empty_endpoint ≡ none))
    ⊎ ((ep' : Endpoint) × (push_msg (7 ∷ 8 ∷ []) 3 empty_endpoint ≡ some ep')
        × Sent (7 ∷ 8 ∷ []) 3 empty_endpoint ep'
        × (ep'.head ≡ empty_endpoint.head)
        × (ep'.tail ≤ empty_endpoint.head + 31))
unfolding empty_endpoint
push_msg_early_example =
    push_msg_early (7 ∷ 8 ∷ []) 3 empty_endpoint empty-IsQueue (omega arith) (omega arith)

-- One message waits.
abbrev one : Endpoint
one = record empty_endpoint {
  buf = record { len = 2; xfer_ep = 3; bytes = 7 ∷ 8 ∷ replicate 254 0 } ∷ replicate 31 empty_msg;
  tail = 1;
}

one-msgs : (i : ℕ) → IsMsg (get_or one.buf i empty_msg)
one-msgs zero = (omega arith, refl)
one-msgs (suc i) = empties 31 i

one-IsQueue : IsQueue one
unfolding empty_endpoint
one-IsQueue = record {
  ordered = omega arith;
  fits = omega arith;
  small = omega arith;
  slots = refl;
  msgs = one-msgs;
}

pop_msg_lem_example :
    ((contents one ≡ []) × (pop_msg 1 one ≡ none))
    ⊎ ((bytes : List ℕ) × (xfer : ℕ) × (ep' : Endpoint) × (contents one
          ≡ (bytes, xfer) ∷ contents ep')
        × (pop_msg 1 one
            ≡ some
                (record { got = min (length bytes) 1; xfer_ep = xfer; bytes = take 1 bytes }, ep'))
        × IsQueue ep')
pop_msg_lem_example = pop_msg_lem 1 one one-IsQueue

-- 32 messages wait, after 32 that have been received.
abbrev late : Endpoint
late = record empty_endpoint { head = 32; tail = 64 }

push_msg_overwrites_example :
    (ep' : Endpoint) × (out : Endpoint) × (push_msg (9 ∷ []) 0 late ≡ some ep')
    × (pop_msg 256 ep'
        ≡ some (
          record { got = min (min 1 256) 256; xfer_ep = 0; bytes = take 256 (take 256 (9 ∷ [])) },
          out,
        ))
unfolding empty_endpoint
push_msg_overwrites_example =
    push_msg_overwrites (9 ∷ []) 0 256 late (omega arith) refl (omega arith) refl
