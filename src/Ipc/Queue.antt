-- ===== src/Ipc/Queue.antt =====
-- The message ring of an endpoint of kernel/src/ipc.rs against a first-in first-out queue.
use mantra_os.Common.{
  ℕ, suc, ◌+◌, ◌-◌, ◌%◌, ◌≤◌, ◌<◌, min, ◌≡◌, ◌≢◌, ◌⊎◌, inl, inr, refl, sym, ap, ◌∙◌, subst, List,
  [], ◌∷◌, ◌++◌, map, none, some, length, get_or, set, take, drop, take-take, take-append-take,
  length-take, length-drop, length-append, length-set, get_or-set_self, get_or-set_ne, arith,
}
use mathlib.Core.List.{map-append}
use native.Mathlib.Decide.{ℕ_discrete}
use mantra_os.Common.Word.{u64_mod, wrapping_add}
use mantra_os.Ipc.{Msg, empty_msg, Endpoint, written, push_msg, pop_msg}
use mantra_os.Ipc.Ring.{IsApart, window, window-set}

-- A message as its receiver sees it: its bytes and the endpoint that comes with it.
abbrev pub Payload : Type 0
Payload = List ℕ × ℕ

abbrev pub payload : Msg → Payload
payload m = (take m.len m.bytes, m.xfer_ep)

abbrev pub IsMsg : Msg → Type 0
IsMsg m = (m.len ≤ 256) × (length m.bytes ≡ 256)

-- The counters have not wrapped, and are at most 32 messages apart.
pub record IsQueue (ep : Endpoint) : Type 0 where
  pub ordered : ep.head ≤ ep.tail
  pub fits : ep.tail ≤ ep.head + 32
  pub small : ep.tail + 1 < u64_mod
  pub slots : length ep.buf ≡ 32
  pub msgs : (i : ℕ) → IsMsg (get_or ep.buf i empty_msg)

-- The messages sent and not yet received, oldest first.
abbrev pub contents : Endpoint → List Payload
contents ep = map payload (window empty_msg 32 ep.buf ep.head (ep.tail - ep.head))

apart : IsApart 32
apart h k pos lt = omega arith

payload-written :
    (msg : List ℕ) (xfer_ep : ℕ) (old : Msg)
    → payload (written msg xfer_ep old) ≡ (take 256 msg, xfer_ep)
payload-written msg xfer_ep old =
    ap {B = Payload} (λ t. (t, xfer_ep))
      (take-append-take 256 msg (drop (min (length msg) 256) old.bytes))

written-IsMsg :
    (msg : List ℕ) (xfer_ep : ℕ) (old : Msg) → IsMsg old → IsMsg (written msg xfer_ep old)
written-IsMsg msg xfer_ep old h =
    let n : ℕ = min (length msg) 256 in
    (
      omega arith,
      omega (
        arith,
        length-append (take n msg) (drop n old.bytes),
        length-take n msg,
        length-drop n old.bytes,
      ),
    )

msgs-set :
    (buf : List Msg) (t i : ℕ) (m : Msg)
    → length buf ≡ 32
    → t < 32
    → IsMsg m
    → IsMsg (get_or buf i empty_msg)
    → IsMsg (get_or (set buf t m) i empty_msg)
msgs-set buf t i m len lt h g = elim (ℕ_discrete t i) [
  | yes same ↦ rw (← same) (subst IsMsg (sym (get_or-set_self buf t m empty_msg (rw len lt))) h)
  | no differ ↦ subst IsMsg (sym (get_or-set_ne buf m empty_msg differ)) g
]

-- What a send makes of an endpoint that has room.
pub record Sent (msg : List ℕ) (xfer_ep : ℕ) (ep ep' : Endpoint) : Type 0 where
  pub appended : contents ep' ≡ contents ep ++ (take 256 msg, xfer_ep) ∷ []
  pub queue : IsQueue ep'
  pub waiting :
      (ep'.wait_head ≡ ep.wait_head) × (ep'.wait_tail ≡ ep.wait_tail) × (ep'.waiters ≡ ep.waiters)

abbrev pushed : List ℕ → ℕ → Endpoint → Endpoint
pushed msg xfer_ep ep = record ep {
  buf = set ep.buf (ep.tail % 32) (written msg xfer_ep (get_or ep.buf (ep.tail % 32) empty_msg));
  tail = wrapping_add ep.tail 1;
}

pushed-Sent :
    (msg : List ℕ) (xfer_ep : ℕ) (ep : Endpoint)
    → IsQueue ep
    → ep.tail < ep.head + 32
    → ep.tail + 2 < u64_mod
    → Sent msg xfer_ep ep (pushed msg xfer_ep ep)
pushed-Sent msg xfer_ep ep q room small =
    let n : ℕ = ep.tail - ep.head in
    let slot : ℕ = ep.tail % 32 in
    let m : Msg = written msg xfer_ep (get_or ep.buf slot empty_msg) in
    let next : wrapping_add ep.tail 1 ≡ ep.tail + 1 = omega arith in
    let count : wrapping_add ep.tail 1 - ep.head ≡ suc n = omega arith in
    let longer : window empty_msg 32 (set ep.buf slot m) ep.head (wrapping_add ep.tail 1 - ep.head)
        ≡ window empty_msg 32 ep.buf ep.head n ++ m ∷ [] =
      rw count (
        window-set empty_msg 32 ep.buf m n ep.head ep.tail apart q.slots (omega arith) (omega arith)
          (omega arith)) in
    record {
      appended =
          ap (map payload) longer
          ∙ map-append payload (window empty_msg 32 ep.buf ep.head n) (m ∷ [])
          ∙ ap (λ t. contents ep ++ t ∷ [])
              (payload-written msg xfer_ep (get_or ep.buf slot empty_msg));
      queue = record {
        ordered = omega arith;
        fits = omega arith;
        small = omega arith;
        slots = length-set ep.buf slot m ∙ q.slots;
        msgs = λ i.
            msgs-set ep.buf slot i m q.slots (omega arith)
              (written-IsMsg msg xfer_ep (get_or ep.buf slot empty_msg) (q.msgs slot)) (q.msgs i);
      };
      waiting = (refl, refl, refl);
    }

-- While fewer than 32 messages have been received from a well-formed endpoint and at most 31 wait:
-- a send to 31 waiting messages is refused; any other appends its first 256 bytes and its endpoint
-- to the waiting messages, keeps the endpoint well formed and the ring of waiting processes as it
-- was, and at most 31 messages wait after it.
pub push_msg_early :
    (msg : List ℕ) (xfer_ep : ℕ) (ep : Endpoint)
    → IsQueue ep
    → ep.head < 32
    → ep.tail ≤ ep.head + 31
    → ((ep.tail ≡ ep.head + 31) × (push_msg msg xfer_ep ep ≡ none))
      ⊎ ((ep' : Endpoint) × (push_msg msg xfer_ep ep ≡ some ep')
          × Sent msg xfer_ep ep ep'
          × (ep'.head ≡ ep.head)
          × (ep'.tail ≤ ep.head + 31))
unfolding push_msg
push_msg_early msg xfer_ep ep q early fits = elim (ℕ_discrete ep.tail (ep.head + 31)) [
  | yes full ↦ inl (full, ground arith)
  | no room ↦ inr (
    pushed msg xfer_ep ep,
    ground arith,
    pushed-Sent msg xfer_ep ep q (omega arith) (omega arith),
    refl,
    omega arith,
  )
]

-- Once 32 messages have been received, a send is never refused, however many messages wait.
pub push_msg_late :
    (msg : List ℕ) (xfer_ep : ℕ) (ep : Endpoint)
    → 32 ≤ ep.head
    → push_msg msg xfer_ep ep ≡ some (pushed msg xfer_ep ep)
unfolding push_msg
push_msg_late msg xfer_ep ep late = ground arith

-- A receive from a well-formed endpoint: where no message waits it takes nothing; otherwise it
-- takes the oldest message out, answers with as many of its bytes as there is room for, their
-- number and its endpoint, and the endpoint stays well formed.
pub pop_msg_lem :
    (room : ℕ) (ep : Endpoint)
    → IsQueue ep
    → ((contents ep ≡ []) × (pop_msg room ep ≡ none))
      ⊎ ((bytes : List ℕ) × (xfer : ℕ) × (ep' : Endpoint) × (contents ep
            ≡ (bytes, xfer) ∷ contents ep')
          × (pop_msg room ep
              ≡ some (
                record { got = min (length bytes) room; xfer_ep = xfer; bytes = take room bytes },
                ep',
              ))
          × IsQueue ep')
unfolding pop_msg
pop_msg_lem room ep q = elim (ℕ_discrete ep.head ep.tail) [
  | yes same ↦
      let none_left : ep.tail - ep.head ≡ 0 = omega arith in
      inl (ap (λ n. map payload (window empty_msg 32 ep.buf ep.head n)) none_left, ground arith)
  | no differ ↦
      let m : Msg = get_or ep.buf (ep.head % 32) empty_msg in
      let ok : IsMsg m = q.msgs (ep.head % 32) in
      let ep' : Endpoint = record ep { head = wrapping_add ep.head 1 } in
      let next : wrapping_add ep.head 1 ≡ ep.head + 1 = omega arith in
      let count : ep.tail - ep.head ≡ suc (ep.tail - (ep.head + 1)) = omega arith in
      let rest : contents ep ≡ payload m ∷ contents ep' = rw (count, next) refl in
      let sized : length (take m.len m.bytes) ≡ m.len = omega (arith, length-take m.len m.bytes) in
      inr (
        take m.len m.bytes,
        m.xfer_ep,
        ep',
        rest,
        rw (sized, ← take-take m.len room m.bytes) (ground arith),
        record {
          ordered = omega arith;
          fits = omega arith;
          small = q.small;
          slots = q.slots;
          msgs = q.msgs;
        },
      )
]

pop_msg-some :
    (room : ℕ) (ep : Endpoint) (m : Msg)
    → ep.head ≢ ep.tail
    → get_or ep.buf (ep.head % 32) empty_msg ≡ m
    → pop_msg room ep
      ≡ some (
        record { got = min m.len room; xfer_ep = m.xfer_ep; bytes = take (min m.len room) m.bytes },
        record ep { head = wrapping_add ep.head 1 },
      )
unfolding pop_msg
pop_msg-some room ep m ne e = ground arith

-- Where at least 32 messages have been received and 32 wait, and the tail counter does not wrap, a
-- send succeeds and the next receive gives the new message, cut to 256 bytes and to the receiver's
-- room, in the place of the oldest.
pub push_msg_overwrites :
    (msg : List ℕ) (xfer_ep room : ℕ) (ep : Endpoint)
    → 32 ≤ ep.head
    → ep.tail ≡ ep.head + 32
    → ep.tail + 1 < u64_mod
    → length ep.buf ≡ 32
    → (ep' : Endpoint) × (out : Endpoint) × (push_msg msg xfer_ep ep ≡ some ep')
      × (pop_msg room ep'
          ≡ some (
            record {
              got = min (min (length msg) 256) room;
              xfer_ep = xfer_ep;
              bytes = take room (take 256 msg);
            },
            out,
          ))
unfolding pop_msg
push_msg_overwrites msg xfer_ep room ep late full small len =
    let slot : ℕ = ep.tail % 32 in
    let m : Msg = written msg xfer_ep (get_or ep.buf slot empty_msg) in
    let same : ep.head % 32 ≡ slot = omega arith in
    let next : wrapping_add ep.tail 1 ≡ ep.tail + 1 = omega arith in
    let ep' : Endpoint = pushed msg xfer_ep ep in
    let stored : get_or ep'.buf (ep'.head % 32) empty_msg ≡ m =
      rw same (get_or-set_self ep.buf slot m empty_msg (rw len (omega arith))) in
    let front : take (min m.len room) m.bytes ≡ take room (take 256 msg) =
      take-take m.len room m.bytes
      ∙ ap (take room)
          (take-append-take 256 msg (drop m.len (get_or ep.buf slot empty_msg).bytes)) in
    (
      ep',
      record ep' { head = wrapping_add ep'.head 1 },
      push_msg_late msg xfer_ep ep late,
      pop_msg-some room ep' m (omega arith) stored
          ∙ ap
              (λ bytes. some (
                record { got = min m.len room; xfer_ep = xfer_ep; bytes = bytes },
                record ep' { head = wrapping_add ep'.head 1 },
              ))
              front,
    )
