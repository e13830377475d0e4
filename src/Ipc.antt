-- ===== src/Ipc.antt =====
-- kernel/src/ipc.rs: the endpoints, each a ring of messages and a ring of waiting processes, with
-- head and tail counters that are reduced only where they index.
pub mod Ring
pub mod Queue
pub mod Bound
pub mod Confine
pub mod Sample
mod Tests
use mantra_os.Common.{
  ℕ, zero, suc, ◌+◌, ◌-◌, ◌%◌, ◌^◌, min, Bool, true, false, ◌||◌, not, ltb, leb, ◌==◌,
  if◌then◌else◌, List, [], ◌∷◌, ◌++◌, Option, none, some, length, get_or, set, take, drop,
  replicate,
}
use mantra_os.Common.Word.{u64_mod, u64_max, wrapping_add}
use mantra_os.Sched.{Sched, cap_alloc_current, cap_lookup_current}

abbrev pub max_endpoints : ℕ
max_endpoints = 32

abbrev pub max_msg : ℕ
max_msg = 256

abbrev pub q_len : ℕ
q_len = 32

abbrev pub max_waiters : ℕ
max_waiters = 8

-- `Msg`.
pub record Msg : Type 0 where
  pub len : ℕ
  pub xfer_ep : ℕ
  pub bytes : List ℕ

pub empty_msg : Msg
empty_msg = record { len = 0; xfer_ep = 0; bytes = replicate max_msg 0 }

-- `Endpoint`.
pub record Endpoint : Type 0 where
  pub head : ℕ
  pub tail : ℕ
  pub buf : List Msg
  pub wait_head : ℕ
  pub wait_tail : ℕ
  pub waiters : List ℕ

pub empty_endpoint : Endpoint
empty_endpoint = record {
  head = 0;
  tail = 0;
  buf = replicate q_len empty_msg;
  wait_head = 0;
  wait_tail = 0;
  waiters = replicate max_waiters 0;
}

-- The statics `ENDPOINTS` and `NEXT_EP`.
pub record Ipc : Type 0 where
  pub endpoints : List Endpoint
  pub next_ep : ℕ

abbrev pub boot : Ipc
boot = record { endpoints = replicate max_endpoints empty_endpoint; next_ep = 0 }

-- `ENDPOINTS[epi]`; the source's indices are below 32.
abbrev pub endpoint_at : Ipc → ℕ → Endpoint
endpoint_at i epi = get_or i.endpoints epi empty_endpoint

abbrev pub set_endpoint : Ipc → ℕ → Endpoint → Ipc
set_endpoint i epi ep = record i { endpoints = set i.endpoints epi ep }

-- `(endpoint_id as usize).wrapping_sub(1)`.
abbrev pub index_of : ℕ → ℕ
index_of endpoint_id = (endpoint_id + u64_mod - 1) % u64_mod

-- Endpoint identifiers count from 1.
pub endpoint_alloc : Ipc → Option ℕ × Ipc
endpoint_alloc i =
    let i' = record i { next_ep = wrapping_add i.next_ep 1 } in
    if leb max_endpoints i.next_ep then (none, i') else (some (i.next_ep + 1), i')

pub ep_create : Sched → Ipc → ℕ × Sched × Ipc
ep_create s i =
    let (id, i') = endpoint_alloc i in
    elim id [
      | none ↦ (u64_max, s, i')
      | some ep ↦
          let (cap, s') = cap_alloc_current ep s in
          elim cap [ none ↦ (u64_max, s', i') | some c ↦ (c, s', i') ]
    ]

-- The push of `waiter_push` on the endpoint itself.
pub push_waiter : ℕ → Endpoint → Option Endpoint
push_waiter pid ep =
    if wrapping_add ep.wait_tail 1 % max_waiters == ep.wait_head
    then none
    else some (record ep {
      waiters = set ep.waiters (ep.wait_tail % max_waiters) (pid % 256);
      wait_tail = wrapping_add ep.wait_tail 1;
    })

pub waiter_push : ℕ → ℕ → Ipc → Bool × Ipc
waiter_push endpoint_id pid i =
    if endpoint_id == 0 || ltb 255 pid
    then (false, i)
    else if leb max_endpoints (index_of endpoint_id)
    then (false, i)
    else elim (push_waiter pid (endpoint_at i (index_of endpoint_id))) [
      | none ↦ (false, i)
      | some ep ↦ (true, set_endpoint i (index_of endpoint_id) ep)
    ]

pub pop_waiter : Endpoint → Option (ℕ × Endpoint)
pop_waiter ep =
    if ep.wait_head == ep.wait_tail
    then none
    else some (
      get_or ep.waiters (ep.wait_head % max_waiters) 0,
      record ep { wait_head = wrapping_add ep.wait_head 1 },
    )

pub waiter_pop : ℕ → Ipc → Option ℕ × Ipc
waiter_pop endpoint_id i =
    if endpoint_id == 0
    then (none, i)
    else if leb max_endpoints (index_of endpoint_id)
    then (none, i)
    else elim (pop_waiter (endpoint_at i (index_of endpoint_id))) [
      | none ↦ (none, i)
      | some (pid, ep) ↦ (some pid, set_endpoint i (index_of endpoint_id) ep)
    ]

-- The write of `ep_send_cap` into the endpoint: `n` bytes over the front of the slot's old bytes.
abbrev pub written : List ℕ → ℕ → Msg → Msg
written msg xfer_ep old =
    let n = min (length msg) max_msg in
    record { len = n; xfer_ep = xfer_ep; bytes = take n msg ++ drop n old.bytes }

pub push_msg : List ℕ → ℕ → Endpoint → Option Endpoint
push_msg msg xfer_ep ep =
    let slot = ep.tail % q_len in
    if wrapping_add ep.tail 1 % q_len == ep.head
    then none
    else some (record ep {
      buf = set ep.buf slot (written msg xfer_ep (get_or ep.buf slot empty_msg));
      tail = wrapping_add ep.tail 1;
    })

-- The answer is the bytes sent, `u64::MAX` for a bad capability, or `u64::MAX - 1` for a full ring.
pub ep_send_cap : ℕ → List ℕ → ℕ → Sched → Ipc → ℕ × Ipc
ep_send_cap cap msg xfer_ep s i = elim (cap_lookup_current cap s) [
  | none ↦ (u64_max, i)
  | some ep_id ↦
      if leb max_endpoints (index_of ep_id)
      then (u64_max, i)
      else elim (push_msg msg xfer_ep (endpoint_at i (index_of ep_id))) [
        | none ↦ (u64_max - 1, i)
        | some ep ↦ (min (length msg) max_msg, set_endpoint i (index_of ep_id) ep)
      ]
]

pub ep_send : ℕ → List ℕ → Sched → Ipc → ℕ × Ipc
unfolding ep_send_cap
ep_send cap msg s i = ep_send_cap cap msg 0 s i

-- What a receive answers: the count or an error code, the transferred endpoint, and the bytes.
pub record Received : Type 0 where
  pub got : ℕ
  pub xfer_ep : ℕ
  pub bytes : List ℕ

abbrev pub failed : ℕ → Received
failed code = record { got = code; xfer_ep = 0; bytes = [] }

-- The read of `ep_recv_cap` from the endpoint, into a buffer of `room` bytes: the bytes are those
-- copied to its front.
pub pop_msg : ℕ → Endpoint → Option (Received × Endpoint)
pop_msg room ep =
    let m = get_or ep.buf (ep.head % q_len) empty_msg in
    let n = min m.len room in
    if ep.head == ep.tail
    then none
    else some (
      record { got = n; xfer_ep = m.xfer_ep; bytes = take n m.bytes },
      record ep { head = wrapping_add ep.head 1 },
    )

pub ep_recv_cap : ℕ → ℕ → Sched → Ipc → Received × Ipc
ep_recv_cap cap room s i = elim (cap_lookup_current cap s) [
  | none ↦ (failed u64_max, i)
  | some ep_id ↦
      if leb max_endpoints (index_of ep_id)
      then (failed u64_max, i)
      else elim (pop_msg room (endpoint_at i (index_of ep_id))) [
        | none ↦ (failed (u64_max - 2), i)
        | some (r, ep) ↦ (r, set_endpoint i (index_of ep_id) ep)
      ]
]

-- `ep_recv` drops the transferred endpoint.
pub ep_recv : ℕ → ℕ → Sched → Ipc → (ℕ × List ℕ) × Ipc
unfolding ep_recv_cap
ep_recv cap room s i = let (r, i') = ep_recv_cap cap room s i in ((r.got, r.bytes), i')
