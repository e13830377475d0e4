-- ===== src/Ipc/Confine.antt =====
-- A bound on the endpoints that travel with the messages of kernel/src/ipc.rs.
use mantra_os.Common.{
  ℕ, zero, suc, refl, replicate, ◌+◌, ◌≤◌, ◌<◌, ◌≡◌, ◌⊎◌, inl, inr, sym, subst, ◌||◌, not, leb,
  ◌==◌, some, Bool-cases, Option-cases, get_or, get_or-set_ne, get_or-set_cases, ap, ◌∙◌, List,
  arith,
}
use native.Mathlib.Nat.{le_trans}
use native.Mathlib.Decide.{ℕ_discrete}
use mantra_os.Common.Word.{u64_mod}
use mantra_os.Sched.{Sched, install_first, set_rsp0, cap_alloc_current}
use mantra_os.Sched.Confine.{SchedUpTo, SchedUpTo-mono, install_first-UpTo, cap_alloc_current-UpTo}
use mantra_os.Ipc.{
  Ipc, boot, Msg, Endpoint, empty_msg, empty_endpoint, endpoint_at, set_endpoint, index_of,
  push_waiter, pop_waiter, waiter_push, waiter_pop, ep_recv, ep_create, endpoint_alloc,
  max_endpoints,
}
use mantra_os.Ipc.Bound.{IpcUpTo, set_endpoint-UpTo, ep_recv-UpTo}

push_waiter-buf : (pid : ℕ) (ep ep' : Endpoint) → push_waiter pid ep ≡ some ep' → ep'.buf ≡ ep.buf
unfolding push_waiter
push_waiter-buf pid ep ep' e = ground arith

pop_waiter-buf : (pid : ℕ) (ep ep' : Endpoint) → pop_waiter ep ≡ some (pid, ep') → ep'.buf ≡ ep.buf
unfolding pop_waiter
pop_waiter-buf pid ep ep' e = ground arith

same_buf-UpTo :
    (b at : ℕ) (i : Ipc) (ep : Endpoint)
    → ep.buf ≡ (endpoint_at i at).buf
    → IpcUpTo b i
    → IpcUpTo b (set_endpoint i at ep)
same_buf-UpTo b at i ep e h =
    set_endpoint-UpTo b i at ep
      (λ j. subst (λ buf. (get_or buf j empty_msg).xfer_ep ≤ b) (sym e) (h.1 at j)) h

waiter_push-cases :
    (ep_id pid : ℕ) (i : Ipc)
    → ((waiter_push ep_id pid i).1 ≡ i)
      ⊎ ((at : ℕ) × (ep : Endpoint) × (push_waiter pid (endpoint_at i at) ≡ some ep)
          × ((waiter_push ep_id pid i).1 ≡ set_endpoint i at ep))
unfolding waiter_push
waiter_push-cases ep_id pid i =
    elim (Option-cases (push_waiter pid (endpoint_at i (index_of ep_id)))) [
      | inl full ↦ inl (ground arith)
      | inr (ep, e) ↦ elim (Bool-cases (ep_id == 0 || not (leb pid 255))) [
        | inl bad ↦ inl (ground arith)
        | inr fine ↦ elim (Bool-cases (leb max_endpoints (index_of ep_id))) [
          | inl out ↦ inl (ground arith)
          | inr valid ↦ inr (index_of ep_id, ep, e, ground arith)
        ]
      ]
    ]

pub waiter_push-UpTo :
    (b ep_id pid : ℕ) (i : Ipc) → IpcUpTo b i → IpcUpTo b (waiter_push ep_id pid i).1
waiter_push-UpTo b ep_id pid i h = elim (waiter_push-cases ep_id pid i) [
  | inl same ↦ subst (IpcUpTo b) (sym same) h
  | inr (at, ep, e, made) ↦
      subst (IpcUpTo b) (sym made)
        (same_buf-UpTo b at i ep (push_waiter-buf pid (endpoint_at i at) ep e) h)
]

waiter_pop-cases :
    (ep_id : ℕ) (i : Ipc)
    → ((waiter_pop ep_id i).1 ≡ i)
      ⊎ ((at : ℕ) × (pid : ℕ) × (ep : Endpoint) × (pop_waiter (endpoint_at i at) ≡ some (pid, ep))
          × ((waiter_pop ep_id i).1 ≡ set_endpoint i at ep))
unfolding waiter_pop
waiter_pop-cases ep_id i = elim (Option-cases (pop_waiter (endpoint_at i (index_of ep_id)))) [
  | inl empty ↦ inl (ground arith)
  | inr ((pid, ep), e) ↦ elim (Bool-cases (ep_id == 0)) [
    | inl bad ↦ inl (ground arith)
    | inr fine ↦ elim (Bool-cases (leb max_endpoints (index_of ep_id))) [
      | inl out ↦ inl (ground arith)
      | inr valid ↦ inr (index_of ep_id, pid, ep, e, ground arith)
    ]
  ]
]

-- The messages of an endpoint: its ring of slots and where it begins and ends.
abbrev pub messages : Endpoint → List Msg × ℕ × ℕ
messages ep = (ep.buf, ep.head, ep.tail)

pop_waiter-messages :
    (pid : ℕ) (ep ep' : Endpoint) → pop_waiter ep ≡ some (pid, ep') → messages ep' ≡ messages ep
unfolding pop_waiter
pop_waiter-messages pid ep ep' e = ground arith

set_endpoint-messages :
    (i : Ipc) (at other : ℕ) (ep : Endpoint)
    → messages ep ≡ messages (endpoint_at i at)
    → messages (endpoint_at (set_endpoint i at ep) other) ≡ messages (endpoint_at i other)
set_endpoint-messages i at other ep e = elim (ℕ_discrete at other) [
  | no differ ↦ ap messages (get_or-set_ne i.endpoints ep empty_endpoint differ)
  | yes same ↦ elim (get_or-set_cases i.endpoints at other ep empty_endpoint) [
    | inl new ↦ ap messages new ∙ e ∙ ap (λ q. messages (endpoint_at i q)) same
    | inr old ↦ ap messages old
  ]
]

-- Taking a process off a ring of waiting processes leaves all messages as they are.
pub waiter_pop-messages :
    (ep_id other : ℕ) (i : Ipc)
    → messages (endpoint_at (waiter_pop ep_id i).1 other) ≡ messages (endpoint_at i other)
waiter_pop-messages ep_id other i = elim (waiter_pop-cases ep_id i) [
  | inl same ↦ ap (λ q. messages (endpoint_at q other)) same
  | inr (at, pid, ep, e, made) ↦
      ap (λ q. messages (endpoint_at q other)) made
      ∙ set_endpoint-messages i at other ep (pop_waiter-messages pid (endpoint_at i at) ep e)
]

pub waiter_pop-UpTo : (b ep_id : ℕ) (i : Ipc) → IpcUpTo b i → IpcUpTo b (waiter_pop ep_id i).1
waiter_pop-UpTo b ep_id i h = elim (waiter_pop-cases ep_id i) [
  | inl same ↦ subst (IpcUpTo b) (sym same) h
  | inr (at, pid, ep, e, made) ↦
      subst (IpcUpTo b) (sym made)
        (same_buf-UpTo b at i ep (pop_waiter-buf pid (endpoint_at i at) ep e) h)
]

-- A new endpoint, while the count of endpoints does not wrap.
pub endpoint_alloc-UpTo :
    (b ep : ℕ) (i : Ipc)
    → i.next_ep + 1 < u64_mod
    → IpcUpTo b i
    → (endpoint_alloc i).0 ≡ some ep
    → IpcUpTo ep (endpoint_alloc i).1 × (b ≤ ep)
unfolding endpoint_alloc
endpoint_alloc-UpTo b ep i small h e =
    let number : ep ≡ i.next_ep + 1 = ground arith in
    let room : i.next_ep < max_endpoints = ground arith in
    let later : (endpoint_alloc i).1 ≡ record i { next_ep = i.next_ep + 1 } = ground arith in
    let le : b ≤ ep = omega (arith, h.0) in
    (subst (IpcUpTo ep) (sym later) (omega arith, λ q j. le_trans (h.1 q j) le), le)

pub endpoint_alloc-none :
    (b : ℕ) (i : Ipc) → i.next_ep + 1 < u64_mod → IpcUpTo b i → IpcUpTo b (endpoint_alloc i).1
unfolding endpoint_alloc
endpoint_alloc-none b i small h =
    let later : (endpoint_alloc i).1 ≡ record i { next_ep = i.next_ep + 1 } = ground arith in
    subst (IpcUpTo b) (sym later) (omega (arith, h.0), h.1)

-- The capabilities and the messages name endpoints that have been created only: at most 32.
abbrev pub Confined : Sched → Ipc → Type 0
Confined s i = (b : ℕ) × SchedUpTo b s × IpcUpTo b i

pub ep_create-cases :
    (s : Sched) (i : Ipc)
    → (((ep_create s i).1 ≡ s) × ((ep_create s i).2 ≡ (endpoint_alloc i).1))
      ⊎ ((ep : ℕ) × ((endpoint_alloc i).0 ≡ some ep)
          × ((ep_create s i).1 ≡ (cap_alloc_current ep s).1)
          × ((ep_create s i).2 ≡ (endpoint_alloc i).1))
unfolding ep_create
ep_create-cases s i = elim (Option-cases (endpoint_alloc i).0) [
  | inl full ↦ inl (ground arith, ground arith)
  | inr (ep, new) ↦ elim (Option-cases (cap_alloc_current ep s).0) [
    | inl no_slot ↦ inr (ep, new, ground arith, ground arith)
    | inr (c, given) ↦ inr (ep, new, ground arith, ground arith)
  ]
]

pub ep_create-Confined :
    (s : Sched) (i : Ipc)
    → i.next_ep + 1 < u64_mod
    → Confined s i
    → Confined (ep_create s i).1 (ep_create s i).2
ep_create-Confined s i small (b, hs, hi) = elim (ep_create-cases s i) [
  | inl (es, ei) ↦ (
    b,
    subst (SchedUpTo b) (sym es) hs,
    subst (IpcUpTo b) (sym ei) (endpoint_alloc-none b i small hi),
  )
  | inr (ep, new, es, ei) ↦
      let next = endpoint_alloc-UpTo b ep i small hi new in
      (
        ep,
        subst (SchedUpTo ep) (sym es)
            (cap_alloc_current-UpTo ep ep s (omega arith) (SchedUpTo-mono b ep s next.1 hs)),
        subst (IpcUpTo ep) (sym ei) next.0,
      )
]

pub ep_recv_plain-UpTo :
    (b cap room : ℕ) (s : Sched) (i : Ipc) → IpcUpTo b i → IpcUpTo b (ep_recv cap room s i).1
unfolding ep_recv
ep_recv_plain-UpTo b cap room s i h = (ep_recv-UpTo b cap room s i h).0

emptied : (n j : ℕ) → (get_or (replicate n empty_msg) j empty_msg).xfer_ep ≡ 0
unfolding empty_msg
emptied zero j = refl
emptied (suc n) zero = refl
emptied (suc n) (suc j) = emptied n j

fresh :
    (n e j : ℕ)
    → (get_or (get_or (replicate n empty_endpoint) e empty_endpoint).buf j empty_msg).xfer_ep ≡ 0
unfolding empty_endpoint
fresh zero e j = emptied 32 j
fresh (suc n) zero j = emptied 32 j
fresh (suc n) (suc e) j = fresh n e j

-- Once the first process is installed and while no endpoint has been created, the capabilities and
-- the messages in the rings name created endpoints only, of which there are none, and the process
-- table is well formed.
pub install_first-Confined :
    (tf_rsp kstack_top cr3 : ℕ) (s : Sched) → Confined (install_first tf_rsp kstack_top cr3 s) boot
install_first-Confined tf_rsp kstack_top cr3 s = (
  0,
  install_first-UpTo tf_rsp kstack_top cr3 s,
  (omega arith, λ e j. omega (arith, fresh 32 e j)),
)

-- The stack for traps is no part of it.
pub set_rsp0-Confined : (top : ℕ) (s : Sched) (i : Ipc) → Confined s i → Confined (set_rsp0 top s) i
set_rsp0-Confined top s i (b, h, m) = (
  b,
  record {
    table = record { procs = h.table.procs; current = h.table.current; caps = h.table.caps };
    caps = h.caps;
  },
  m,
)
