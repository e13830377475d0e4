-- ===== src/Ipc/Bound.antt =====
-- A bound on the endpoints that the messages of kernel/src/ipc.rs carry, through sends and receives.
use mantra_os.Common.{
  ℕ, ◌%◌, min, ◌≤◌, ◌≡◌, ◌⊎◌, inl, inr, sym, subst, leb, List, some, Bool-cases, Option-cases,
  get_or, set, get_or-set_cases, arith,
}
use mantra_os.Sched.{Sched, cap_lookup_current}
use mantra_os.Ipc.{
  Ipc, Endpoint, Msg, Received, empty_msg, empty_endpoint, endpoint_at, set_endpoint, index_of,
  written, push_msg, pop_msg, ep_send_cap, ep_recv_cap, max_endpoints,
}

-- Each message in the endpoint carries no endpoint, or one up to `b`.
abbrev pub XfersUpTo : ℕ → Endpoint → Type 0
XfersUpTo b ep = (j : ℕ) → (get_or ep.buf j empty_msg).xfer_ep ≤ b

-- How many endpoints have been created: `next_ep` counts the creations that are refused, too.
abbrev created : Ipc → ℕ
created i = min i.next_ep max_endpoints

-- So does each message in the rings, and `b` endpoints have been created.
abbrev pub IpcUpTo : ℕ → Ipc → Type 0
IpcUpTo b i = (b ≤ created i) × ((e : ℕ) → XfersUpTo b (endpoint_at i e))

pub set_endpoint-UpTo :
    (b : ℕ) (i : Ipc) (at : ℕ) (ep : Endpoint)
    → XfersUpTo b ep
    → IpcUpTo b i
    → IpcUpTo b (set_endpoint i at ep)
set_endpoint-UpTo b i at ep x h = (
  h.0,
  λ e j. elim (get_or-set_cases i.endpoints at e ep empty_endpoint) [
    | inl new ↦ subst (λ q. (get_or q.buf j empty_msg).xfer_ep ≤ b) (sym new) (x j)
    | inr old ↦ subst (λ q. (get_or q.buf j empty_msg).xfer_ep ≤ b) (sym old) (h.1 e j)
  ],
)

push_msg-UpTo :
    (b : ℕ) (msg : List ℕ) (xfer_ep : ℕ) (ep ep' : Endpoint)
    → xfer_ep ≤ b
    → XfersUpTo b ep
    → push_msg msg xfer_ep ep ≡ some ep'
    → XfersUpTo b ep'
unfolding push_msg
push_msg-UpTo b msg xfer_ep ep ep' le h e j =
    let slot : ℕ = ep.tail % 32 in
    let m : Msg = written msg xfer_ep (get_or ep.buf slot empty_msg) in
    let bufs : ep'.buf ≡ set ep.buf slot m = ground arith in
    rw bufs (elim (get_or-set_cases ep.buf slot j m empty_msg) [
      | inl new ↦ rw new le
      | inr old ↦ rw old (h j)
    ])

-- A send leaves the endpoints as they are, or puts the message into one.
ep_send-cases :
    (cap : ℕ) (msg : List ℕ) (xfer_ep : ℕ) (s : Sched) (i : Ipc)
    → ((ep_send_cap cap msg xfer_ep s i).1 ≡ i)
      ⊎ ((at : ℕ) × (ep : Endpoint) × (push_msg msg xfer_ep (endpoint_at i at) ≡ some ep)
          × ((ep_send_cap cap msg xfer_ep s i).1 ≡ set_endpoint i at ep))
unfolding ep_send_cap
ep_send-cases cap msg xfer_ep s i = elim (Option-cases (cap_lookup_current cap s)) [
  | inl bad ↦ inl (ground arith)
  | inr (ep_id, named) ↦ elim (Bool-cases (leb max_endpoints (index_of ep_id))) [
    | inl out ↦ inl (ground arith)
    | inr valid ↦ elim (Option-cases (push_msg msg xfer_ep (endpoint_at i (index_of ep_id)))) [
      | inl full ↦ inl (ground arith)
      | inr (ep, sent) ↦ inr (index_of ep_id, ep, sent, ground arith)
    ]
  ]
]

pub ep_send-UpTo :
    (b cap : ℕ) (msg : List ℕ) (xfer_ep : ℕ) (s : Sched) (i : Ipc)
    → xfer_ep ≤ b
    → IpcUpTo b i
    → IpcUpTo b (ep_send_cap cap msg xfer_ep s i).1
ep_send-UpTo b cap msg xfer_ep s i le h = elim (ep_send-cases cap msg xfer_ep s i) [
  | inl same ↦ subst (IpcUpTo b) (sym same) h
  | inr (at, ep, sent, made) ↦ subst (IpcUpTo b) (sym made) (
      set_endpoint-UpTo b i at ep
        (push_msg-UpTo b msg xfer_ep (endpoint_at i at) ep le (h.1 at) sent) h)
]

-- A receive leaves the endpoints as they are and answers with no endpoint, or takes a message out.
ep_recv-cases :
    (cap room : ℕ) (s : Sched) (i : Ipc)
    → (((ep_recv_cap cap room s i).1 ≡ i) × ((ep_recv_cap cap room s i).0.xfer_ep ≡ 0))
      ⊎ ((at : ℕ) × (r : Received) × (ep : Endpoint) × (pop_msg room (endpoint_at i at)
            ≡ some (r, ep))
          × ((ep_recv_cap cap room s i).1 ≡ set_endpoint i at ep)
          × ((ep_recv_cap cap room s i).0 ≡ r))
unfolding ep_recv_cap
ep_recv-cases cap room s i = elim (Option-cases (cap_lookup_current cap s)) [
  | inl bad ↦ inl (ground arith, ground arith)
  | inr (ep_id, named) ↦ elim (Bool-cases (leb max_endpoints (index_of ep_id))) [
    | inl out ↦ inl (ground arith, ground arith)
    | inr valid ↦ elim (Option-cases (pop_msg room (endpoint_at i (index_of ep_id)))) [
      | inl empty ↦ inl (ground arith, ground arith)
      | inr ((r, ep), got) ↦ inr (index_of ep_id, r, ep, got, ground arith, ground arith)
    ]
  ]
]

pop_msg-UpTo :
    (b room : ℕ) (r : Received) (ep ep' : Endpoint)
    → XfersUpTo b ep
    → pop_msg room ep ≡ some (r, ep')
    → XfersUpTo b ep' × (r.xfer_ep ≤ b)
unfolding pop_msg
pop_msg-UpTo b room r ep ep' h e =
    let bufs : ep'.buf ≡ ep.buf = ground arith in
    let taken : r.xfer_ep ≡ (get_or ep.buf (ep.head % 32) empty_msg).xfer_ep = ground arith in
    (
      λ j. subst (λ buf. (get_or buf j empty_msg).xfer_ep ≤ b) (sym bufs) (h j),
      subst (λ x. x ≤ b) (sym taken) (h (ep.head % 32)),
    )

pub ep_recv-UpTo :
    (b cap room : ℕ) (s : Sched) (i : Ipc)
    → IpcUpTo b i
    → IpcUpTo b (ep_recv_cap cap room s i).1 × ((ep_recv_cap cap room s i).0.xfer_ep ≤ b)
ep_recv-UpTo b cap room s i h = elim (ep_recv-cases cap room s i) [
  | inl (same, nothing) ↦
      (subst (IpcUpTo b) (sym same) h, subst (λ x. x ≤ b) (sym nothing) (omega arith))
  | inr (at, r, ep, got, left, answer) ↦
      let next = pop_msg-UpTo b room r (endpoint_at i at) ep (h.1 at) got in
      (
        subst (IpcUpTo b) (sym left) (set_endpoint-UpTo b i at ep next.0 h),
        subst (λ q. q.xfer_ep ≤ b) (sym answer) next.1,
      )
]
