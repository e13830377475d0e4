-- ===== src/User/First.antt =====
-- The start of the first process in kernel/src/user.rs: what is installed, and its first frame.
use mantra_os.Common.{
  ℕ, ◌+◌, ◌-◌, ◌≡◌, ◌≤◌, ◌∙◌, sym, ap, inl, inr, refl, ap₂, subst, ltb, ◌==◌, none, some,
  Bool-cases, true, arith,
}
use mantra_os.Common.Run.{done, Run-cases, checked_add}
use mantra_os.Sched.{install_first, set_rsp0}
use mantra_os.Machine.{Kernel, Frame, BootRange, set_frame}
use mantra_os.Common.Word.{saturating_add}
use mantra_os.Heap.{Bump, alloc}
use mantra_os.Heap.Bounds.{alloc_above}
use mantra_os.Elf.{Elf}
use mantra_os.User.{
  Built, address_space, kstack_alloc_top, build_initial_tf, build_stack, build_proc_from_init,
  enter_first_user, initial_frame, frame_size, user_stack_top, kstack_size,
}

-- A process that is built, its kernel stack above all that the heap has given, and its frame at the
-- top of that stack.
pub record IsBuilt (role cap : ℕ) (k : Kernel) (b : Built) (k' : Kernel) : Type 0 where
  pub sched : k'.sched ≡ k.sched
  pub ipc : k'.ipc ≡ k.ipc
  pub cr3 : k'.cr3 ≡ k.cr3
  pub top : b.kstack_top ≡ b.tf_rsp + frame_size
  pub stack : k.heap.next + kstack_size ≤ b.kstack_top
  pub next : k'.heap.next ≡ b.kstack_top
  pub high : 16 ≤ b.tf_rsp
  pub frame : k'.frames b.tf_rsp ≡ initial_frame b.entry (user_stack_top - 8) role cap

initial_tf-IsBuilt :
    (top pml4 entry role cap tf : ℕ) (old : Bump) (k k' : Kernel)
    → old.next + kstack_size ≤ top
    → k.heap.next ≡ top
    → build_initial_tf top entry (user_stack_top - 8) role cap k ≡ done (tf, k')
    → IsBuilt role cap
        (record k { heap = old })
        (record { tf_rsp = tf; kstack_top = top; cr3 = pml4; entry = entry })
        k'
unfolding build_initial_tf
initial_tf-IsBuilt top pml4 entry role cap tf old k k' above next e =
    elim (Bool-cases (ltb top frame_size)) [
      | inl low ↦ absurd (ground arith)
      | inr room ↦
          let f : Frame = initial_frame entry (user_stack_top - 8) role cap in
          let at : tf ≡ top - frame_size = ground arith in
          let left : set_frame (top - frame_size) f k ≡ k' = ground arith in
          let self : (tf == (top - frame_size)) ≡ true = ground arith in
          record {
            sched = ground arith;
            ipc = ground arith;
            cr3 = ground arith;
            top = ground arith;
            stack = above;
            next = ground arith;
            high = ground arith;
            frame = subst (λ q. q.frames tf ≡ f) left (rw self refl);
          }
    ]

-- A kernel stack is above all that the heap has given, and the heap goes on from its end.
kstack_above :
    (heap : Bump) (top : ℕ) (heap' : Bump)
    → kstack_alloc_top heap ≡ done (top, heap')
    → (heap.next + kstack_size ≤ top) × (heap'.next ≡ top)
unfolding kstack_alloc_top
kstack_above heap top heap' e = elim (Run-cases (alloc kstack_size 1 heap)) [
  | inl failed ↦ absurd (ground arith)
  | inr ((none, heap1), full) ↦ absurd (ground arith)
  | inr ((some base, heap1), got) ↦ elim (Run-cases (checked_add base kstack_size)) [
    | inl wraps ↦ absurd (ground arith)
    | inr (end, added) ↦
        let (above, next) = alloc_above kstack_size base heap heap1 got in
        let same : heap1 ≡ heap' = ground arith in
        let at : end ≡ top = ground arith in
        let sum : end ≡ base + kstack_size = ground arith in
        let kept : saturating_add base kstack_size ≡ end = ground arith in
        (omega (arith, above, at, sum), ap (λ q. q.next) (sym same) ∙ next ∙ kept ∙ at)
  ]
]

build_stack-IsBuilt :
    (pml4 entry role cap : ℕ) (k k' : Kernel) (b : Built)
    → build_stack pml4 entry role cap k ≡ done (b, k')
    → IsBuilt role cap k b k'
unfolding build_stack
build_stack-IsBuilt pml4 entry role cap k k' b e = elim (Run-cases (kstack_alloc_top k.heap)) [
  | inl none_left ↦ absurd (ground arith)
  | inr ((top, heap), got) ↦
      let k1 : Kernel = record k { heap = heap } in
      elim (Run-cases (build_initial_tf top entry (user_stack_top - 8) role cap k1)) [
        | inl failed ↦ absurd (ground arith)
        | inr ((tf, k2), made) ↦
            let w =
              initial_tf-IsBuilt top pml4 entry role cap tf k.heap k1 k2
                (kstack_above k.heap top heap got).0 (kstack_above k.heap top heap got).1 made in
            let b' : Built = record { tf_rsp = tf; kstack_top = top; cr3 = pml4; entry = entry } in
            let same_b : b' ≡ b = ground arith in
            let same_k : k2 ≡ k' = ground arith in
            subst (λ q. IsBuilt role cap k q k') same_b (subst (IsBuilt role cap k b') same_k w)
      ]
]

pub build-IsBuilt :
    (elf : Elf) (role cap : ℕ) (k k' : Kernel) (b : Built)
    → build_proc_from_init elf role cap k ≡ done (b, k')
    → IsBuilt role cap k b k'
unfolding build_proc_from_init
build-IsBuilt elf role cap k k' b e =
    elim (Run-cases (address_space elf k.range (record { pmm = k.pmm; mem = k.mem }))) [
      | inl failed ↦ absurd (ground arith)
      | inr (((pml4, entry), st), made) ↦
          let w =
            build_stack-IsBuilt pml4 entry role cap (record k { pmm = st.pmm; mem = st.mem }) k' b
              (ground arith) in
          record {
            sched = w.sched;
            ipc = w.ipc;
            cr3 = w.cr3;
            top = w.top;
            stack = w.stack;
            next = w.next;
            high = w.high;
            frame = w.frame;
          }
    ]

-- What `enter_first_user` leaves when it goes on with the frame at `tf`.
pub record IsFirst (tf : ℕ) (k k' : Kernel) : Type 0 where
  pub entry : ℕ
  pub high : 16 ≤ tf
  pub sched :
      k'.sched ≡ set_rsp0 (tf + frame_size) (install_first tf (tf + frame_size) k'.cr3 k.sched)
  pub ipc : k'.ipc ≡ k.ipc
  pub next : k'.heap.next ≡ tf + frame_size
  pub frame : k'.frames tf ≡ initial_frame entry (user_stack_top - 8) 0 0

pub enter_first_user-IsFirst :
    (elf : Elf) (range : BootRange) (tf : ℕ) (k k' : Kernel)
    → enter_first_user elf range k ≡ done (tf, k')
    → IsFirst tf k k'
unfolding enter_first_user
enter_first_user-IsFirst elf range tf k k' e =
    elim (Run-cases (build_proc_from_init elf 0 0 (record k { range = range }))) [
      | inl failed ↦ absurd (ground arith)
      | inr ((b, k1), made) ↦
          let w = build-IsBuilt elf 0 0 (record k { range = range }) k1 b made in
          let same_tf : b.tf_rsp ≡ tf = ground arith in
          let installed : Kernel = record k1 {
            sched = set_rsp0 b.kstack_top (install_first b.tf_rsp b.kstack_top b.cr3 k1.sched);
            cr3 = b.cr3;
          } in
          let same_k : installed ≡ k' = ground arith in
          subst (IsFirst tf k) same_k (
            subst (λ t. IsFirst t k installed) same_tf
              (record {
                entry = b.entry;
                high = w.high;
                sched =
                    ap₂ (λ top s. set_rsp0 top (install_first b.tf_rsp top b.cr3 s)) w.top w.sched;
                ipc = w.ipc;
                next = w.next ∙ w.top;
                frame = w.frame;
              }))
    ]
