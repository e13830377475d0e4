-- ===== src/Sched/Switch.antt =====
-- The context switch of kernel/src/sched.rs: what it saves, what it loads, and what it leaves alone.
use mantra_os.Common.{
  ℕ, ◌<◌, ◌≡◌, ◌≢◌, inl, inr, refl, sym, ap, subst, ◌∙◌, true, false, ◌==◌, ==_iff, Bool-cases,
  length, get_or, length-set, set-out_of_range, get_or-set_self, get_or-set_ne, arith,
}
use native.Mathlib.Decide.{ℕ_discrete, dec_lt}
use mantra_os.Sched.{
  Sched, Proc, empty_proc, proc_at, set_proc, can_run, pick_next_runnable, switch_from,
}
use mantra_os.Sched.Pick.{runs, after, Picks, pick-Picks}

-- The tables keep their sizes, and the current process is one of the table.
pub record IsTable (s : Sched) : Type 0 where
  pub procs : length s.procs ≡ 8
  pub current : s.current < 8
  pub caps : (pid : ℕ) → length (proc_at s pid).caps ≡ 32

pub proc_at-set_self :
    (s : Sched) (pid : ℕ) (p : Proc) → pid < length s.procs → proc_at (set_proc s pid p) pid ≡ p
proc_at-set_self s pid p h = get_or-set_self s.procs pid p empty_proc h

pub proc_at-set_ne :
    (s : Sched) (pid other : ℕ) (p : Proc)
    → pid ≢ other
    → proc_at (set_proc s pid p) other ≡ proc_at s other
proc_at-set_ne s pid other p h = get_or-set_ne s.procs p empty_proc h

-- A field that agrees at the written process agrees everywhere.
pub field-set_proc {ℓ} :
    {A : Type ℓ} (f : Proc → A) (s : Sched) (pid other : ℕ) (p : Proc)
    → pid < length s.procs
    → f p ≡ f (proc_at s pid)
    → f (proc_at (set_proc s pid p) other) ≡ f (proc_at s other)
field-set_proc f s pid other p h e = elim (ℕ_discrete pid other) [
  | yes same ↦ rw (← same) (ap f (proc_at-set_self s pid p h) ∙ e)
  | no differ ↦ ap f (proc_at-set_ne s pid other p differ)
]

-- So too where the written process is out of the table.
pub field-set_proc_any {ℓ} :
    {A : Type ℓ} (f : Proc → A) (s : Sched) (pid other : ℕ) (p : Proc)
    → f p ≡ f (proc_at s pid)
    → f (proc_at (set_proc s pid p) other) ≡ f (proc_at s other)
field-set_proc_any f s pid other p e = elim (dec_lt pid (length s.procs)) [
  | yes lt ↦ field-set_proc f s pid other p lt e
  | no ge ↦ ap (λ l. f (get_or l other empty_proc)) (set-out_of_range s.procs pid p (omega arith))
]

-- The current process's frame pointer is stored before the pick.
abbrev pub saved : ℕ → Sched → Sched
saved tf s = set_proc s s.current (record (proc_at s s.current) { tf_rsp = tf })

pub saved-field {ℓ} :
    {A : Type ℓ} (f : Proc → A) (tf : ℕ) (s : Sched) (pid : ℕ)
    → IsTable s
    → ((p : Proc) → f (record p { tf_rsp = tf }) ≡ f p)
    → f (proc_at (saved tf s) pid) ≡ f (proc_at s pid)
saved-field f tf s pid v e =
    field-set_proc f s s.current pid (record (proc_at s s.current) { tf_rsp = tf })
      (rw v.procs v.current) (e (proc_at s s.current))

saved-runs : (tf : ℕ) (s : Sched) (pid : ℕ) → IsTable s → runs (saved tf s) pid ≡ runs s pid
saved-runs tf s pid v = saved-field can_run tf s pid v (λ p. refl)

-- What a switch at frame `tf` makes of `s`, with the answer `r`.
pub record Switched (tf : ℕ) (s : Sched) (r : ℕ) (s' : Sched) : Type 0 where
  pub table : IsTable s'
  pub on : s'.inited ≡ s.inited
  pub saves : (proc_at s' s.current).tf_rsp ≡ tf
  pub same_runs : (pid : ℕ) → runs s' pid ≡ runs s pid
  pub same_caps : (pid : ℕ) → (proc_at s' pid).caps ≡ (proc_at s pid).caps
  pub same_blocked : (pid : ℕ) → (proc_at s' pid).blocked_ep ≡ (proc_at s pid).blocked_ep
  pub same_cr3 : (pid : ℕ) → (proc_at s' pid).cr3 ≡ (proc_at s pid).cr3
  pub same_alive : (pid : ℕ) → (proc_at s' pid).alive ≡ (proc_at s pid).alive
  pub same_stacks : (pid : ℕ) → (proc_at s' pid).kstack_top ≡ (proc_at s pid).kstack_top
  pub other_frames : (pid : ℕ) → s.current ≢ pid → (proc_at s' pid).tf_rsp ≡ (proc_at s pid).tf_rsp
  pub picks : Picks s s.current 8 s.current s'.current
  pub loads :
      s'.current ≢ s.current
      → (r ≡ (proc_at s s'.current).tf_rsp)
        × (s'.next_cr3 ≡ (proc_at s s'.current).cr3)
        × (s'.rsp0 ≡ (proc_at s s'.current).kstack_top)
  pub stays : s'.current ≡ s.current → (r ≡ 0) × (s'.next_cr3 ≡ s.next_cr3) × (s'.rsp0 ≡ s.rsp0)

Picks-cong :
    (s t : Sched) (cur pid : ℕ)
    → ((i : ℕ) → runs s i ≡ runs t i)
    → Picks s cur 8 cur pid
    → Picks t cur 8 cur pid
Picks-cong s t cur pid e (inl (k, lt, at, can, before)) =
    inl (k, lt, at, sym (e pid) ∙ can, λ m h. sym (e (after cur m)) ∙ before m h)
Picks-cong s t cur pid e (inr (at, before)) = inr (at, λ m h. sym (e (after cur m)) ∙ before m h)

Picks-lt : (s : Sched) (cur pid : ℕ) → cur < 8 → Picks s cur 8 cur pid → pid < 8
Picks-lt s cur pid h (inl (k, lt, at, can, before)) = omega arith
Picks-lt s cur pid h (inr (at, before)) = omega arith

switch_stay :
    (tf : ℕ) (s : Sched)
    → (pick_next_runnable s.current (saved tf s) == s.current) ≡ true
    → switch_from tf s ≡ (0, saved tf s)
unfolding switch_from
switch_stay tf s e = rw (e, switch_from)

abbrev switched_to : ℕ → Sched → Sched
switched_to next s = record s {
  rsp0 = (proc_at s next).kstack_top;
  next_cr3 = (proc_at s next).cr3;
  current = next;
}

switch_go :
    (tf : ℕ) (s : Sched)
    → (pick_next_runnable s.current (saved tf s) == s.current) ≡ false
    → switch_from tf s ≡ (
      (proc_at (saved tf s) (pick_next_runnable s.current (saved tf s))).tf_rsp,
      switched_to (pick_next_runnable s.current (saved tf s)) (saved tf s),
    )
unfolding switch_from
switch_go tf s e = rw (e, switch_from)

saved-IsTable : (tf : ℕ) (s : Sched) → IsTable s → IsTable (saved tf s)
saved-IsTable tf s v = record {
  procs = length-set s.procs s.current (record (proc_at s s.current) { tf_rsp = tf }) ∙ v.procs;
  current = v.current;
  caps = λ pid. ap length (saved-field (λ p. p.caps) tf s pid v (λ p. refl)) ∙ v.caps pid;
}

-- With a well-formed table, a switch stores the frame of the process that was running and goes to
-- the first process after it, round the table, that can run. If that is another process, the answer
-- is its saved frame, and its address space and kernel stack are loaded; if it is the same one, the
-- answer is 0 and they stay. No process's flags, capabilities, blocked endpoint, address space or
-- kernel stack changes, nor another process's saved frame, and the table stays well formed.
pub switch-Switched :
    (tf : ℕ) (s : Sched) → IsTable s → Switched tf s (switch_from tf s).0 (switch_from tf s).1
switch-Switched tf s v =
    let next : ℕ = pick_next_runnable s.current (saved tf s) in
    let picked =
      Picks-cong (saved tf s) s s.current next (λ i. saved-runs tf s i v)
        (pick-Picks s.current (saved tf s)) in
    let mark : Proc = record (proc_at s s.current) { tf_rsp = tf } in
    let stored : (proc_at (saved tf s) s.current).tf_rsp ≡ tf =
      ap (λ p. p.tf_rsp) (proc_at-set_self s s.current mark (rw v.procs v.current)) in
    elim (Bool-cases (next == s.current)) [
      | inl e ↦
          let same : next ≡ s.current = (==_iff next s.current).0 e in
          rw (switch_stay tf s e) (record {
            table = saved-IsTable tf s v;
            on = refl;
            saves = stored;
            same_runs = λ i. saved-runs tf s i v;
            same_caps = λ i. saved-field (λ p. p.caps) tf s i v (λ p. refl);
            same_blocked = λ i. saved-field (λ p. p.blocked_ep) tf s i v (λ p. refl);
            same_cr3 = λ i. saved-field (λ p. p.cr3) tf s i v (λ p. refl);
            same_alive = λ i. saved-field (λ p. p.alive) tf s i v (λ p. refl);
            same_stacks = λ i. saved-field (λ p. p.kstack_top) tf s i v (λ p. refl);
            other_frames = λ i h. ap (λ p. p.tf_rsp) (proc_at-set_ne s s.current i mark h);
            picks = subst (Picks s s.current 8 s.current) same picked;
            loads = λ differ. absurd (differ refl);
            stays = λ _. (refl, refl, refl);
          })
      | inr e ↦
          let differ : next ≢ s.current = ground arith in
          rw (switch_go tf s e) (record {
            table = record {
              procs = (saved-IsTable tf s v).procs;
              current = Picks-lt s s.current next v.current picked;
              caps = (saved-IsTable tf s v).caps;
            };
            on = refl;
            saves = stored;
            same_runs = λ i. saved-runs tf s i v;
            same_caps = λ i. saved-field (λ p. p.caps) tf s i v (λ p. refl);
            same_blocked = λ i. saved-field (λ p. p.blocked_ep) tf s i v (λ p. refl);
            same_cr3 = λ i. saved-field (λ p. p.cr3) tf s i v (λ p. refl);
            same_alive = λ i. saved-field (λ p. p.alive) tf s i v (λ p. refl);
            same_stacks = λ i. saved-field (λ p. p.kstack_top) tf s i v (λ p. refl);
            other_frames = λ i h. ap (λ p. p.tf_rsp) (proc_at-set_ne s s.current i mark h);
            picks = picked;
            loads = λ _. (
              ap (λ p. p.tf_rsp) (proc_at-set_ne s s.current next mark (λ q. differ (sym q))),
              saved-field (λ p. p.cr3) tf s next v (λ p. refl),
              saved-field (λ p. p.kstack_top) tf s next v (λ p. refl),
            );
            stays = λ same. absurd (differ same);
          })
    ]
