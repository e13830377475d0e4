-- ===== src/Ipc/Sample.antt =====
-- An endpoint of kernel/src/ipc.rs that a process waits on, for the tests.
use mantra_os.Common.{◌≡◌, refl, true, some}
use mantra_os.Ipc.{Ipc, boot, empty_endpoint, waiter_push, waiter_pop, push_waiter, pop_waiter}

-- Process 1 waits on endpoint 3.
abbrev pub waited : Ipc
waited = (waiter_push 3 1 boot).1

pub waits : (waiter_push 3 0 boot).0 ≡ true
unfolding waiter_push push_waiter empty_endpoint
waits = refl

pub waiter_there : waiter_pop 3 waited ≡ (some 1, (waiter_pop 3 waited).1)
unfolding waiter_pop waiter_push push_waiter pop_waiter empty_endpoint
waiter_there = refl
