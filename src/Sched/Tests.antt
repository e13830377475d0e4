-- ===== src/Sched/Tests.antt =====
-- A table of two processes of kernel/src/sched.rs, and what the scheduler does with it.
use mantra_os.Common.{
  ℕ, ◌≡◌, refl, List, [], ◌∷◌, none, some, true, zero, suc, length, get_or, replicate, arith,
}
use mantra_os.Sched.{
  Sched, empty_proc, new_proc, proc_at, set_proc, spawn_proc, free_slot, fill_slot, cap_alloc_for,
  switch_from,
}
use mantra_os.Sched.Sample.{two, two-IsTable}
use mantra_os.Sched.Switch.{IsTable, Switched, switch-Switched}
use mantra_os.Sched.Fair.{Turns, timer_reaches}
use mantra_os.Sched.Table.{Spawned, spawn-Spawned, spawn-refused}
use mantra_os.Sched.Caps.{Minted, cap_alloc-Minted}

switch-Switched_example : Switched 0x9008 two (switch_from 0x9008 two).0 (switch_from 0x9008 two).1
switch-Switched_example = switch-Switched 0x9008 two two-IsTable

abbrev frames : List ℕ
frames = 1 ∷ 2 ∷ 3 ∷ 4 ∷ 5 ∷ 6 ∷ 7 ∷ 8 ∷ []

timer_reaches_example : Turns frames 8 1 two
timer_reaches_example =
    timer_reaches frames 1 two two-IsTable refl (omega arith) refl refl (omega arith)

abbrev three : Sched
three = set_proc two 2 (new_proc 0xd000 0xe000 0x7000)

spawns : spawn_proc 0xd000 0xe000 0x7000 two ≡ (some 2, three)
unfolding spawn_proc free_slot
spawns = refl

spawn-Spawned_example : Spawned 0xd000 0xe000 0x7000 two 2 three
spawn-Spawned_example = spawn-Spawned 0xd000 0xe000 0x7000 2 two three two-IsTable spawns

abbrev with_cap : Sched
with_cap = set_proc two 1 (record (new_proc 0xb000 0xc000 0x6000) { caps = 7 ∷ replicate 31 0 })

gives : cap_alloc_for 1 7 two ≡ (some 1, with_cap)
unfolding cap_alloc_for fill_slot
gives = refl

cap_alloc-Minted_example : Minted 1 7 1 two with_cap
cap_alloc-Minted_example = cap_alloc-Minted 1 7 1 two with_cap two-IsTable gives

-- Eight processes.
abbrev crowded : Sched
crowded = record two { procs = replicate 8 (new_proc 0x9000 0xa000 0x5000) }

crowd-caps :
    (n pid : ℕ)
    → length (get_or (replicate n (new_proc 0x9000 0xa000 0x5000)) pid empty_proc).caps ≡ 32
crowd-caps zero pid = refl
crowd-caps (suc n) zero = refl
crowd-caps (suc n) (suc pid) = crowd-caps n pid

crowded-IsTable : IsTable crowded
crowded-IsTable = record { procs = refl; current = omega arith; caps = crowd-caps 8 }

no_slot : spawn_proc 0xd000 0xe000 0x7000 crowded ≡ (none, crowded)
unfolding spawn_proc free_slot
no_slot = refl

spawn-refused_example : (crowded ≡ crowded) × ((proc_at crowded 3).alive ≡ true)
spawn-refused_example =
    spawn-refused 0xd000 0xe000 0x7000 3 crowded crowded crowded-IsTable (omega arith) no_slot
