-- ===== src/Memory/Tests.antt =====
-- A page walk through a small memory.
use mantra_os.Common.{ℕ, ◌+◌, ◌%◌, ◌≡◌, refl, ◌↔◌, ◌==◌, if◌then◌else◌, some}
use mantra_os.Memory.{Mem, walk, step_down, is_user, read_u64, index_at}
use mantra_os.Memory.Walk.{UserMapping, walk-UserMapping}

-- Four tables at 0x1000 to 0x4000, whose first entries lead on to the frame at 0x5000.
abbrev mapped : Mem
mapped p =
    if p == 0x1000
    then 7
    else if p == 0x1001
    then 0x20
    else if p == 0x2000
    then 7
    else if p == 0x2001
    then 0x30
    else if p == 0x3000
    then 7
    else if p == 0x3001
    then 0x40
    else if p == 0x4000
    then 7
    else if p == 0x4001
    then 0x50
    else 0

walk-UserMapping_example :
    (walk mapped 0x1000 0x123 ≡ some 0x5123)
    ↔ ((frame : ℕ) × UserMapping mapped 0x1000 0x123 frame × (0x5123 ≡ frame + 0x123 % 4096))
walk-UserMapping_example = walk-UserMapping mapped 0x1000 0x123 0x5123

walks : walk mapped 0x1000 0x123 ≡ some 0x5123
unfolding walk step_down is_user read_u64 index_at
walks = refl
