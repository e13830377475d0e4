-- ===== src/Memory/Sample.antt =====
-- Memory without any mapping, for the tests.
use mantra_os.Common.{◌≡◌, refl, false, [], ◌∷◌}
use mantra_os.Memory.{Mem, copy_out, virt_to_phys_in, walk, step_down, is_user, read_u64, index_at}

abbrev pub unmapped : Mem
unmapped p = 0

pub unmapped-copy_out : (copy_out unmapped 0x6000 0x40_0000 0 (1 ∷ [])).0 ≡ false
unfolding copy_out virt_to_phys_in walk step_down is_user read_u64 index_at
unmapped-copy_out = refl
