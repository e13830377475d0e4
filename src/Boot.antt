-- ===== src/Boot.antt =====
-- boot/src/main.rs: the memory map that the boot loader hands to the kernel. The firmware's map, after
-- its library has sorted it, is an argument.
pub mod Regions
pub mod Safe
use mantra_os.Common.{
  ℕ, ◌+◌, ◌-◌, ◌*◌, ◌/◌, ◌^◌, Bool, ◌||◌, leb, ◌==◌, if◌then◌else◌, List, [], ◌∷◌, ◌++◌, length,
}
use mantra_os.Common.Word.{saturating_mul}
use mantra_os.Bootinfo.{RegionKind, kind_code, MemoryRegion}

-- `uefi::table::boot::MemoryType`, as far as the code tells its values apart.
pub data MemoryType : Type 0 where
  conventional acpi_reclaim acpi_non_volatile mmio mmio_port_space other : MemoryType

-- `MemoryDescriptor`: the fields that are read.
pub record MemoryDescriptor : Type 0 where
  pub phys_start : ℕ
  pub page_count : ℕ
  pub ty : MemoryType

abbrev pub kind_of : MemoryType → RegionKind
kind_of conventional = RegionKind.usable
kind_of acpi_reclaim = RegionKind.acpi_reclaim
kind_of acpi_non_volatile = RegionKind.acpi_nvs
kind_of mmio = RegionKind.mmio
kind_of mmio_port_space = RegionKind.mmio
kind_of other = RegionKind.reserved

abbrev pub regions_pages : ℕ
regions_pages = 8

-- The size of a `MemoryRegion`.
abbrev pub region_size : ℕ
region_size = 24

abbrev pub regions_cap : ℕ
regions_cap = regions_pages * 4096 / region_size

-- The closure `push`, on the first `out_len` entries of `out_regions`.
pub push : List MemoryRegion → ℕ → ℕ → RegionKind → List MemoryRegion
push out base len kind =
    if len == 0 || leb regions_cap (length out)
    then out
    else out ++ record { base = base; len = len; kind = kind_code kind } ∷ []

-- The loop over the firmware's map.
pub translate : List MemoryRegion → List MemoryDescriptor → List MemoryRegion
unfolding push
translate out [] = out
translate out (desc ∷ descs) =
    translate (push out desc.phys_start (saturating_mul desc.page_count 4096) (kind_of desc.ty))
      descs

-- What the boot loader has placed in memory.
pub record Placed : Type 0 where
  pub load_base : ℕ
  pub load_end : ℕ
  pub fb_base : ℕ
  pub fb_size : ℕ
  pub boot_info : ℕ
  pub regions_addr : ℕ

-- The four ranges that the boot loader adds.
pub add_reserved : Placed → List MemoryRegion → List MemoryRegion
unfolding push
add_reserved at out =
    let out1 = push out at.load_base (at.load_end - at.load_base) RegionKind.kernel in
    let out2 = push out1 at.fb_base at.fb_size RegionKind.framebuffer in
    let out3 = push out2 at.boot_info 4096 RegionKind.boot in
    push out3 at.regions_addr (regions_pages * 4096) RegionKind.boot

unfoldable pub boot_regions : List MemoryDescriptor → Placed → List MemoryRegion
unfolding translate add_reserved
boot_regions descs at = add_reserved at (translate [] descs)
