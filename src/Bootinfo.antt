-- ===== src/Bootinfo.antt =====
-- libs/bootinfo/src/lib.rs: the tables that the boot loader hands to the kernel.
use mantra_os.Common.{ℕ}

-- `#[repr(u32)] enum RegionKind`.
pub data RegionKind : Type 0 where
  unknown usable reserved acpi_reclaim acpi_nvs mmio kernel boot framebuffer : RegionKind

-- `kind as u32`.
abbrev pub kind_code : RegionKind → ℕ
kind_code unknown = 0
kind_code usable = 1
kind_code reserved = 2
kind_code acpi_reclaim = 3
kind_code acpi_nvs = 4
kind_code mmio = 5
kind_code kernel = 6
kind_code boot = 7
kind_code framebuffer = 8

-- `MemoryRegion`, less its padding field.
pub record MemoryRegion : Type 0 where
  pub base : ℕ
  pub len : ℕ
  pub kind : ℕ

-- `BootInfo`, less its reserved field.
pub record BootInfo : Type 0 where
  pub magic : ℕ
  pub version : ℕ
  pub fb_base : ℕ
  pub fb_size : ℕ
  pub fb_width : ℕ
  pub fb_height : ℕ
  pub fb_stride : ℕ
  pub fb_format : ℕ
  pub regions_ptr : ℕ
  pub regions_len : ℕ
  pub kernel_phys_base : ℕ
  pub kernel_phys_end : ℕ

-- `BootInfo::MAGIC`.
abbrev pub magic : ℕ
magic = 0x4d_41_4e_54

-- `BootInfo::VERSION`.
abbrev pub version : ℕ
version = 2
