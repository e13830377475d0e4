-- ===== src/Handover.antt =====
-- boot/src/main.rs as a whole, from the framebuffer to the jump to the kernel. The firmware's answers
-- and the ELF library's parse are arguments.
pub mod Agrees
mod Tests
use mantra_os.Common.{ℕ, ◌+◌, ◌*◌, ◌/◌, ◌%◌, ◌^◌, Bool, List, [], ◌∷◌, length, Option, none, some}
use mantra_os.Common.Run.{Run, done, panic, checked_add}
use mantra_os.Bootinfo.{BootInfo, MemoryRegion, magic, version}
use mantra_os.Memory.{Mem}
use mantra_os.Boot.{MemoryDescriptor, Placed, boot_regions}
use mantra_os.Image.{Segment, Loaded, copied, load_kernel}

-- `uefi::proto::console::gop::PixelFormat`, as far as the code tells its values apart.
pub data UefiPixelFormat : Type 0 where
  rgb bgr other : UefiPixelFormat

-- `MantraPixelFormat` of it, `as u32`.
abbrev pub pixel_format : UefiPixelFormat → ℕ
pixel_format rgb = 1
pixel_format bgr = 2
pixel_format other = 0

-- What the graphics output says: its framebuffer and its current mode.
pub record GraphicsOutput : Type 0 where
  pub fb_base : ℕ
  pub fb_size : ℕ
  pub width : ℕ
  pub height : ℕ
  pub stride : ℕ
  pub format : UefiPixelFormat

-- `FileType` of `\kernel.elf`: a regular file with its bytes, or another.
pub data FileType : Type 0 where
  regular : List ℕ → FileType
  directory : FileType

-- What `ElfFile` answers: the program headers of type `Load` and the entry point.
pub record ElfFile : Type 0 where
  pub program : List Segment
  pub entry_point : ℕ

-- The answers of the firmware and of the ELF library; `none` is an error. The requests for pages are
-- for the file's buffer, at the address of the kernel, for the boot information and for the regions.
pub record Firmware : Type 0 where
  pub graphics_output : Option GraphicsOutput
  pub kernel_file : Option FileType
  pub file_pages : ℕ → Option ℕ
  pub parse : List ℕ → Option ElfFile
  pub kernel_pages : ℕ → ℕ → Bool
  pub boot_info_page : Option ℕ
  pub regions_block : Option ℕ
  pub memory_map : List MemoryDescriptor

-- What the kernel is entered with. The boot information and the regions are values here, not bytes.
pub record Entry : Type 0 where
  pub boot_info_ptr : ℕ
  pub boot_info : BootInfo
  pub regions : List MemoryRegion
  pub entry_point : ℕ
  pub mem : Mem

-- How `main` ends: with a status that is an error, or in the kernel.
pub data Ending : Type 0 where
  failed : Ending
  enters : Entry → Ending

abbrev pub as_u32 : ℕ → ℕ
as_u32 x = x % 2 ^ 32

-- The boot information before the memory map is translated, with the number of regions.
abbrev pub boot_info_of : GraphicsOutput → Loaded → ℕ → ℕ → BootInfo
boot_info_of gop l regions_addr out_len = record {
  magic = magic;
  version = version;
  fb_base = gop.fb_base;
  fb_size = gop.fb_size;
  fb_width = as_u32 gop.width;
  fb_height = as_u32 gop.height;
  fb_stride = as_u32 gop.stride;
  fb_format = pixel_format gop.format;
  regions_ptr = regions_addr;
  regions_len = as_u32 out_len;
  kernel_phys_base = l.load_base;
  kernel_phys_end = l.load_end;
}

abbrev pub placed_of : GraphicsOutput → Loaded → ℕ → ℕ → Placed
placed_of gop l boot_info regions_addr = record {
  load_base = l.load_base;
  load_end = l.load_end;
  fb_base = gop.fb_base;
  fb_size = gop.fb_size;
  boot_info = boot_info;
  regions_addr = regions_addr;
}

-- From the loaded kernel on: the pages for the tables, the memory map and the jump.
pub hand_over : Firmware → GraphicsOutput → ElfFile → Loaded → Run Ending
hand_over fw gop elf l = elim fw.boot_info_page [
  | none ↦ panic
  | some boot_info ↦ elim fw.regions_block [
    | none ↦ panic
    | some regions_addr ↦
        let regions = boot_regions fw.memory_map (placed_of gop l boot_info regions_addr) in
        done (
          enters (record {
            boot_info_ptr = boot_info;
            boot_info = boot_info_of gop l regions_addr (length regions);
            regions = regions;
            entry_point = elf.entry_point;
            mem = l.mem;
          }))
  ]
]

-- With the file's bytes read to `addr`.
pub load_file : Firmware → GraphicsOutput → List ℕ → ℕ → Mem → Run Ending
unfolding hand_over
load_file fw gop bytes addr m = elim (fw.parse bytes) [
  | none ↦ done failed
  | some elf ↦
      elim (load_kernel fw.kernel_pages bytes elf.program (copied m addr bytes 0 (length bytes))) [
        | panic ↦ panic
        | done none ↦ done failed
        | done (some l) ↦ hand_over fw gop elf l
      ]
]

-- `main`, less its messages.
pub main : Firmware → Mem → Run Ending
unfolding load_file
main fw m = elim fw.graphics_output [
  | none ↦ panic
  | some gop ↦ elim fw.kernel_file [
    | none ↦ panic
    | some directory ↦ done failed
    | some (regular bytes) ↦ elim (checked_add (length bytes) 4095) [
      | panic ↦ panic
      | done rounded ↦ elim (fw.file_pages (rounded / 4096)) [
        | none ↦ panic
        | some addr ↦ load_file fw gop bytes addr m
      ]
    ]
  ]
]
