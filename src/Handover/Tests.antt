-- ===== src/Handover/Tests.antt =====
-- A kernel of two segments on a small machine: 512 KiB of memory from 1 MiB on and a page of a device.
use mantra_os.Common.{ℕ, ◌≡◌, refl, ap, ◌∙◌, true, List, [], ◌∷◌, All, some, arith}
use mantra_os.Common.Run.{Run, done, panic}
use mantra_os.Memory.{Mem}
use mantra_os.Pmm.{init}
use mantra_os.Pmm.Sample.{handed_over, manager, stats, handed_over-init}
use mantra_os.Pmm.Serve.{serve, IsIn}
use mantra_os.Boot.{MemoryType, boot_regions}
use mantra_os.Image.{load_kernel}
use mantra_os.Handover.{UefiPixelFormat, FileType, ElfFile, Firmware, Entry, Ending, main}
use mantra_os.Handover.Agrees.{Entered, Spared, InSpace, main_then_serve}

abbrev file : List ℕ
file = 0x7f ∷ 0x45 ∷ 0x90 ∷ 0xf4 ∷ 1 ∷ 2 ∷ []

abbrev elf : ElfFile
elf = record {
  program =
      record { vaddr = 0x10_0010; memsz = 2; filesz = 2; offset = 2 }
      ∷ record { vaddr = 0x12_2000; memsz = 0x1000; filesz = 2; offset = 4 }
      ∷ [];
  entry_point = 0x10_0010;
}

abbrev firmware : Firmware
firmware = record {
  graphics_output = some (record {
    fb_base = 0x8000_0000;
    fb_size = 0x30_0000;
    width = 1024;
    height = 768;
    stride = 1024;
    format = UefiPixelFormat.bgr;
  });
  kernel_file = some (FileType.regular file);
  file_pages = λ n. some 0x17_0000;
  parse = λ bytes. some elf;
  kernel_pages = λ base n. true;
  boot_info_page = some 0x15_0000;
  regions_block = some 0x16_0000;
  memory_map =
      record { phys_start = 0x10_0000; page_count = 0x80; ty = MemoryType.conventional }
      ∷ record { phys_start = 0x20_0000; page_count = 1; ty = MemoryType.mmio }
      ∷ [];
}

abbrev noise : Mem
noise a = 0xaa

abbrev nothing : Entry
nothing = record {
  boot_info_ptr = 0;
  boot_info = record {
    magic = 0;
    version = 0;
    fb_base = 0;
    fb_size = 0;
    fb_width = 0;
    fb_height = 0;
    fb_stride = 0;
    fb_format = 0;
    regions_ptr = 0;
    regions_len = 0;
    kernel_phys_base = 0;
    kernel_phys_end = 0;
  };
  regions = [];
  entry_point = 0;
  mem = noise;
}

abbrev entry_of : Run Ending → Entry
entry_of panic = nothing
entry_of (done Ending.failed) = nothing
entry_of (done (Ending.enters e)) = e

abbrev entered : Entry
entered = entry_of (main firmware noise)

boots : main firmware noise ≡ done (Ending.enters entered)
unfolding main load_kernel boot_regions
boots = refl

hands_over : entered.regions ≡ handed_over
unfolding main load_kernel boot_regions
hands_over = refl

entered-InSpace : InSpace entered
unfolding main load_kernel boot_regions
entered-InSpace = record {
  framebuffer = omega arith;
  boot_info = omega arith;
  regions = omega arith;
}

main_then_serve_example :
    Entered file elf entered
    × All (IsIn (Spared firmware elf entered)) (serve (40 ∷ 2 ∷ 1 ∷ []) (some manager))
main_then_serve_example =
    main_then_serve firmware file elf noise entered (40 ∷ 2 ∷ 1 ∷ []) manager stats refl refl
      (omega arith, (omega arith, tt)) (omega arith) entered-InSpace boots
      (ap init hands_over ∙ handed_over-init)
