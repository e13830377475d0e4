-- ===== src/Handover/Agrees.antt =====
-- What the kernel is entered with by boot/src/main.rs, against the kernel's image, the firmware's
-- memory and the memory manager of kernel/src/pmm.rs.
use mantra_os.Common.{
  ℕ, ◌+◌, ◌*◌, ◌/◌, ◌≤◌, ◌<◌, ◌≡◌, inl, inr, refl, sym, ap, subst, ◌∙◌, List, length, any, All,
  true, Option-cases, some, none, arith,
}
use mantra_os.Common.Word.{u64_max, u64_mod}
use mantra_os.Common.Run.{done, Run-cases, checked_add}
use mantra_os.Bootinfo.{magic, version}
use mantra_os.Pmm.{Pmm, PmmStats, init}
use mantra_os.Pmm.Cover.{Outside}
use mantra_os.Pmm.Serve.{serve, IsIn, IsIn-mono}
use mantra_os.Memory.{Mem}
use mantra_os.Boot.{Placed, boot_regions}
use mantra_os.Boot.Regions.{IsDescriptor, boot_regions-length}
use mantra_os.Boot.Safe.{IsPlaced, Allowed, offers, boot_then_serve}
use mantra_os.Image.{Loaded, copied, load_kernel}
use mantra_os.Image.Placement.{Misses}
use mantra_os.Image.Kernel.{Holds, load_kernel-Holds, outside-segments}
use mantra_os.Handover.{
  GraphicsOutput, regular, ElfFile, Firmware, Entry, enters, boot_info_of, placed_of, hand_over,
  load_file, main,
}

-- The image that the boot information names, in the memory at the entry.
abbrev pub image_at : Entry → Loaded
image_at e = record {
  load_base = e.boot_info.kernel_phys_base;
  load_end = e.boot_info.kernel_phys_end;
  mem = e.mem;
}

-- The tables pass the kernel's tests, the regions fit in their block and are as many as the boot
-- information says, and the image is the file's.
pub record Entered (bytes : List ℕ) (elf : ElfFile) (e : Entry) : Type 0 where
  pub known : (e.boot_info.magic ≡ magic) × (e.boot_info.version ≡ version)
  pub entry : e.entry_point ≡ elf.entry_point
  pub count : e.boot_info.regions_len ≡ length e.regions
  pub fits : length e.regions * 24 ≤ 0x8000
  pub before : Mem
  pub image : Holds bytes elf.program before (image_at e)

-- An address that a block of the memory manager may hold.
pub record Spared (fw : Firmware) (elf : ElfFile) (e : Entry) (a : ℕ) : Type 0 where
  pub conventional : any (λ d. offers d a) fw.memory_map ≡ true
  pub image : Outside e.boot_info.kernel_phys_base e.boot_info.kernel_phys_end a
  pub segments : All (Misses a) elf.program
  pub framebuffer : Outside e.boot_info.fb_base (e.boot_info.fb_base + e.boot_info.fb_size) a
  pub boot_info : Outside e.boot_info_ptr (e.boot_info_ptr + 4096) a
  pub regions : Outside e.boot_info.regions_ptr (e.boot_info.regions_ptr + 0x8000) a

-- The framebuffer and the two tables end within the address space.
pub record InSpace (e : Entry) : Type 0 where
  pub framebuffer : e.boot_info.fb_base + e.boot_info.fb_size < u64_mod
  pub boot_info : e.boot_info_ptr + 4096 < u64_mod
  pub regions : e.boot_info.regions_ptr + 0x8000 < u64_mod

-- How a run of `main` that enters the kernel went.
record Went (fw : Firmware) (bytes : List ℕ) (elf : ElfFile) (e : Entry) : Type 0 where
  gop : GraphicsOutput
  before : Mem
  loaded : Loaded
  short : length bytes < u64_max
  loads : load_kernel fw.kernel_pages bytes elf.program before ≡ done (some loaded)
  regions :
      e.regions
      ≡ boot_regions fw.memory_map (placed_of gop loaded e.boot_info_ptr e.boot_info.regions_ptr)
  info : e.boot_info ≡ boot_info_of gop loaded e.boot_info.regions_ptr (length e.regions)
  entry : e.entry_point ≡ elf.entry_point
  mem : e.mem ≡ loaded.mem

hand_over-Went :
    (fw : Firmware) (gop : GraphicsOutput) (bytes : List ℕ) (elf : ElfFile) (m : Mem) (l : Loaded)
    (e : Entry)
    → length bytes < u64_max
    → load_kernel fw.kernel_pages bytes elf.program m ≡ done (some l)
    → hand_over fw gop elf l ≡ done (enters e)
    → Went fw bytes elf e
unfolding hand_over
hand_over-Went fw gop bytes elf m l e short loads made = elim (Option-cases fw.boot_info_page) [
  | inl nothing ↦ absurd (ground arith)
  | inr (boot_info, got) ↦ elim (Option-cases fw.regions_block) [
    | inl nothing ↦ absurd (ground arith)
    | inr (regions_addr, given) ↦
        let regions = boot_regions fw.memory_map (placed_of gop l boot_info regions_addr) in
        let e' : Entry = record {
          boot_info_ptr = boot_info;
          boot_info = boot_info_of gop l regions_addr (length regions);
          regions = regions;
          entry_point = elf.entry_point;
          mem = l.mem;
        } in
        let same : e' ≡ e = ground arith in
        subst (Went fw bytes elf) same (record {
          gop = gop;
          before = m;
          loaded = l;
          short = short;
          loads = loads;
          regions = refl;
          info = refl;
          entry = refl;
          mem = refl;
        })
  ]
]

load_file-Went :
    (fw : Firmware) (gop : GraphicsOutput) (bytes : List ℕ) (elf : ElfFile) (addr : ℕ) (m : Mem)
    (e : Entry)
    → length bytes < u64_max
    → fw.parse bytes ≡ some elf
    → load_file fw gop bytes addr m ≡ done (enters e)
    → Went fw bytes elf e
unfolding load_file
load_file-Went fw gop bytes elf addr m e short parsed made =
    let read : Mem = copied m addr bytes 0 (length bytes) in
    elim (Run-cases (load_kernel fw.kernel_pages bytes elf.program read)) [
      | inl overflows ↦ absurd (ground arith)
      | inr (none, refused) ↦ absurd (ground arith)
      | inr (some l, loads) ↦ hand_over-Went fw gop bytes elf read l e short loads (ground arith)
    ]

main-Went :
    (fw : Firmware) (bytes : List ℕ) (elf : ElfFile) (m : Mem) (e : Entry)
    → fw.kernel_file ≡ some (regular bytes)
    → fw.parse bytes ≡ some elf
    → main fw m ≡ done (enters e)
    → Went fw bytes elf e
unfolding main
main-Went fw bytes elf m e file parsed made = elim (Option-cases fw.graphics_output) [
  | inl nothing ↦ absurd (ground arith)
  | inr (gop, screen) ↦ elim (Run-cases (checked_add (length bytes) 4095)) [
    | inl overflows ↦ absurd (ground arith)
    | inr (rounded, sum) ↦ elim (Option-cases (fw.file_pages (rounded / 4096))) [
      | inl nothing ↦ absurd (ground arith)
      | inr (addr, given) ↦
          load_file-Went fw gop bytes elf addr m e (ground arith) parsed (ground arith)
    ]
  ]
]

-- Where the firmware's map has at most 1361 descriptors, the memory of each of them, the framebuffer
-- and the two tables end within the address space, and `main` enters the kernel: the boot information
-- passes the kernel's test of its magic and version, the regions fit in their block and are as many
-- as it says, and the memory it names holds the file's segments as `load_kernel` promises. When the
-- kernel's `init` then succeeds on the regions, each address of each block that the memory manager
-- hands out, whatever is requested, is conventional memory of the firmware's map, and in none of the
-- kernel's image, the file's segments, the framebuffer, the boot information and the regions.
pub main_then_serve :
    (fw : Firmware) (bytes : List ℕ) (elf : ElfFile) (m : Mem) (e : Entry) (requests : List ℕ)
    (pmm : Pmm) (stats : PmmStats)
    → fw.kernel_file ≡ some (regular bytes)
    → fw.parse bytes ≡ some elf
    → All IsDescriptor fw.memory_map
    → length fw.memory_map ≤ 1361
    → InSpace e
    → main fw m ≡ done (enters e)
    → init e.regions ≡ done (some (pmm, stats))
    → Entered bytes elf e × All (IsIn (Spared fw elf e)) (serve requests (some pmm))
main_then_serve fw bytes elf m e requests pmm stats file parsed ds few space made starts =
    let w = main-Went fw bytes elf m e file parsed made in
    let base : e.boot_info.kernel_phys_base ≡ w.loaded.load_base =
      ap (λ i. i.kernel_phys_base) w.info in
    let end : e.boot_info.kernel_phys_end ≡ w.loaded.load_end =
      ap (λ i. i.kernel_phys_end) w.info in
    let at : Placed = placed_of w.gop w.loaded e.boot_info_ptr e.boot_info.regions_ptr in
    let same : w.loaded ≡ image_at e =
      sym (λ i. record { load_base = base i; load_end = end i; mem = w.mem i }) in
    let image : Holds bytes elf.program w.before (image_at e) =
      subst (Holds bytes elf.program w.before) same
        (load_kernel-Holds fw.kernel_pages bytes elf.program w.before w.loaded w.short w.loads) in
    let placed : IsPlaced at = record {
      kernel = omega (arith, image.pages.2, base, end);
      kernel_end = omega (arith, image.in_word, end);
      fb_end =
          omega (arith, space.framebuffer, ap (λ i. i.fb_base) w.info, ap (λ i. i.fb_size) w.info);
      boot_info_end = space.boot_info;
      regions_end = space.regions;
    } in
    let few_regions : length e.regions ≤ 1365 =
      omega (arith, ap length w.regions, boot_regions-length fw.memory_map at, few) in
    (
      record {
        known = (ap (λ i. i.magic) w.info, ap (λ i. i.version) w.info);
        entry = w.entry;
        count = ap (λ i. i.regions_len) w.info ∙ omega (arith, few_regions);
        fits = omega (arith, few_regions);
        before = w.before;
        image = image;
      },
      IsIn-mono (Allowed fw.memory_map at) (Spared fw elf e) (serve requests (some pmm))
          (λ a h.
            let far : Outside e.boot_info.kernel_phys_base e.boot_info.kernel_phys_end a =
              rw (base, end) h.kernel in
            record {
              conventional = h.conventional;
              image = far;
              segments = outside-segments bytes elf.program w.before (image_at e) a image far;
              framebuffer =
                  rw (ap (λ i. i.fb_base) w.info, ap (λ i. i.fb_size) w.info) h.framebuffer;
              boot_info = h.boot_info;
              regions = h.regions;
            })
          (boot_then_serve fw.memory_map at requests pmm stats ds placed few
            (ap init (sym w.regions) ∙ starts)),
    )
