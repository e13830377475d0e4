-- ===== src/Boot/Safe.antt =====
-- What the kernel hands out of the memory map of boot/src/main.rs.
use mantra_os.Common.{
  ℕ, ◌+◌, ◌-◌, ◌*◌, ◌≤◌, ◌<◌, ◌≡◌, inl, inr, refl, sym, ap, subst, ◌∙◌, Bool, true, false, ◌&&◌,
  ◌||◌, ltb, leb, ◌==◌, Bool-cases, List, [], ◌∷◌, length, any, All, some, arith,
}
use mantra_os.Common.Run.{done}
use mantra_os.Common.Word.{u64_mod, saturating_mul}
use mantra_os.Bootinfo.{RegionKind, kind_code, MemoryRegion}
use mantra_os.Pmm.{Pmm, PmmStats, init}
use mantra_os.Pmm.Cover.{Outside}
use mantra_os.Pmm.Init.{IsRegion, usable_page, reserved_page}
use mantra_os.Pmm.Serve.{serve, IsIn, IsIn-mono, IsUsable, init_then_serve}
use mantra_os.Boot.{
  MemoryDescriptor, kind_of, regions_cap, regions_pages, push, translate, Placed, add_reserved,
  boot_regions,
}
use mantra_os.Boot.Regions.{
  region, region_of, IsDescriptor, IsBlind, push-any, push-length, push-IsRegion, translate-any,
}

-- The placed parts end within the address space.
pub record IsPlaced (at : Placed) : Type 0 where
  pub kernel : at.load_base ≤ at.load_end
  pub kernel_end : at.load_end < u64_mod
  pub fb_end : at.fb_base + at.fb_size < u64_mod
  pub boot_info_end : at.boot_info + 4096 < u64_mod
  pub regions_end : at.regions_addr + 0x8000 < u64_mod

-- The descriptor is of conventional memory that holds the address.
abbrev pub offers : MemoryDescriptor → ℕ → Bool
offers d a =
    kind_code (kind_of d.ty) == 1
    && (leb d.phys_start a && ltb a (d.phys_start + d.page_count * 4096))

-- Conventional memory of the firmware's map, and no part that the boot loader has placed.
pub record Allowed (descs : List MemoryDescriptor) (at : Placed) (a : ℕ) : Type 0 where
  pub conventional : any (λ d. offers d a) descs ≡ true
  pub kernel : Outside at.load_base at.load_end a
  pub framebuffer : Outside at.fb_base (at.fb_base + at.fb_size) a
  pub boot_info : Outside at.boot_info (at.boot_info + 4096) a
  pub regions : Outside at.regions_addr (at.regions_addr + 0x8000) a

usable-IsBlind : (a : ℕ) → IsBlind (λ r. usable_page r a)
usable-IsBlind a base kind = ground arith

reserved-IsBlind : (a : ℕ) → IsBlind (λ r. reserved_page r a)
reserved-IsBlind a base kind = ground arith

abbrev kernel_of : Placed → MemoryRegion
kernel_of at = region at.load_base (at.load_end - at.load_base) RegionKind.kernel

abbrev fb_of : Placed → MemoryRegion
fb_of at = region at.fb_base at.fb_size RegionKind.framebuffer

abbrev info_of : Placed → MemoryRegion
info_of at = region at.boot_info 4096 RegionKind.boot

abbrev map_of : Placed → MemoryRegion
map_of at = region at.regions_addr (regions_pages * 4096) RegionKind.boot

add_reserved-any :
    (p : MemoryRegion → Bool) (at : Placed) (out : List MemoryRegion)
    → IsBlind p
    → length out + 4 ≤ regions_cap
    → any p (add_reserved at out)
      ≡ ((((any p out || p (kernel_of at)) || p (fb_of at)) || p (info_of at)) || p (map_of at))
unfolding add_reserved
add_reserved-any p at out blind room =
    let out1 = push out at.load_base (at.load_end - at.load_base) RegionKind.kernel in
    let out2 = push out1 at.fb_base at.fb_size RegionKind.framebuffer in
    let out3 = push out2 at.boot_info 4096 RegionKind.boot in
    let l1 = push-length out at.load_base (at.load_end - at.load_base) RegionKind.kernel in
    let l2 = push-length out1 at.fb_base at.fb_size RegionKind.framebuffer in
    let l3 = push-length out2 at.boot_info 4096 RegionKind.boot in
    let a1 =
      push-any p out at.load_base (at.load_end - at.load_base) RegionKind.kernel (omega arith)
        (blind at.load_base RegionKind.kernel) in
    let a2 =
      push-any p out1 at.fb_base at.fb_size RegionKind.framebuffer (omega (arith, l1))
        (blind at.fb_base RegionKind.framebuffer) in
    let a3 =
      push-any p out2 at.boot_info 4096 RegionKind.boot (omega (arith, l1, l2))
        (blind at.boot_info RegionKind.boot) in
    let a4 =
      push-any p out3 at.regions_addr (regions_pages * 4096) RegionKind.boot
        (omega (arith, l1, l2, l3)) (blind at.regions_addr RegionKind.boot) in
    a4
    ∙ ap (λ b. b || p (map_of at))
        (a3 ∙ ap (λ b. b || p (info_of at)) (a2 ∙ ap (λ b. b || p (fb_of at)) a1))

offers-of :
    (d : MemoryDescriptor) (a : ℕ)
    → IsDescriptor d
    → usable_page (region_of d) a ≡ true
    → offers d a ≡ true
offers-of d a h e = ground arith

or-true : (b : Bool) → (b || true) ≡ true
or-true true = refl
or-true false = refl

any-offers :
    (descs : List MemoryDescriptor) (a : ℕ)
    → All IsDescriptor descs
    → any (λ d. usable_page (region_of d) a) descs ≡ true
    → any (λ d. offers d a) descs ≡ true
any-offers [] a h e = e
any-offers (d ∷ descs) a h e = elim (Bool-cases (usable_page (region_of d) a)) [
  | inl here ↦ rw (offers-of d a h.0 here) refl
  | inr later ↦
      let rest : any (λ c. usable_page (region_of c) a) descs ≡ true = sym (rw later refl) ∙ e in
      rw (any-offers descs a h.1 rest) (or-true (offers d a))
]

-- A part that is not met by a page lies outside it.
outside_reserved :
    (base len a : ℕ) (kind : RegionKind)
    → (kind_code kind == 1) ≡ false
    → base + len < u64_mod
    → reserved_page (region base len kind) a ≡ false
    → Outside base (base + len) a
outside_reserved base len a kind not_usable h e = ground arith

or-false_split : (a b : Bool) → (a || b) ≡ false → (a ≡ false) × (b ≡ false)
or-false_split a b e = ground arith

-- The parts that the boot loader adds are not usable.
none_usable :
    (b : Bool) (at : Placed) (a : ℕ)
    → let u = λ (r : MemoryRegion). usable_page r a in
      ((((b || u (kernel_of at)) || u (fb_of at)) || u (info_of at)) || u (map_of at)) ≡ true
      → b ≡ true
none_usable true at a e = refl
none_usable false at a e = e

usable-Allowed :
    (descs : List MemoryDescriptor) (at : Placed) (a : ℕ)
    → All IsDescriptor descs
    → IsPlaced at
    → length descs + 4 ≤ regions_cap
    → IsUsable (boot_regions descs at) a
    → Allowed descs at a
unfolding boot_regions
usable-Allowed descs at a h placed room (low, usable, free) =
    let out = translate [] descs in
    let u = λ (r : MemoryRegion). usable_page r a in
    let v = λ (r : MemoryRegion). reserved_page r a in
    let (seen_u, short) = translate-any u [] descs (usable-IsBlind a) h (omega arith) in
    let (seen_v, _) = translate-any v [] descs (reserved-IsBlind a) h (omega arith) in
    let all_u = add_reserved-any u at out (usable-IsBlind a) (omega (arith, short)) in
    let all_v = add_reserved-any v at out (reserved-IsBlind a) (omega (arith, short)) in
    let (free3, no_map) = or-false_split _ (v (map_of at)) (sym all_v ∙ free) in
    let (free2, no_info) = or-false_split _ (v (info_of at)) free3 in
    let (free1, no_fb) = or-false_split _ (v (fb_of at)) free2 in
    let (free0, no_kernel) = or-false_split _ (v (kernel_of at)) free1 in
    let from_map : any u out ≡ true = none_usable (any u out) at a (sym all_u ∙ usable) in
    let split : at.load_base + (at.load_end - at.load_base) ≡ at.load_end =
      omega (arith, placed.kernel) in
    record {
      conventional = any-offers descs a h (sym seen_u ∙ from_map);
      kernel =
          subst (λ e. Outside at.load_base e a) split
            (outside_reserved at.load_base (at.load_end - at.load_base) a RegionKind.kernel refl
              (omega (arith, placed.kernel, placed.kernel_end)) no_kernel);
      framebuffer =
          outside_reserved at.fb_base at.fb_size a RegionKind.framebuffer refl placed.fb_end no_fb;
      boot_info =
          outside_reserved at.boot_info 4096 a RegionKind.boot refl placed.boot_info_end no_info;
      regions =
          outside_reserved at.regions_addr 0x8000 a RegionKind.boot refl placed.regions_end no_map;
    }

translate-IsRegion :
    (out : List MemoryRegion) (descs : List MemoryDescriptor)
    → All IsDescriptor descs
    → All IsRegion out
    → All IsRegion (translate out descs)
unfolding translate
translate-IsRegion out [] h r = r
translate-IsRegion out (d ∷ descs) h r =
    translate-IsRegion (push out d.phys_start (saturating_mul d.page_count 4096) (kind_of d.ty))
      descs h.1
      (push-IsRegion out d.phys_start (saturating_mul d.page_count 4096) (kind_of d.ty)
        (omega (arith, h.0)) (omega (arith, h.0)) r)

boot_regions-IsRegion :
    (descs : List MemoryDescriptor) (at : Placed)
    → All IsDescriptor descs
    → IsPlaced at
    → All IsRegion (boot_regions descs at)
unfolding boot_regions add_reserved
boot_regions-IsRegion descs at h placed =
    push-IsRegion _ at.regions_addr (regions_pages * 4096) RegionKind.boot
      (omega (arith, placed.regions_end)) (omega arith)
      (push-IsRegion _ at.boot_info 4096 RegionKind.boot (omega (arith, placed.boot_info_end))
        (omega arith)
        (push-IsRegion _ at.fb_base at.fb_size RegionKind.framebuffer (omega (arith, placed.fb_end))
          (omega (arith, placed.fb_end))
          (push-IsRegion (translate [] descs) at.load_base (at.load_end - at.load_base)
            RegionKind.kernel (omega (arith, placed.kernel, placed.kernel_end))
            (omega (arith, placed.kernel, placed.kernel_end)) (translate-IsRegion [] descs h tt))))

-- Where the firmware's map has at most 1361 descriptors, the memory of each of them and each part
-- that the boot loader has placed end within the address space, and the kernel's `init` succeeds on
-- the regions that the boot loader writes: whatever is then requested of the memory manager, each
-- address of each block that it hands out is conventional memory of the firmware's map, and is
-- outside the kernel's image, the framebuffer, the boot information and the array of regions.
pub boot_then_serve :
    (descs : List MemoryDescriptor) (at : Placed) (requests : List ℕ) (pmm : Pmm) (stats : PmmStats)
    → All IsDescriptor descs
    → IsPlaced at
    → length descs ≤ 1361
    → init (boot_regions descs at) ≡ done (some (pmm, stats))
    → All (IsIn (Allowed descs at)) (serve requests (some pmm))
boot_then_serve descs at requests pmm stats h placed room e =
    let regions = boot_regions descs at in
    let served =
      init_then_serve regions requests pmm stats (boot_regions-IsRegion descs at h placed) e in
    IsIn-mono (IsUsable regions) (Allowed descs at) (serve requests (some pmm))
      (λ a u. usable-Allowed descs at a h placed (omega arith) u) served.0
