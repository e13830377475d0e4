-- ===== src/Boot/Regions.antt =====
-- What the kernel's memory manager makes of the memory map of boot/src/main.rs.
use mantra_os.Common.{
  ℕ, suc, ◌+◌, ◌-◌, ◌*◌, ◌≤◌, ◌<◌, ◌≡◌, inl, inr, refl, sym, ap, subst, ◌∙◌, Bool, true, false,
  ◌||◌, leb, ◌==◌, Bool-cases, List, [], ◌∷◌, ◌++◌, length, any, All, arith,
}
use mantra_os.Common.Word.{u64_mod, saturating_mul}
use mantra_os.Bootinfo.{RegionKind, kind_code, MemoryRegion}
use mantra_os.Pmm.Init.{IsRegion}
use mantra_os.Boot.{
  MemoryDescriptor, kind_of, regions_cap, regions_pages, push, translate, Placed, add_reserved,
  boot_regions,
}

pub or-false : (b : Bool) → (b || false) ≡ b
or-false true = refl
or-false false = refl

or_assoc : (a b c : Bool) → (a || (b || c)) ≡ ((a || b) || c)
or_assoc true b c = refl
or_assoc false b c = refl

any-snoc :
    {A : Type 0} (p : A → Bool) (xs : List A) (x : A) → any p (xs ++ x ∷ []) ≡ (any p xs || p x)
any-snoc p [] x = or-false (p x)
any-snoc p (y ∷ xs) x = ap (λ b. p y || b) (any-snoc p xs x) ∙ or_assoc (p y) (any p xs) (p x)

length-snoc : {A : Type 0} (xs : List A) (x : A) → length (xs ++ x ∷ []) ≡ suc (length xs)
length-snoc [] x = refl
length-snoc (y ∷ xs) x = ap suc (length-snoc xs x)

All-snoc :
    {A : Type 0} (P : A → Type 0) (xs : List A) (x : A) → All P xs → P x → All P (xs ++ x ∷ [])
All-snoc P [] x h hx = (hx, tt)
All-snoc P (y ∷ xs) x h hx = (h.0, All-snoc P xs x h.1 hx)

abbrev pub region : ℕ → ℕ → RegionKind → MemoryRegion
region base len kind = record { base = base; len = len; kind = kind_code kind }

-- A test that holds of no empty region sees every region that is pushed while there is room.
pub push-any :
    (p : MemoryRegion → Bool) (out : List MemoryRegion) (base len : ℕ) (kind : RegionKind)
    → length out < regions_cap
    → (p (region base 0 kind) ≡ false)
    → any p (push out base len kind) ≡ (any p out || p (region base len kind))
unfolding push
push-any p out base len kind room empty = elim (Bool-cases (len == 0)) [
  | inl nothing ↦
      let zero_len : len ≡ 0 = ground arith in
      let skipped : push out base len kind ≡ out = ground arith in
      let unseen : p (region base len kind) ≡ false = rw zero_len empty in
      rw (skipped, unseen) (sym (or-false (any p out)))
  | inr some_bytes ↦
      let pushed : push out base len kind ≡ out ++ region base len kind ∷ [] = ground arith in
      rw pushed (any-snoc p out (region base len kind))
]

pub push-length :
    (out : List MemoryRegion) (base len : ℕ) (kind : RegionKind)
    → length (push out base len kind) ≤ length out + 1
unfolding push
push-length out base len kind = ground (arith, length-snoc out (region base len kind))

pub push-IsRegion :
    (out : List MemoryRegion) (base len : ℕ) (kind : RegionKind)
    → base < u64_mod
    → len < u64_mod
    → All IsRegion out
    → All IsRegion (push out base len kind)
unfolding push
push-IsRegion out base len kind hb hl h =
    elim (Bool-cases (len == 0 || leb regions_cap (length out))) [
      | inl skipped ↦
          let same : out ≡ push out base len kind = ground arith in subst (All IsRegion) same h
      | inr pushed ↦
          let same : out ++ region base len kind ∷ [] ≡ push out base len kind = ground arith in
          subst (All IsRegion) same (All-snoc IsRegion out (region base len kind) h (hb, hl))
    ]

-- A descriptor of the firmware whose memory ends within the address space.
abbrev pub IsDescriptor : MemoryDescriptor → Type 0
IsDescriptor d = d.phys_start + d.page_count * 4096 < u64_mod

abbrev pub region_of : MemoryDescriptor → MemoryRegion
region_of d = region d.phys_start (d.page_count * 4096) (kind_of d.ty)

-- The tests of the memory manager.
abbrev pub IsBlind : (MemoryRegion → Bool) → Type 0
IsBlind p = (base : ℕ) (kind : RegionKind) → p (region base 0 kind) ≡ false

pub translate-any :
    (p : MemoryRegion → Bool) (out : List MemoryRegion) (descs : List MemoryDescriptor)
    → IsBlind p
    → All IsDescriptor descs
    → length out + length descs ≤ regions_cap
    → (any p (translate out descs) ≡ (any p out || any (λ d. p (region_of d)) descs))
      × (length (translate out descs) ≤ length out + length descs)
unfolding translate
translate-any p out [] blind h room = (sym (or-false (any p out)), omega arith)
translate-any p out (d ∷ descs) blind h room =
    let len : ℕ = saturating_mul d.page_count 4096 in
    let whole : len ≡ d.page_count * 4096 = omega (arith, h.0) in
    let out' = push out d.phys_start len (kind_of d.ty) in
    let grown = push-length out d.phys_start len (kind_of d.ty) in
    let seen =
      push-any p out d.phys_start len (kind_of d.ty) (omega arith)
        (blind d.phys_start (kind_of d.ty)) in
    let (rest, short) = translate-any p out' descs blind h.1 (omega (arith, grown)) in
    (
      rest
          ∙ ap (λ b. b || any (λ c. p (region_of c)) descs)
              (seen ∙ ap (λ n. any p out || p (region d.phys_start n (kind_of d.ty))) whole)
          ∙ sym (or_assoc (any p out) (p (region_of d)) (any (λ c. p (region_of c)) descs)),
      omega (arith, grown, short),
    )

translate-length :
    (out : List MemoryRegion) (descs : List MemoryDescriptor)
    → length (translate out descs) ≤ length out + length descs
unfolding translate
translate-length out [] = omega arith
translate-length out (d ∷ descs) =
    let len : ℕ = saturating_mul d.page_count 4096 in
    omega (
      arith,
      push-length out d.phys_start len (kind_of d.ty),
      translate-length (push out d.phys_start len (kind_of d.ty)) descs,
    )

add_reserved-length :
    (at : Placed) (out : List MemoryRegion) → length (add_reserved at out) ≤ length out + 4
unfolding add_reserved
add_reserved-length at out =
    let out1 = push out at.load_base (at.load_end - at.load_base) RegionKind.kernel in
    let out2 = push out1 at.fb_base at.fb_size RegionKind.framebuffer in
    let out3 = push out2 at.boot_info 4096 RegionKind.boot in
    omega (
      arith,
      push-length out at.load_base (at.load_end - at.load_base) RegionKind.kernel,
      push-length out1 at.fb_base at.fb_size RegionKind.framebuffer,
      push-length out2 at.boot_info 4096 RegionKind.boot,
      push-length out3 at.regions_addr (regions_pages * 4096) RegionKind.boot,
    )

-- The regions are at most four more than the firmware's descriptors.
pub boot_regions-length :
    (descs : List MemoryDescriptor) (at : Placed)
    → length (boot_regions descs at) ≤ length descs + 4
unfolding boot_regions
boot_regions-length descs at =
    omega (arith, translate-length [] descs, add_reserved-length at (translate [] descs))
