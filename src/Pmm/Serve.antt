-- ===== src/Pmm/Serve.antt =====
-- Any sequence of requests to the physical memory manager of kernel/src/pmm.rs.
use mantra_os.Common.{
  ℕ, ◌+◌, ◌*◌, ◌≤◌, ◌<◌, ◌≡◌, inl, inr, true, false, ap, sym, subst, ◌∙◌, any, drop, List, [], ◌∷◌,
  Option, none, some, All, drop-all, arith,
}
use mantra_os.Common.Run.{done}
use mantra_os.Bootinfo.{MemoryRegion}
use mantra_os.Pmm.{Pmm, PmmStats, alloc_pages, init}
use mantra_os.Pmm.Init.{IsRegion, usable_page, reserved_page}
use mantra_os.Pmm.Build.{Built, init-Built}
use mantra_os.Pmm.Cover.{covers}
use mantra_os.Pmm.Pool.{remaining, IsPool, IsLayout-IsPool, Granted}
use mantra_os.Pmm.Alloc.{alloc_pages-Granted, alloc_pages_cases}

-- A block that was handed out: its address and its pages.
pub record Block : Type 0 where
  pub at : ℕ
  pub pages : ℕ

abbrev grant : ℕ → Option ℕ → List Block → List Block
grant pages none bs = bs
grant pages (some p) bs = record { at = p; pages = pages } ∷ bs

-- The blocks that a sequence of requests gets, in order.
pub serve : List ℕ → Option Pmm → List Block
serve [] pmm = []
serve (pages ∷ rest) pmm = let (p, pmm') = alloc_pages pages pmm in grant pages p (serve rest pmm')

abbrev pub end_of : Block → ℕ
end_of b = b.at + b.pages * 4096

abbrev pub IsIn : (ℕ → Type 0) → Block → Type 0
IsIn P b = (a : ℕ) → b.at ≤ a → a < end_of b → P a

-- Every later block lies in the free memory, so outside this one.
abbrev pub Apart : Block → Block → Type 0
Apart b c = (a : ℕ) → b.at ≤ a → a < end_of b → c.at ≤ a → a < end_of c → ⊥

abbrev pub AllApart : List Block → Type 0
AllApart [] = Unit {0}
AllApart (b ∷ bs) = All (Apart b) bs × AllApart bs

pub IsIn-mono :
    (P Q : ℕ → Type 0) (bs : List Block) → ((a : ℕ) → P a → Q a) → All (IsIn P) bs → All (IsIn Q) bs
IsIn-mono P Q [] f h = tt
IsIn-mono P Q (b ∷ bs) f h = (λ a l u. f a (h.0 a l u), IsIn-mono P Q bs f h.1)

abbrev pub IsFree : Pmm → ℕ → Type 0
IsFree pmm a = covers (remaining pmm) a ≡ true

free-Apart :
    (pmm : Pmm) (b : Block) (bs : List Block)
    → ((a : ℕ) → b.at ≤ a → a < end_of b → covers (remaining pmm) a ≡ false)
    → All (IsIn (IsFree pmm)) bs
    → All (Apart b) bs
free-Apart pmm b [] t h = tt
free-Apart pmm b (c ∷ cs) t h =
    (λ a l u l' u'. ground (arith, t a l u, h.0 a l' u'), free-Apart pmm b cs t h.1)

serve_zero :
    (pages : ℕ) (rest : List ℕ) (pmm pmm' : Pmm)
    → alloc_pages pages (some pmm) ≡ (none, some pmm')
    → serve (pages ∷ rest) (some pmm) ≡ serve rest (some pmm')
unfolding serve
serve_zero pages rest pmm pmm' e = rw (e, serve)

serve-some :
    (pages : ℕ) (rest : List ℕ) (pmm pmm' : Pmm) (p : ℕ)
    → alloc_pages pages (some pmm) ≡ (some p, some pmm')
    → serve (pages ∷ rest) (some pmm) ≡ record { at = p; pages = pages } ∷ serve rest (some pmm')
unfolding serve
serve-some pages rest pmm pmm' p e = rw (e, serve)

-- For a manager whose ranges from the cursor on are whole pages, in order and disjoint: however
-- many requests of whatever sizes are made, the blocks that they get lie in memory that was free at
-- the start, and no two of them share an address.
pub serve-AllApart :
    (requests : List ℕ) (pmm : Pmm)
    → IsPool 0 (remaining pmm)
    → All (IsIn (IsFree pmm)) (serve requests (some pmm)) × AllApart (serve requests (some pmm))
serve-AllApart [] pmm s = unfold serve in (tt, tt)
serve-AllApart (pages ∷ rest) pmm s = elim (alloc_pages_cases pages pmm s) [
  | inl (_, e) ↦ rw (serve_zero pages rest pmm pmm e) (serve-AllApart rest pmm s)
  | inr (inl (pmm', e, spent)) ↦
      let empty : remaining pmm' ≡ [] = drop-all pmm'.cursor pmm'.ranges spent in
      let later = serve-AllApart rest pmm' (rw empty tt) in
      rw (serve_zero pages rest pmm pmm' e) (
        IsIn-mono (IsFree pmm') (IsFree pmm) (serve rest (some pmm'))
            (λ a f. ground (arith, ap (λ t. covers t a) empty)) later.0,
        later.1,
      )
  | inr (inr (p, pmm', e)) ↦
      let g : Granted pages p (remaining pmm) (remaining pmm') =
        alloc_pages-Granted pages p pmm pmm' s e in
      let later = serve-AllApart rest pmm' g.pool in
      rw (serve-some pages rest pmm pmm' p e) (
        (
          g.was_free,
          IsIn-mono (IsFree pmm') (IsFree pmm) (serve rest (some pmm')) g.shrinks later.0,
        ),
        (
          free-Apart pmm' (record { at = p; pages = pages }) (serve rest (some pmm')) g.now_taken
              later.0,
          later.1,
        ),
      )
]

-- Memory that `init` may give out: at or above 1 MiB, with its whole page in a usable region and out
-- of every other region.
abbrev pub IsUsable : List MemoryRegion → ℕ → Type 0
IsUsable regions a =
    (0x10_0000 ≤ a)
    × (any (λ r. usable_page r a) regions ≡ true)
    × (any (λ r. reserved_page r a) regions ≡ false)

free-IsUsable :
    (regions : List MemoryRegion) (pmm : Pmm) (stats : PmmStats)
    → Built regions pmm stats
    → (a : ℕ) → IsFree pmm a
    → IsUsable regions a
free-IsUsable regions pmm stats b a f =
    let all : remaining pmm ≡ pmm.ranges = ap (λ c. drop c pmm.ranges) b.at_start in
    let here : covers pmm.ranges a ≡ true = ap (λ rs. covers rs a) (sym all) ∙ f in
    let rule = b.exact a in ground arith

-- Where `init` succeeds on a memory map whose fields are u64, any sequence of requests made
-- afterwards gets blocks that lie in usable memory at or above 1 MiB, in pages that no region of
-- another kind meets, and no two of the blocks share an address.
pub init_then_serve :
    (regions : List MemoryRegion) (requests : List ℕ) (pmm : Pmm) (stats : PmmStats)
    → All IsRegion regions
    → init regions ≡ done (some (pmm, stats))
    → All (IsIn (IsUsable regions)) (serve requests (some pmm))
      × AllApart (serve requests (some pmm))
init_then_serve regions requests pmm stats h e =
    let b : Built regions pmm stats = init-Built regions pmm stats h e in
    let pool : IsPool 0 (remaining pmm) =
      subst (λ c. IsPool 0 (drop c pmm.ranges)) (sym b.at_start)
        (IsLayout-IsPool pmm.ranges 0 b.layout) in
    let served = serve-AllApart requests pmm pool in
    (
      IsIn-mono (IsFree pmm) (IsUsable regions) (serve requests (some pmm))
          (free-IsUsable regions pmm stats b) served.0,
      served.1,
    )
