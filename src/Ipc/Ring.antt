-- ===== src/Ipc/Ring.antt =====
-- A ring with counters that only grow, as the endpoints of kernel/src/ipc.rs keep two of.
use mantra_os.Common.{
  ℕ, zero, suc, ◌+◌, ◌%◌, ◌<◌, ◌≡◌, ◌≢◌, refl, sym, ap, ap₂, ◌∙◌, List, [], ◌∷◌, ◌++◌, length,
  get_or, set, get_or-set_self, get_or-set_ne, arith,
}

-- Two counters fewer than `cap` steps apart name different slots.
abbrev pub IsApart : ℕ → Type 0
IsApart cap = (h k : ℕ) → 0 < k → k < cap → (h + k) % cap ≢ h % cap

module _ {ℓ} {A : Type ℓ} (none_there : A) (cap : ℕ) where
  -- The `n` entries from counter `h` on.
  abbrev pub window : List A → ℕ → ℕ → List A
  window buf h zero = []
  window buf h (suc n) = get_or buf (h % cap) none_there ∷ window buf (h + 1) n

  pub length-window : (buf : List A) (h n : ℕ) → length (window buf h n) ≡ n
  length-window buf h zero = refl
  length-window buf h (suc n) = ap suc (length-window buf (h + 1) n)

  -- A write past the window, where the ring has room, extends it.
  pub window-set :
      (buf : List A) (x : A) (n h t : ℕ)
      → IsApart cap
      → length buf ≡ cap
      → n < cap
      → t ≡ h + n
      → (t % cap) < cap
      → window (set buf (t % cap) x) h (suc n) ≡ window buf h n ++ x ∷ []
  window-set buf x zero h t apart len lt e in_range =
      let same : h % cap ≡ t % cap = ap (λ k. k % cap) (omega arith) in
      rw same (ap (λ y. y ∷ []) (get_or-set_self buf (t % cap) x none_there (rw len in_range)))
  window-set buf x (suc n) h t apart len lt e in_range =
      ap₂ ◌∷◌
        (get_or-set_ne buf x none_there
          (λ q. apart h (suc n) (omega arith) lt (ap (λ k. k % cap) (sym e) ∙ q)))
        (window-set buf x n (h + 1) t apart len (omega arith) (omega arith) in_range)
