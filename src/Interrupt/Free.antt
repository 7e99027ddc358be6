-- ===== src/Interrupt/Free.antt =====
-- `free_irq` of src/interrupt.c.
use dev_can_linux.Base.{
  ℕ, suc, ◌≡◌, ◌≢◌, refl, ap, ◌∙◌, Bool, true, false, ◌&&◌, Option, none, some, List, [], ◌∷◌,
  arith, ◌==◌,
}
use dev_can_linux.Interrupt.{Attach}

-- The test of `free_irq` on an entry with this id: a hit ends the search.
abbrev pub detach_at : (id : Option ℕ) (hit : Bool) → Attach → (t rest : List Attach) → List Attach
detach_at none hit a t rest = a ∷ rest
detach_at (some i) true a t rest = record a { id = none } ∷ t
detach_at (some i) false a t rest = a ∷ rest

-- `free_irq` for one interrupt of the group, from entry `k` on. `dev_array k` is the address of the
-- member `dev` of the entry, with which `dev` is compared.
unfoldable pub detach_irq : (dev_array : ℕ → ℕ) (k irq dev : ℕ) → List Attach → List Attach
detach_irq dev_array k irq dev [] = []
detach_irq dev_array k irq dev (a ∷ t) =
    detach_at a.id ((a.irq == irq) && (dev_array k == dev)) a t
      (detach_irq dev_array (suc k) irq dev t)

unfoldable pub free_irq : (dev_array : ℕ → ℕ) (irqs : List ℕ) (dev : ℕ) → List Attach → List Attach
free_irq dev_array [] dev t = t
free_irq dev_array (irq ∷ irqs) dev t =
    free_irq dev_array irqs dev (detach_irq dev_array 0 irq dev t)

detach_at-false :
    (id : Option ℕ) (hit : Bool) (a : Attach) (t rest : List Attach)
    → hit ≡ false
    → rest ≡ t
    → detach_at id hit a t rest ≡ a ∷ t
detach_at-false none hit a t rest h e = ap (◌∷◌ a) e
detach_at-false (some i) true a t rest h e = cc
detach_at-false (some i) false a t rest h e = ap (◌∷◌ a) e

module _ (dev_array : ℕ → ℕ) (dev : ℕ) (away : (k : ℕ) → dev_array k ≢ dev) where
  detach_irq-same : (k irq : ℕ) (t : List Attach) → detach_irq dev_array k irq dev t ≡ t
  unfolding detach_irq
  detach_irq-same k irq [] = refl
  detach_irq-same k irq (a ∷ t) =
      let ne = away k in
      let missed : ((a.irq == irq) && (dev_array k == dev)) ≡ false = ground arith in
      detach_at-false a.id _ a t _ missed (detach_irq-same (suc k) irq t)

  -- `free_irq` compares the address of an array inside of an entry with a device: where no device
  -- stands at such an address, it detaches nothing, whatever the interrupts.
  pub free_irq-same : (irqs : List ℕ) (t : List Attach) → free_irq dev_array irqs dev t ≡ t
  unfolding free_irq
  free_irq-same [] t = refl
  free_irq-same (irq ∷ irqs) t =
      ap (free_irq dev_array irqs dev) (detach_irq-same 0 irq t) ∙ free_irq-same irqs t
