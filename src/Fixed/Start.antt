-- ===== src/Fixed/Start.antt =====
-- `fixed_memory_init`: either every block is there, or those obtained are given back.
use dev_can_linux.Base.{
  ℕ, zero, suc, ◌+◌, ◌<◌, ◌≡◌, refl, ◌≢◌, ◌∙◌, ap, ◌⊎◌, inl, inr, true, false, List, [], ◌∷◌, ◌++◌,
  set, length, ◌==◌, arith, span, span-set_end, span_none, length-set, Bool-cases, length-replicate,
  replicate,
}
use dev_can_linux.Fixed.{Started, init_loop, fixed_memory_init, max_num_blocks}

-- What the first `n` calls of `malloc` return.
unfoldable pub results : (malloc : ℕ → ℕ) → ℕ → List ℕ
results malloc zero = []
results malloc (suc n) = results malloc n ++ (malloc n ∷ [])

-- Up to the call numbered `n`, `malloc` returned no NULL.
abbrev pub AllThere : (malloc : ℕ → ℕ) → ℕ → Type 0
AllThere malloc n = (j : ℕ) → j < n → malloc j ≢ 0

-- The outcome of the start-up over `n` blocks.
pub record Filled (malloc : ℕ → ℕ) (n : ℕ) (s : Started) : Type 0 where
  pub result : s.result ≡ true
  pub there : AllThere malloc n
  pub blocks : span s.array 0 n ≡ results malloc n
  pub keeps : s.freed ≡ []

pub record GaveUp (malloc : ℕ → ℕ) (n : ℕ) (s : Started) : Type 0 where
  pub at : ℕ
  pub before : at < n
  pub result : s.result ≡ false
  pub null : malloc at ≡ 0
  pub there : AllThere malloc at
  pub frees : s.freed ≡ results malloc at

module _ (malloc : ℕ → ℕ) where
  AllThere-suc : (i : ℕ) → malloc i ≢ 0 → AllThere malloc i → AllThere malloc (suc i)
  AllThere-suc i ne all j h = elim (Bool-cases (j == i)) [
    | inl same ↦ ground arith
    | inr other ↦ all j (ground arith)
  ]

  init_loop_lem :
      (left i n : ℕ) (array : List ℕ)
      → i + left ≡ n
      → length array ≡ n
      → span array 0 i ≡ results malloc i
      → AllThere malloc i
      → Filled malloc n (init_loop malloc left i array)
        ⊎ GaveUp malloc n (init_loop malloc left i array)
  unfolding init_loop results
  init_loop_lem zero i n array e l s all =
      let same : i ≡ n = omega arith in
      inl (record { result = refl; there = rw same at all; blocks = rw same at s; keeps = refl })
  init_loop_lem (suc left) i n array e l s all = elim (Bool-cases (malloc i == 0)) [
    | inl gone ↦ rw gone (
        inr (record {
          at = i;
          before = omega arith;
          result = refl;
          null = ground arith;
          there = all;
          frees = s;
        }))
    | inr there ↦ rw there (
        init_loop_lem left (suc i) n (set array i (malloc i)) (omega arith)
          (length-set array i (malloc i) ∙ l)
          (span-set_end array i 0 i (malloc i) (omega arith) (omega arith)
            ∙ ap (λ xs. xs ++ (malloc i ∷ [])) s)
          (AllThere-suc i (ground arith) all))
  ]

-- `fixed_memory_init` reports success exactly if none is
-- NULL, and then the array holds the 256 blocks in order; else it stops at the first NULL, reports
-- failure, and frees exactly the blocks obtained before it.
pub fixed_memory_init_lem :
    (malloc : ℕ → ℕ)
    → Filled malloc max_num_blocks (fixed_memory_init malloc)
      ⊎ GaveUp malloc max_num_blocks (fixed_memory_init malloc)
unfolding fixed_memory_init results
fixed_memory_init_lem malloc =
    init_loop_lem malloc 256 0 256 (replicate 256 0) refl (length-replicate 256 0)
      (span_none (replicate 256 0) 0) (λ j h. elim h [ ])
