-- ===== src/Fixed/Tests.antt =====
-- The pool's theorems at a pool of the blocks 1 to 256.
use dev_can_linux.Base.{
  ℕ, zero, suc, ◌≡◌, refl, ◌⊎◌, List, [], ◌∷◌, arith, length, ltb, ◌==◌, if◌then◌else◌,
}
use dev_can_linux.Fixed.{fixed_malloc, max_num_blocks, clear_bytes}
use dev_can_linux.Fixed.Count.{count}
use dev_can_linux.Fixed.Run.{
  Held, IsBlocks, Reach, here, next, alloc, started, Grants, Reach-Grants,
}

-- `n`, `n - 1`, …, 1
down_from : ℕ → List ℕ
down_from zero = []
down_from (suc n) = suc n ∷ down_from n

length-down_from : (n : ℕ) → length (down_from n) ≡ n
unfolding down_from
length-down_from zero = refl
length-down_from (suc n) = omega (arith, length-down_from n)

count-down_from :
    (a n : ℕ) → count a (down_from n) ≡ (if ltb n a then 0 else if a == 0 then 0 else 1)
unfolding down_from
count-down_from a zero = ground arith
count-down_from a (suc n) = ground (arith, count-down_from a n)

down_from-IsBlocks : (n : ℕ) → IsBlocks (down_from n)
down_from-IsBlocks n = record {
  some_each = λ a. ground (arith, count-down_from a n);
  no_null = ground (arith, count-down_from 0 n);
}

abbrev dirty : ℕ → ℕ → ℕ
dirty p i = 7

abbrev one_out : Held
one_out = record {
  pool = record { array = down_from 256; index = 1; bytes = clear_bytes 256 40 dirty };
  out = 256 ∷ [];
}

one_out-Reach : Reach (started (down_from 256) dirty) one_out
unfolding fixed_malloc down_from
one_out-Reach = next here (
    alloc (record { array = down_from 256; index = 0; bytes = dirty }) [] 40 256 one_out.pool refl
      (omega arith))

Reach-Grants_example :
    ((length one_out.out ≡ max_num_blocks) × (fixed_malloc 8 one_out.pool ≡ (0, one_out.pool)))
    ⊎ Grants (down_from 256) 8 one_out (fixed_malloc 8 one_out.pool)
Reach-Grants_example =
    Reach-Grants (down_from 256) dirty one_out 8 (down_from-IsBlocks 256) (length-down_from 256)
      one_out-Reach
