-- ===== src/Fixed.antt =====
-- src/fixed.c and src/include/fixed.h: a pool of 256 equal blocks, taken from `malloc` at start-up
-- and handed out with no further call of it. A pointer is a number, and NULL is 0. Each call
-- holds the mutex throughout, so it is one function on the pool.
pub mod Count
pub mod Start
pub mod Run
mod Tests
use dev_can_linux.Base.{
  ℕ, zero, suc, ◌+◌, ◌-◌, Bool, true, false, ◌&&◌, Option, none, some, List, [], length, get_elem?,
  set, span, ltb, ◌==◌, if◌then◌else◌, replicate,
}

-- FIXED_MAX_NUM_BLOCKS and FIXED_MAX_BLOCK_SIZE
abbrev pub max_num_blocks : ℕ
max_num_blocks = 256

abbrev pub max_block_size : ℕ
max_block_size = 40

-- `FixedArray`, `FixedArrayIndex`, and the bytes of the blocks, by pointer and offset.
pub record Pool : Type 0 where
  pub array : List ℕ
  pub index : ℕ
  pub bytes : ℕ → ℕ → ℕ

-- `memset(p, 0, size)`
unfoldable pub clear_bytes : (p size : ℕ) → (ℕ → ℕ → ℕ) → ℕ → ℕ → ℕ
clear_bytes p size bytes q i = if (q == p) && ltb i size then 0 else bytes q i

-- What `fixed_memory_init` returns (`true` for 0, `false` for -1), the array that it leaves and
-- the pointers that it has freed.
pub record Started : Type 0 where
  pub result : Bool
  pub array : List ℕ
  pub freed : List ℕ

-- The loop with `left` rounds to go from `i` on; the i-th call of `malloc` returns `malloc i`.
unfoldable pub init_loop : (malloc : ℕ → ℕ) (left i : ℕ) → List ℕ → Started
init_loop malloc zero i array = record { result = true; array = array; freed = [] }
init_loop malloc (suc left) i array =
    let rest = init_loop malloc left (suc i) (set array i (malloc i)) in
    if malloc i == 0
    then record { result = false; array = set array i 0; freed = span array 0 i }
    else rest

pub fixed_memory_init : (malloc : ℕ → ℕ) → Started
fixed_memory_init malloc = init_loop malloc max_num_blocks 0 (replicate max_num_blocks 0)

-- The pointer `FixedArray[FixedArrayIndex]`; a read out of range gives NULL here, and the index
-- is below the length of the array whenever it is read.
abbrev pub next_block : Pool → ℕ
next_block p = elim (get_elem? p.array p.index) [ none ↦ 0 | some b ↦ b ]

-- The pointer that is returned, and the pool.
unfoldable pub fixed_malloc : (size : ℕ) → Pool → ℕ × Pool
fixed_malloc size p =
    if ltb p.index max_num_blocks
    then (if next_block p == 0 then (0, record p { index = p.index + 1 }) else (
      next_block p,
      record p { index = p.index + 1; bytes = clear_bytes (next_block p) size p.bytes },
    ))
    else (0, p)

-- `FixedArray[--FixedArrayIndex] = ptr`; with nothing handed out that writes before the array,
-- which is `none`.
unfoldable pub fixed_free : (ptr : ℕ) → Pool → Option Pool
fixed_free ptr p =
    if p.index == 0
    then none
    else some (record p { array = set p.array (p.index - 1) ptr; index = p.index - 1 })
