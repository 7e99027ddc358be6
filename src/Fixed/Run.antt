-- ===== src/Fixed/Run.antt =====
-- A client of the pool that frees only what it has been given, and each block once.
use dev_can_linux.Base.{
  ℕ, ◌+◌, ◌-◌, ◌≤◌, ◌<◌, ◌≡◌, refl, ◌≢◌, ◌∙◌, ap, ◌⊎◌, inl, inr, true, false, List, [], ◌∷◌, some,
  get_elem?, set, length, ◌==◌, ltb, arith, drop, length-set, Bool-cases, get_elem?-some,
  get_elem?-set_self,
}
use mathlib.Core.Path.{sym, subst, subst₂}
use dev_can_linux.Fixed.{Pool, next_block, clear_bytes, fixed_malloc, fixed_free, max_num_blocks}
use dev_can_linux.Fixed.Count.{count, count-erase, length-erase, count-drop, count-drop-set, erase}

-- The pool, and the blocks that the client holds.
pub record Held : Type 0 where
  pub pool : Pool
  pub out : List ℕ

pub data Step : Held → Held → Type 0 where
  alloc :
      (p : Pool) (out : List ℕ) (size b : ℕ) (r : Pool)
      → fixed_malloc size p ≡ (b, r)
      → b ≢ 0
      → Step (record { pool = p; out = out }) (record { pool = r; out = b ∷ out })
  refuse :
      (p : Pool) (out : List ℕ) (size : ℕ) (r : Pool)
      → fixed_malloc size p ≡ (0, r)
      → Step (record { pool = p; out = out }) (record { pool = r; out = out })
  release :
      (p : Pool) (out : List ℕ) (b : ℕ) (r : Pool)
      → 0 < count b out
      → fixed_free b p ≡ some r
      → Step (record { pool = p; out = out }) (record { pool = r; out = erase b out })

pub data Reach (s : Held) : Held → Type 0 where
  here : Reach s s
  next : {t u : Held} → Reach s t → Step t u → Reach s u

-- The blocks of the pool: none is NULL, and none stands twice.
pub record IsBlocks (blocks : List ℕ) : Type 0 where
  pub some_each : (a : ℕ) → count a blocks ≤ 1
  pub no_null : count 0 blocks ≡ 0

-- What is held and what is left in the array from `FixedArrayIndex` on make up the blocks.
pub record IsShared (blocks : List ℕ) (s : Held) : Type 0 where
  pub index : s.pool.index ≡ length s.out
  pub storage : length s.pool.array ≡ max_num_blocks
  pub bound : s.pool.index ≤ max_num_blocks
  pub shares : (a : ℕ) → count a s.out + count a (drop s.pool.index s.pool.array) ≡ count a blocks

next_block-get : (p : Pool) (b : ℕ) → get_elem? p.array p.index ≡ some b → next_block p ≡ b
next_block-get p b e = rw (e, next_block)

fixed_malloc-get :
    (size : ℕ) (p : Pool) (b : ℕ)
    → p.index < max_num_blocks
    → get_elem? p.array p.index ≡ some b
    → b ≢ 0
    → fixed_malloc size p
      ≡ (b, record p { index = p.index + 1; bytes = clear_bytes b size p.bytes })
unfolding fixed_malloc
fixed_malloc-get size p b lt e ne =
    let low : ltb p.index max_num_blocks ≡ true = ground arith in
    let full : (b == 0) ≡ false = ground arith in simp (low, next_block-get p b e, full)

fixed_malloc-full : (size : ℕ) (p : Pool) → max_num_blocks ≤ p.index → fixed_malloc size p ≡ (0, p)
unfolding fixed_malloc
fixed_malloc-full size p le = ground arith

-- A call of `fixed_malloc` grants a block of the pool that is not held, its first `size` bytes
-- zero and the bytes of every other block as they were.
pub record Grants (blocks : List ℕ) (size : ℕ) (s : Held) (got : ℕ × Pool) : Type 0 where
  pub room : length s.out < max_num_blocks
  pub there : got.0 ≢ 0
  pub free : count got.0 s.out ≡ 0
  pub ours : count got.0 blocks ≡ 1
  pub zeroed : (i : ℕ) → i < size → got.1.bytes got.0 i ≡ 0
  pub others : (q i : ℕ) → q ≢ got.0 → got.1.bytes q i ≡ s.pool.bytes q i

module _ (blocks : List ℕ) (good : IsBlocks blocks) where
  -- The block at the index is one that nobody holds.
  next_block-IsFree :
      {s : Held} (b : ℕ)
      → IsShared blocks s
      → get_elem? s.pool.array s.pool.index ≡ some b
      → (count b s.out ≡ 0) × (b ≢ 0)
  next_block-IsFree {s} b h e = (
    ground (arith, good.some_each b, h.shares b, count-drop b s.pool.index b s.pool.array e),
    ground (arith, good.no_null, h.shares 0, count-drop 0 s.pool.index b s.pool.array e),
  )

  -- The two outcomes of `fixed_malloc`.
  fixed_malloc-cases :
      {s : Held} (size : ℕ)
      → IsShared blocks s
      → ((length s.out ≡ max_num_blocks) × (fixed_malloc size s.pool ≡ (0, s.pool)))
        ⊎ ((b : ℕ) × (get_elem? s.pool.array s.pool.index ≡ some b)
            × (s.pool.index < max_num_blocks)
            × (fixed_malloc size s.pool ≡ (
              b,
              record s.pool { index = s.pool.index + 1; bytes = clear_bytes b size s.pool.bytes },
            )))
  fixed_malloc-cases {s} size h = elim (Bool-cases (ltb s.pool.index max_num_blocks)) [
    | inl low ↦
        let lt : s.pool.index < max_num_blocks = ground arith in
        let (b, e) = get_elem?-some s.pool.array s.pool.index (omega (arith, h.storage)) in
        inr (b, e, lt, fixed_malloc-get size s.pool b lt e (next_block-IsFree b h e).1)
    | inr full ↦
        let le : max_num_blocks ≤ s.pool.index = ground arith in
        inl (omega (arith, h.index, h.bound), fixed_malloc-full size s.pool le)
  ]

  fixed_malloc-Grants :
      {s : Held} (size b : ℕ)
      → IsShared blocks s
      → get_elem? s.pool.array s.pool.index ≡ some b
      → s.pool.index < max_num_blocks
      → Grants blocks size s
          (b, record s.pool { index = s.pool.index + 1; bytes = clear_bytes b size s.pool.bytes })
  unfolding clear_bytes
  fixed_malloc-Grants {s} size b h e lt = record {
    room = omega (arith, h.index);
    there = (next_block-IsFree b h e).1;
    free = (next_block-IsFree b h e).0;
    ours = ground (arith, good.some_each b, h.shares b, count-drop b s.pool.index b s.pool.array e);
    zeroed = λ i lo. ground arith;
    others = λ q i ne. ground arith;
  }

  -- `fixed_malloc` grants a free block while fewer than 256 are held; with 256 held it returns NULL
  -- and changes nothing.
  pub fixed_malloc_lem :
      {s : Held} (size : ℕ)
      → IsShared blocks s
      → ((length s.out ≡ max_num_blocks) × (fixed_malloc size s.pool ≡ (0, s.pool)))
        ⊎ Grants blocks size s (fixed_malloc size s.pool)
  fixed_malloc_lem {s} size h = elim (fixed_malloc-cases size h) [
    | inl full ↦ inl full
    | inr (b, e, lt, does) ↦ inr (rw does (fixed_malloc-Grants size b h e lt))
  ]

  alloc-IsShared :
      {s : Held} (size b : ℕ)
      → IsShared blocks s
      → get_elem? s.pool.array s.pool.index ≡ some b
      → s.pool.index < max_num_blocks
      → IsShared blocks (record {
        pool = record s.pool { index = s.pool.index + 1; bytes = clear_bytes b size s.pool.bytes };
        out = b ∷ s.out;
      })
  alloc-IsShared {s} size b h e lt = record {
    index = omega (arith, h.index);
    storage = h.storage;
    bound = omega arith;
    shares = λ a. ground (arith, h.shares a, count-drop a s.pool.index b s.pool.array e);
  }

  Alloc-IsShared :
      (p : Pool) (out : List ℕ) (size b : ℕ) (r : Pool)
      → IsShared blocks (record { pool = p; out = out })
      → fixed_malloc size p ≡ (b, r)
      → b ≢ 0
      → IsShared blocks (record { pool = r; out = b ∷ out })
  Alloc-IsShared p out size b r h e ne = elim (fixed_malloc-cases size h) [
    | inl (full, does) ↦ absurd (ne (ap (λ t. t.0) (sym e ∙ does)))
    | inr (c, at, lt, does) ↦
        let same = sym does ∙ e in
        subst₂ (λ x y. IsShared blocks (record { pool = y; out = x ∷ out })) (ap (λ t. t.0) same)
          (ap (λ t. t.1) same) (alloc-IsShared size c h at lt)
  ]

  Refuse-IsShared :
      (p : Pool) (out : List ℕ) (size : ℕ) (r : Pool)
      → IsShared blocks (record { pool = p; out = out })
      → fixed_malloc size p ≡ (0, r)
      → IsShared blocks (record { pool = r; out = out })
  Refuse-IsShared p out size r h e = elim (fixed_malloc-cases size h) [
    | inl (full, does) ↦
        subst (λ y. IsShared blocks (record { pool = y; out = out })) (ap (λ t. t.1) (sym does ∙ e))
          h
    | inr (c, at, lt, does) ↦ absurd ((next_block-IsFree c h at).1 (ap (λ t. t.0) (sym does ∙ e)))
  ]

  -- `fixed_free` of a held block succeeds, and puts the block back.
  pub fixed_free_lem :
      (p : Pool) (out : List ℕ) (b : ℕ)
      → IsShared blocks (record { pool = p; out = out })
      → 0 < count b out
      → (r : Pool) × (fixed_free b p ≡ some r)
        × IsShared blocks (record { pool = r; out = erase b out })
  unfolding fixed_free
  fixed_free_lem p out b h held =
      let one = length-erase b out held in
      let below : p.index - 1 < length p.array = omega (arith, one, h.index, h.storage, h.bound) in
      (
        record p { array = set p.array (p.index - 1) b; index = p.index - 1 },
        ground (arith, one, h.index),
        record {
          index = omega (arith, one, h.index);
          storage = length-set p.array (p.index - 1) b ∙ h.storage;
          bound = omega (arith, h.bound);
          shares = λ a. ground (
            arith,
            one,
            h.index,
            h.shares a,
            count-erase a b out,
            count-drop-set a (p.index - 1) b p.array,
          );
        },
      )

  Step-IsShared : {s t : Held} → Step s t → IsShared blocks s → IsShared blocks t
  Step-IsShared (alloc p out size b r e ne) h = Alloc-IsShared p out size b r h e ne
  Step-IsShared (refuse p out size r e) h = Refuse-IsShared p out size r h e
  Step-IsShared (release p out b r held e) h =
      let (q, does, is) = fixed_free_lem p out b h held in
      subst (λ y. IsShared blocks (record { pool = y; out = erase b out })) (cc) is

  Reach-IsShared : {s t : Held} → IsShared blocks s → Reach s t → IsShared blocks t
  Reach-IsShared h here = h
  Reach-IsShared h (next r st) = Step-IsShared st (Reach-IsShared h r)

-- The pool as `fixed_memory_init` leaves it, no block handed out.
abbrev pub started : List ℕ → (ℕ → ℕ → ℕ) → Held
started blocks bytes = record {
  pool = record { array = blocks; index = 0; bytes = bytes };
  out = [];
}

started-IsShared :
    (blocks : List ℕ) (bytes : ℕ → ℕ → ℕ)
    → length blocks ≡ max_num_blocks
    → IsShared blocks (started blocks bytes)
started-IsShared blocks bytes full = record {
  index = refl;
  storage = full;
  bound = omega arith;
  shares = λ a. omega arith;
}

fixed_malloc-fixed_free :
    (size b : ℕ) (p q : Pool)
    → 0 < p.index
    → p.index ≤ length p.array
    → p.index ≤ max_num_blocks
    → b ≢ 0
    → fixed_free b p ≡ some q
    → (fixed_malloc size q).0 ≡ b
unfolding fixed_free
fixed_malloc-fixed_free size b p q pos le bound ne e =
    let r = record p { array = set p.array (p.index - 1) b; index = p.index - 1 } in
    let same : q ≡ r = ground arith in
    let at = get_elem?-set_self p.array (p.index - 1) b (omega arith) in
    rw same (ap (λ t. t.0) (fixed_malloc-get size r b (omega arith) at ne))

held-ne-null :
    (blocks : List ℕ) (s : Held) (b : ℕ)
    → IsBlocks blocks
    → IsShared blocks s
    → 0 < count b s.out
    → b ≢ 0
held-ne-null blocks s b good h held = ground (arith, good.no_null, h.shares 0)

-- Whatever a client does that frees only blocks it holds: each call of `fixed_malloc` grants it a
-- block of the pool that it does not hold yet, cleared as far as asked, or returns NULL when all
-- 256 are held. The pool is one that was filled with 256 distinct blocks, none of them NULL.
pub Reach-Grants :
    (blocks : List ℕ) (bytes : ℕ → ℕ → ℕ) (t : Held) (size : ℕ)
    → IsBlocks blocks
    → length blocks ≡ max_num_blocks
    → Reach (started blocks bytes) t
    → ((length t.out ≡ max_num_blocks) × (fixed_malloc size t.pool ≡ (0, t.pool)))
      ⊎ Grants blocks size t (fixed_malloc size t.pool)
Reach-Grants blocks bytes t size good full r =
    fixed_malloc_lem blocks good size
      (Reach-IsShared blocks good (started-IsShared blocks bytes full) r)

-- Under the same conditions a call of `fixed_free` on a held block writes inside the array, and the
-- next `fixed_malloc` gives that block again.
pub Reach-frees :
    (blocks : List ℕ) (bytes : ℕ → ℕ → ℕ) (t : Held) (b size : ℕ)
    → IsBlocks blocks
    → length blocks ≡ max_num_blocks
    → Reach (started blocks bytes) t
    → 0 < count b t.out
    → (r : Pool) × (fixed_free b t.pool ≡ some r) × ((fixed_malloc size r).0 ≡ b)
Reach-frees blocks bytes t b size good full r held =
    let h = Reach-IsShared blocks good (started-IsShared blocks bytes full) r in
    let (q, does, is) = fixed_free_lem blocks good t.pool t.out b h held in
    (
      q,
      does,
      fixed_malloc-fixed_free size b t.pool q (omega (arith, h.index, length-erase b t.out held))
          (omega (arith, h.storage, h.bound)) h.bound (held-ne-null blocks t b good h held) does,
    )
