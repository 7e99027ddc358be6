-- ===== src/Pci/Blocks/Laws.antt =====
-- The list of blocks.
use dev_can_linux.Base.{
  ℕ, zero, suc, ◌<◌, ◌≡◌, refl, sym, ap, subst, Bool, true, false, some, List, [], ◌∷◌, ◌++◌, arith,
  length, ◌==◌, if◌then◌else◌, ◌⊎◌, inl, inr, Bool-cases,
}
use dev_can_linux.Links.{Links, write, unlink}
use dev_can_linux.Links.Nodes.{Distinct-at}
use dev_can_linux.Links.Segment.{Segment, Segment-next-Away, Segment-prev-Away}
use dev_can_linux.Links.Laws.{IsList}
use dev_can_linux.Links.Unlink.{unlink-IsList}
use dev_can_linux.Pci.Blocks.{Block, Blocks, search_blocks, bypass, take_out}

-- The first node whose block passes a test, NULL if there is none.
abbrev pub first : (Block → Bool) → (ℕ → Block) → List ℕ → ℕ
first test f [] = 0
first test f (x ∷ xs) = let rest = first test f xs in if test (f x) then x else rest

abbrev pub NoneOf : (Block → Bool) → (ℕ → Block) → List ℕ → Type 0
NoneOf test f [] = Unit {0}
NoneOf test f (x ∷ xs) = (test (f x) ≡ false) × NoneOf test f xs

-- A node in a list: the first that passes the test.
pub record IsFirst (test : Block → Bool) (f : ℕ → Block) (xs : List ℕ) : Type 0 where
  pub node : ℕ
  pub before : List ℕ
  pub behind : List ℕ
  pub whole : xs ≡ before ++ (node ∷ behind)
  pub none_before : NoneOf test f before
  pub passes : test (f node) ≡ true
  pub found : first test f xs ≡ node

pub First-cases :
    (test : Block → Bool) (f : ℕ → Block) (xs : List ℕ)
    → (NoneOf test f xs × (first test f xs ≡ 0)) ⊎ IsFirst test f xs
First-cases test f [] = inl (tt, refl)
First-cases test f (x ∷ xs) = elim (Bool-cases (test (f x))) [
  | inl p ↦ inr (record {
    node = x;
    before = [];
    behind = xs;
    whole = refl;
    none_before = tt;
    passes = p;
    found = rw p refl;
  })
  | inr n ↦ elim (First-cases test f xs) [
    | inl (others, e) ↦ inl ((n, others), rw n e)
    | inr i ↦ inr (record {
      node = i.node;
      before = x ∷ i.before;
      behind = i.behind;
      whole = ap (◌∷◌ x) i.whole;
      none_before = (n, i.none_before);
      passes = i.passes;
      found = rw n i.found;
    })
  ]
]

pub search_blocks-Segment :
    (fuel : ℕ) (test : Block → Bool) (s : Blocks) (xs : List ℕ) (p q p' : ℕ)
    → Segment s.links p q xs p' 0
    → length xs < fuel
    → search_blocks fuel test s q ≡ some (first test s.block xs)
unfolding search_blocks
search_blocks-Segment zero test s xs p q p' g f = elim f [ ]
search_blocks-Segment (suc fuel) test s [] p q p' (a, b) f = rw (sym b) refl
search_blocks-Segment (suc fuel) test s (x ∷ xs) p q p' (a, b, c, g) f =
    let there : (q == 0) ≡ false = ground arith in
    let next = subst (λ u. Segment s.links x (s.links.next u) xs p' 0) (sym a) g in
    let rest = search_blocks-Segment fuel test s xs x (s.links.next q) p' next (omega arith) in
    elim (Bool-cases (test (s.block x))) [
      | inl t ↦
          let at_q : test (s.block q) ≡ true = subst (λ u. test (s.block u) ≡ true) (sym a) t in
          rw (there, rest, at_q, t) (ap some a)
      | inr t ↦
          let at_q : test (s.block q) ≡ false = subst (λ u. test (s.block u) ≡ false) (sym a) t in
          rw (there, rest, at_q, t) refl
    ]

bypass_lem : (n : ℕ) (l : Links) → bypass n l ≡ unlink n l
unfolding bypass unlink
bypass_lem n l = elim (Bool-cases (l.prev n == 0)) [
  | inl p ↦ elim (Bool-cases (l.next n == 0)) [
    | inl q ↦ let e : l.next n ≡ 0 = ground arith in rw (p, q) (ap (λ u. record l { root = u }) e)
    | inr q ↦ rw (p, q) refl
  ]
  | inr p ↦ elim (Bool-cases (l.next n == 0)) [
    | inl q ↦
        let e : l.next n ≡ 0 = ground arith in
        rw (p, q) (ap (λ u. record l { next = write l.next (l.prev n) u }) e)
    | inr q ↦ rw (p, q) refl
  ]
]

-- `remove_block` takes the node out of the list, wherever it stands.
pub take_out-IsList :
    {l : Links} (n : ℕ) (xs ys : List ℕ)
    → IsList l (xs ++ (n ∷ ys))
    → IsList (take_out n l) (xs ++ ys)
unfolding take_out
take_out-IsList {l} n xs ys h =
    let m = bypass n l in
    let k = subst (λ u. IsList u (xs ++ ys)) (sym (bypass_lem n l)) (unlink-IsList n xs ys h) in
    let away = (Distinct-at xs n ys h.distinct).1 in
    let one = Segment-prev-Away m n 0 (xs ++ ys) 0 m.root k.tail 0 away k.linked in
    record {
      distinct = k.distinct;
      tail = k.tail;
      linked =
          Segment-next-Away (record m { prev = write m.prev n 0 }) n 0 (xs ++ ys) 0 m.root k.tail 0
            away one;
    }
