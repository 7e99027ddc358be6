-- ===== src/Fixed/Count.antt =====
-- How often a pointer stands in a list.
use dev_can_linux.Base.{
  ℕ, zero, suc, ◌+◌, ◌<◌, ◌≡◌, refl, List, [], ◌∷◌, some, get_elem?, set, drop, length, ◌==◌,
  if◌then◌else◌, arith,
}

abbrev pub count : ℕ → List ℕ → ℕ
count a [] = 0
count a (x ∷ xs) = (if a == x then 1 else 0) + count a xs

-- The list without the first occurrence of a pointer.
abbrev pub erase : ℕ → List ℕ → List ℕ
erase a [] = []
erase a (x ∷ xs) = if a == x then xs else x ∷ erase a xs

pub count-erase :
    (a p : ℕ) (xs : List ℕ)
    → 0 < count p xs
    → count a (erase p xs) + (if a == p then 1 else 0) ≡ count a xs
count-erase a p [] h = elim h [ ]
count-erase a p (x ∷ xs) h = ground (arith, count-erase a p xs)

pub length-erase : (p : ℕ) (xs : List ℕ) → 0 < count p xs → suc (length (erase p xs)) ≡ length xs
length-erase p [] h = elim h [ ]
length-erase p (x ∷ xs) h = ground (arith, length-erase p xs)

pub count-drop :
    (a i b : ℕ) (xs : List ℕ)
    → get_elem? xs i ≡ some b
    → count a (drop i xs) ≡ (if a == b then 1 else 0) + count a (drop (suc i) xs)
count-drop a i b [] e = cc
count-drop a zero b (x ∷ xs) e = ground arith
count-drop a (suc i) b (x ∷ xs) e = count-drop a i b xs e

pub count-drop-set :
    (a i p : ℕ) (xs : List ℕ)
    → i < length xs
    → count a (drop i (set xs i p)) ≡ (if a == p then 1 else 0) + count a (drop (suc i) xs)
count-drop-set a i p [] h = elim h [ ]
count-drop-set a zero p (x ∷ xs) h = refl
count-drop-set a (suc i) p (x ∷ xs) h = count-drop-set a i p xs (omega arith)
