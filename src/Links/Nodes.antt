-- ===== src/Links/Nodes.antt =====
-- Lists of nodes: the last one, and distinctness.
use dev_can_linux.Base.{ℕ, ◌≡◌, ◌≢◌, refl, sym, ap, List, [], ◌∷◌, ◌++◌, ◌⊎◌, inl, inr}

-- `y` is none of the nodes, and no node is there twice.
abbrev pub Away : ℕ → List ℕ → Type 0
Away y [] = Unit {0}
Away y (x ∷ xs) = (y ≢ x) × Away y xs

abbrev pub Distinct : List ℕ → Type 0
Distinct [] = Unit {0}
Distinct (x ∷ xs) = Away x xs × Distinct xs

-- The last node of a list, NULL of none.
abbrev pub last_or : ℕ → List ℕ → ℕ
last_or d [] = d
last_or d (x ∷ xs) = last_or x xs

-- A list is empty or ends in a node.
pub Snoc-cases : (xs : List ℕ) → (xs ≡ []) ⊎ ((ys : List ℕ) × (y : ℕ) × (xs ≡ ys ++ (y ∷ [])))
Snoc-cases [] = inl refl
Snoc-cases (x ∷ xs) = elim (Snoc-cases xs) [
  | inl e ↦ inr ([], x, ap (◌∷◌ x) e)
  | inr (ys, y, e) ↦ inr (x ∷ ys, y, ap (◌∷◌ x) e)
]

pub last_or-snoc : (d y : ℕ) (ys : List ℕ) → last_or d (ys ++ (y ∷ [])) ≡ y
last_or-snoc d y [] = refl
last_or-snoc d y (x ∷ ys) = last_or-snoc x y ys

pub Away-append : (y : ℕ) (xs ys : List ℕ) → Away y xs → Away y ys → Away y (xs ++ ys)
Away-append y [] ys h k = k
Away-append y (x ∷ xs) ys (a, h) k = (a, Away-append y xs ys h k)

pub Away-left : (y : ℕ) (xs ys : List ℕ) → Away y (xs ++ ys) → Away y xs
Away-left y [] ys h = tt
Away-left y (x ∷ xs) ys (a, h) = (a, Away-left y xs ys h)

pub Away-right : (y : ℕ) (xs ys : List ℕ) → Away y (xs ++ ys) → Away y ys
Away-right y [] ys h = h
Away-right y (x ∷ xs) ys (a, h) = Away-right y xs ys h

pub Away-without :
    (y z : ℕ) (xs ys : List ℕ) → Away y (xs ++ (z ∷ ys)) → (y ≢ z) × Away y (xs ++ ys)
Away-without y z [] ys (a, h) = (a, h)
Away-without y z (x ∷ xs) ys (a, h) = let (b, k) = Away-without y z xs ys h in (b, (a, k))

-- What the distinctness of a list says of a node in it.
pub Distinct-at :
    (xs : List ℕ) (z : ℕ) (ys : List ℕ)
    → Distinct (xs ++ (z ∷ ys))
    → Distinct (xs ++ ys) × Away z (xs ++ ys)
Distinct-at [] z ys (h, d) = (d, h)
Distinct-at (x ∷ xs) z ys (h, d) =
    let (e, k) = Distinct-at xs z ys d in
    let (a, b) = Away-without x z xs ys h in ((b, e), ((λ r. a (sym r)), k))

pub Distinct-snoc : (xs : List ℕ) (n : ℕ) → Distinct xs → Away n xs → Distinct (xs ++ (n ∷ []))
Distinct-snoc [] n d h = (tt, tt)
Distinct-snoc (x ∷ xs) n (a, d) (h, hs) =
    (Away-append x xs (n ∷ []) a ((λ r. h (sym r)), tt), Distinct-snoc xs n d hs)
