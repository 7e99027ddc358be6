-- ===== src/Groups/Lookup.antt =====
-- What the map says of an interrupt.
use dev_can_linux.Base.{
  if-same, ℕ, zero, suc, ◌-◌, ◌≤◌, ◌<◌, ◌≡◌, ◌≢◌, refl, sym, ap, ◌∙◌, subst, Bool, false, ◌||◌,
  Option, none, some, List, [], ◌∷◌, ◌++◌, map, arith, length, length-set, length-append,
  length-replicate, set, replicate, ◌==◌, if◌then◌else◌, inl, inr, Bool-cases,
}
use dev_can_linux.Groups.{Pointer, needed, enlarge, point_all}

-- The pointer of an interrupt; there is none beyond the end of the map.
unfoldable pub lookup : ℕ → List (Option Pointer) → Option Pointer
lookup q [] = none
lookup zero (e ∷ m) = e
lookup (suc q) (e ∷ m) = lookup q m

abbrev pub member : ℕ → List ℕ → Bool
member q [] = false
member q (x ∷ xs) = (q == x) || member q xs

abbrev pub AllBelow : List ℕ → ℕ → Type 0
AllBelow [] n = Unit {0}
AllBelow (q ∷ qs) n = (q < n) × AllBelow qs n

AllBelow-mono : (qs : List ℕ) (m n : ℕ) → m ≤ n → AllBelow qs m → AllBelow qs n
AllBelow-mono [] m n h b = tt
AllBelow-mono (q ∷ qs) m n h (a, b) = (omega arith, AllBelow-mono qs m n h b)

needed-AllBelow : (qs : List ℕ) → AllBelow qs (needed qs)
unfolding needed
needed-AllBelow [] = tt
needed-AllBelow (q ∷ qs) =
    (ground arith, AllBelow-mono qs (needed qs) _ (ground arith) (needed-AllBelow qs))

length-enlarge : (n : ℕ) (m : List (Option Pointer)) → n ≤ length (enlarge n m)
unfolding enlarge
length-enlarge n m = ground (
  arith,
  length-append m (replicate (n - length m) none),
  length-replicate {A = Option Pointer} (n - length m) none,
)

lookup-replicate : (q n : ℕ) → lookup q (replicate n none) ≡ none
unfolding lookup replicate
lookup-replicate q zero = refl
lookup-replicate zero (suc n) = refl
lookup-replicate (suc q) (suc n) = lookup-replicate q n

lookup-append :
    (q n : ℕ) (m : List (Option Pointer)) → lookup q (m ++ replicate n none) ≡ lookup q m
unfolding lookup
lookup-append q n [] = lookup-replicate q n
lookup-append zero n (e ∷ m) = refl
lookup-append (suc q) n (e ∷ m) = lookup-append q n m

pub lookup-enlarge : (q n : ℕ) (m : List (Option Pointer)) → lookup q (enlarge n m) ≡ lookup q m
unfolding enlarge
lookup-enlarge q n m = ground (arith, lookup-append q (n - length m) m)

lookup-set_self :
    (q : ℕ) (v : Option Pointer) (m : List (Option Pointer))
    → q < length m
    → lookup q (set m q v) ≡ v
unfolding lookup
lookup-set_self q v [] h = elim h [ ]
lookup-set_self zero v (e ∷ m) h = refl
lookup-set_self (suc q) v (e ∷ m) h = lookup-set_self q v m (omega arith)

lookup-set_ne :
    (q x : ℕ) (v : Option Pointer) (m : List (Option Pointer))
    → x ≢ q
    → lookup q (set m x v) ≡ lookup q m
unfolding lookup
lookup-set_ne q x v [] h = refl
lookup-set_ne zero zero v (e ∷ m) h = absurd (h refl)
lookup-set_ne zero (suc x) v (e ∷ m) h = refl
lookup-set_ne (suc q) zero v (e ∷ m) h = refl
lookup-set_ne (suc q) (suc x) v (e ∷ m) h = lookup-set_ne q x v m (λ r. h (ap suc r))

pub lookup-point_all :
    (q : ℕ) (qs : List ℕ) (p : Pointer) (m : List (Option Pointer))
    → AllBelow qs (length m)
    → lookup q (point_all qs p m) ≡ (if member q qs then some p else lookup q m)
unfolding point_all
lookup-point_all q [] p m h = refl
lookup-point_all q (x ∷ xs) p m (h, hs) =
    lookup-point_all q xs p (set m x (some p))
      (subst (AllBelow xs) (sym (length-set m x (some p))) hs)
    ∙ elim (Bool-cases (q == x)) [
      | inl same ↦
          let e : x ≡ q = ground arith in
          let hit : lookup q (set m x (some p)) ≡ some p =
            subst (λ u. lookup u (set m x (some p)) ≡ some p) e (lookup-set_self x (some p) m h) in
          rw (same, hit) (if-same (member q xs) (some p))
      | inr other ↦
          let ne : x ≢ q = ground arith in rw (other, lookup-set_ne q x (some p) m ne) refl
    ]

pub lookup-map :
    (q : ℕ) (f : Option Pointer → Option Pointer) (m : List (Option Pointer))
    → f none ≡ none
    → lookup q (map f m) ≡ f (lookup q m)
unfolding lookup
lookup-map q f [] h = sym h
lookup-map zero f (e ∷ m) h = refl
lookup-map (suc q) f (e ∷ m) h = lookup-map q f m h

pub point_all-AllBelow :
    (qs : List ℕ) (m : List (Option Pointer)) → AllBelow qs (length (enlarge (needed qs) m))
point_all-AllBelow qs m =
    AllBelow-mono qs (needed qs) _ (length-enlarge (needed qs) m) (needed-AllBelow qs)
