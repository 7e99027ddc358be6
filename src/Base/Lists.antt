-- ===== src/Base/Lists.antt =====
-- C arrays as lists with native indices, and spans of them.
use Prim.Native.Nat.{ℕ, zero, suc, ◌+◌, ◌-◌, ◌≤◌, ◌<◌}
use mathlib.Core.Path.{◌≡◌, refl, ap, ap₂, ◌∙◌, sym}
use mathlib.Core.Logic.{◌≢◌, ◌⊎◌, inl, inr}
use mathlib.Core.List.{List, [], ◌∷◌, ◌++◌}
use mathlib.Core.Option.{Option, none, some}
use native.Mathlib.Omega.{arith}

module _ {ℓ} {A : Type ℓ} where
  abbrev pub length : List A → ℕ
  length [] = 0
  length (x ∷ xs) = suc (length xs)

  abbrev pub get_elem? : List A → ℕ → Option A
  get_elem? [] i = none
  get_elem? (x ∷ xs) zero = some x
  get_elem? (x ∷ xs) (suc i) = get_elem? xs i

  -- A write out of bounds changes nothing.
  abbrev pub set : List A → ℕ → A → List A
  set [] i v = []
  set (x ∷ xs) zero v = v ∷ xs
  set (x ∷ xs) (suc i) v = x ∷ set xs i v

  abbrev pub take : ℕ → List A → List A
  take zero xs = []
  take (suc n) [] = []
  take (suc n) (x ∷ xs) = x ∷ take n xs

  abbrev pub drop : ℕ → List A → List A
  drop zero xs = xs
  drop (suc n) [] = []
  drop (suc n) (x ∷ xs) = drop n xs

  -- The `n` elements of an array from index `b` on.
  unfoldable pub span : List A → ℕ → ℕ → List A
  span [] b n = []
  span (x ∷ xs) (suc b) n = span xs b n
  span (x ∷ xs) zero zero = []
  span (x ∷ xs) zero (suc n) = x ∷ span xs zero n

module _ {ℓ} {A : Type ℓ} where
  pub length-append : (xs ys : List A) → length (xs ++ ys) ≡ length xs + length ys
  length-append [] ys = omega arith
  length-append (x ∷ xs) ys = omega (arith, length-append xs ys)

  pub length-set : (xs : List A) (i : ℕ) (v : A) → length (set xs i v) ≡ length xs
  length-set [] i v = refl
  length-set (x ∷ xs) zero v = refl
  length-set (x ∷ xs) (suc i) v = ap suc (length-set xs i v)

  pub List-cases : (xs : List A) → (xs ≡ []) ⊎ ((x : A) × (ys : List A) × (xs ≡ x ∷ ys))
  List-cases [] = inl refl
  List-cases (x ∷ xs) = inr (x, xs, refl)

  pub get_elem?-set_self :
      (xs : List A) (i : ℕ) (v : A) → i < length xs → get_elem? (set xs i v) i ≡ some v
  get_elem?-set_self [] i v h = elim h [ ]
  get_elem?-set_self (x ∷ xs) zero v h = refl
  get_elem?-set_self (x ∷ xs) (suc i) v h = get_elem?-set_self xs i v (omega arith)

  pub get_elem?-set_ne :
      (xs : List A) {i j : ℕ} (v : A) → i ≢ j → get_elem? (set xs i v) j ≡ get_elem? xs j
  get_elem?-set_ne [] v h = refl
  get_elem?-set_ne (x ∷ xs) {i = zero} {j = zero} v h = absurd (h refl)
  get_elem?-set_ne (x ∷ xs) {i = zero} {j = suc j} v h = refl
  get_elem?-set_ne (x ∷ xs) {i = suc i} {j = zero} v h = refl
  get_elem?-set_ne (x ∷ xs) {i = suc i} {j = suc j} v h = get_elem?-set_ne xs v (λ e. h (ap suc e))

  pub get_elem?-none : (xs : List A) (i : ℕ) → length xs ≤ i → get_elem? xs i ≡ none
  get_elem?-none [] i h = refl
  get_elem?-none (x ∷ xs) zero h = elim h [ ]
  get_elem?-none (x ∷ xs) (suc i) h = get_elem?-none xs i (omega arith)

  pub get_elem?-middle : (xs ys : List A) (a : A) → get_elem? (xs ++ (a ∷ ys)) (length xs) ≡ some a
  get_elem?-middle [] ys a = refl
  get_elem?-middle (x ∷ xs) ys a = get_elem?-middle xs ys a

  pub get_elem?-some : (xs : List A) (i : ℕ) → i < length xs → (a : A) × (get_elem? xs i ≡ some a)
  get_elem?-some [] i h = elim h [ ]
  get_elem?-some (x ∷ xs) zero h = (x, refl)
  get_elem?-some (x ∷ xs) (suc i) h = get_elem?-some xs i (omega arith)

module _ {ℓ} {A : Type ℓ} where
  pub span_none : (xs : List A) (b : ℕ) → span xs b 0 ≡ []
  unfolding span
  span_none [] b = refl
  span_none (x ∷ xs) zero = refl
  span_none (x ∷ xs) (suc b) = span_none xs b

  pub length-span : (xs : List A) (b n : ℕ) → b + n ≤ length xs → length (span xs b n) ≡ n
  unfolding span
  length-span [] b n h = omega arith
  length-span (x ∷ xs) (suc b) n h = length-span xs b n (omega arith)
  length-span (x ∷ xs) zero zero h = refl
  length-span (x ∷ xs) zero (suc n) h = ap suc (length-span xs zero n (omega arith))

  -- A write below a span leaves it.
  pub span-set_below :
      (xs : List A) (i b n : ℕ) (v : A) → i < b → span (set xs i v) b n ≡ span xs b n
  unfolding span
  span-set_below [] i b n v h = refl
  span-set_below (x ∷ xs) i zero n v h = elim h [ ]
  span-set_below (x ∷ xs) zero (suc b) n v h = refl
  span-set_below (x ∷ xs) (suc i) (suc b) n v h = span-set_below xs i b n v (omega arith)

  -- A write above a span leaves it.
  pub span-set_above :
      (xs : List A) (i b n : ℕ) (v : A) → b + n ≤ i → span (set xs i v) b n ≡ span xs b n
  unfolding span
  span-set_above [] i b n v h = refl
  span-set_above (x ∷ xs) i zero zero v h = span_none (set (x ∷ xs) i v) zero
  span-set_above (x ∷ xs) zero zero (suc n) v h = absurd (omega arith)
  span-set_above (x ∷ xs) (suc i) zero (suc n) v h =
      ap (◌∷◌ x) (span-set_above xs i zero n v (omega arith))
  span-set_above (x ∷ xs) zero (suc b) n v h = absurd (omega arith)
  span-set_above (x ∷ xs) (suc i) (suc b) n v h = span-set_above xs i b n v (omega arith)

  -- A write just behind a span extends it.
  pub span-set_end :
      (xs : List A) (i b n : ℕ) (v : A)
      → b + n ≡ i
      → i < length xs
      → span (set xs i v) b (suc n) ≡ span xs b n ++ (v ∷ [])
  unfolding span
  span-set_end [] i b n v e h = elim h [ ]
  span-set_end (x ∷ xs) zero zero zero v e h = ap (◌∷◌ v) (span_none xs zero)
  span-set_end (x ∷ xs) (suc i) zero zero v e h = absurd (omega arith)
  span-set_end (x ∷ xs) zero zero (suc n) v e h = absurd (omega arith)
  span-set_end (x ∷ xs) (suc i) zero (suc n) v e h =
      ap (◌∷◌ x) (span-set_end xs i zero n v (omega arith) (omega arith))
  span-set_end (x ∷ xs) zero (suc b) n v e h = absurd (omega arith)
  span-set_end (x ∷ xs) (suc i) (suc b) n v e h =
      span-set_end xs i b n v (omega arith) (omega arith)

  -- The first element of a span, and the rest.
  pub span_cons :
      (xs : List A) (b n : ℕ) (a : A)
      → get_elem? xs b ≡ some a
      → span xs b (suc n) ≡ a ∷ span xs (suc b) n
  unfolding span
  span_cons [] b n a e = cc
  span_cons (x ∷ xs) zero n a e = cc
  span_cons (x ∷ xs) (suc b) n a e = span_cons xs b n a e

  pub drop-span :
      (xs : List A) (b n k : ℕ)
      → b + n ≤ length xs
      → k ≤ n
      → drop k (span xs b n) ≡ span xs (b + k) (n - k)
  drop-span xs b n zero h l = ap₂ (span xs) (omega arith) (omega arith)
  drop-span xs b zero (suc k) h l = elim l [ ]
  drop-span xs b (suc n) (suc k) h l =
      let (a, e) = get_elem?-some xs b (omega arith) in
      rw (span_cons xs b n a e) (
        drop-span xs (suc b) n k (omega arith) (omega arith)
        ∙ ap₂ (span xs) (omega arith) (omega arith))

  pub drop-append_length :
      (xs ys : List A) (n : ℕ) → n ≤ length xs → drop n (xs ++ ys) ≡ drop n xs ++ ys
  drop-append_length xs ys zero h = refl
  drop-append_length [] ys (suc n) h = elim h [ ]
  drop-append_length (x ∷ xs) ys (suc n) h = drop-append_length xs ys n (omega arith)

module _ {ℓ} {A : Type ℓ} where
  pub drop_nil : (n : ℕ) → drop {A = A} n [] ≡ []
  drop_nil zero = refl
  drop_nil (suc n) = refl

  pub drop-drop : (n k : ℕ) (xs : List A) → drop k (drop n xs) ≡ drop (n + k) xs
  drop-drop zero k xs = ap (λ j. drop j xs) (omega arith)
  drop-drop (suc n) k [] = drop_nil k ∙ sym (drop_nil (suc n + k))
  drop-drop (suc n) k (x ∷ xs) =
      let one : suc (n + k) ≡ suc n + k = omega arith in
      drop-drop n k xs ∙ ap (λ j. drop j (x ∷ xs)) one

  -- Two neighbouring spans are one.
  pub span-append : (xs : List A) (b n k : ℕ) → span xs b n ++ span xs (b + n) k ≡ span xs b (n + k)
  unfolding span
  span-append [] b n k = refl
  span-append (x ∷ xs) (suc b) n k =
      let one : suc b + n ≡ suc (b + n) = omega arith in
      ap (λ j. span xs b n ++ span (x ∷ xs) j k) one ∙ span-append xs b n k
  span-append (x ∷ xs) zero zero k =
      let one : 0 + 0 ≡ 0 = refl in
      let two : k ≡ 0 + k = omega arith in
      ap (λ j. span (x ∷ xs) j k) one ∙ ap (λ j. span (x ∷ xs) 0 j) two
  span-append (x ∷ xs) zero (suc n) k =
      let one : 0 + suc n ≡ suc (0 + n) = omega arith in
      let two : suc (n + k) ≡ suc n + k = omega arith in
      ap (λ j. x ∷ (span xs 0 n ++ span (x ∷ xs) j k)) one
      ∙ ap (◌∷◌ x) (span-append xs zero n k)
      ∙ ap (λ j. span (x ∷ xs) 0 j) two

module _ {ℓ} {A : Type ℓ} where
  unfoldable pub replicate : ℕ → A → List A
  replicate zero a = []
  replicate (suc n) a = a ∷ replicate n a

  pub length-replicate : (n : ℕ) (a : A) → length (replicate n a) ≡ n
  unfolding replicate
  length-replicate zero a = refl
  length-replicate (suc n) a = ap suc (length-replicate n a)
