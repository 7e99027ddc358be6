-- ===== src/Options/Found.antt =====
-- A configuration that is set is found again, at its id only.
use dev_can_linux.Base.{
  ℕ, zero, suc, ◌+◌, ◌-◌, ◌<◌, ◌≡◌, ◌≢◌, refl, sym, ap, ◌∙◌, subst, inl, inr, Bool-cases,
  Option-cases, Option, none, some, List, [], ◌∷◌, ◌++◌, length, length-append, length-replicate,
  set, get_elem?, get_elem?-set_self, get_elem?-set_ne, replicate, arith, ltb, ◌==◌, if◌then◌else◌,
}
use dev_can_linux.Options.Configs.{set_config, given, config_of}

-- A configuration that was given later, or the one before.
abbrev pub later {ℓ} : {A : Type ℓ} → Option A → Option A → Option A
later none before = before
later (some c) before = some c

pub later-none : {A : Type 0} (a : Option A) → later a none ≡ a
later-none none = refl
later-none (some x) = refl

pub later_assoc : {A : Type 0} (a b c : Option A) → later a (later b c) ≡ later (later a b) c
later_assoc none b c = refl
later_assoc (some x) b c = refl

module _ {A : Type 0} (id_of : A → Option ℕ) (default : A) (no_id : id_of default ≡ none) where
  given-replicate : (id q n : ℕ) → given id_of id (get_elem? (replicate n default) q) ≡ none
  unfolding replicate
  given-replicate id q zero = refl
  given-replicate id zero (suc n) = rw no_id refl
  given-replicate id (suc q) (suc n) = given-replicate id q n

  given-append :
      (id q n : ℕ) (t : List A)
      → given id_of id (get_elem? (t ++ replicate n default) q) ≡ given id_of id (get_elem? t q)
  given-append id q n [] = given-replicate id q n
  given-append id zero n (c ∷ t) = refl
  given-append id (suc q) n (c ∷ t) = given-append id q n t

  -- The array with room for an id.
  widened : (id : ℕ) → List A → List A
  widened id t =
      let n = length t in if ltb n (id + 1) then t ++ replicate (id + 1 - n) default else t

  widened-holds : (id : ℕ) (t : List A) → id < length (widened id t)
  unfolding widened
  widened-holds id t = ground (
    arith,
    length-append t (replicate (id + 1 - length t) default),
    length-replicate (id + 1 - length t) default,
  )

  config_of-widened :
      (j id : ℕ) (t : List A) → config_of id_of j (widened id t) ≡ config_of id_of j t
  unfolding config_of widened
  config_of-widened j id t = ground (arith, given-append j j (id + 1 - length t) t)

  set_config-widened :
      (id : ℕ) (c : A) (t : List A) → set_config default id c t ≡ set (widened id t) id c
  unfolding set_config widened
  set_config-widened id c t = refl

  config_of-set_self :
      (id : ℕ) (c : A) (t : List A)
      → id_of c ≡ some id
      → config_of id_of id (set (widened id t) id c) ≡ some c
  unfolding config_of
  config_of-set_self id c t e =
      rw (get_elem?-set_self (widened id t) id c (widened-holds id t), e) ground arith

  config_of-set :
      (j id : ℕ) (c : A) (t : List A)
      → id ≢ j
      → config_of id_of j (set t id c) ≡ config_of id_of j t
  unfolding config_of
  config_of-set j id c t ne = ap (given id_of j) (get_elem?-set_ne t c ne)

  config_of-set_ne :
      (j id : ℕ) (c : A) (t : List A)
      → id ≢ j
      → config_of id_of j (set (widened id t) id c) ≡ config_of id_of j t
  config_of-set_ne j id c t ne = config_of-set j id c (widened id t) ne ∙ config_of-widened j id t

  -- A new configuration is found at its id, and the others are as they were.
  config_of-set_config :
      (j id : ℕ) (c : A) (t : List A)
      → id_of c ≡ some id
      → config_of id_of j (set_config default id c t)
        ≡ (if id == j then some c else config_of id_of j t)
  config_of-set_config j id c t e = elim (Bool-cases (id == j)) [
    | inl same ↦
        let at : id ≡ j = ground arith in
        rw (set_config-widened id c t, same)
          (subst (λ i. config_of id_of i (set (widened id t) id c) ≡ some c) at
            (config_of-set_self id c t e))
    | inr other ↦ rw (set_config-widened id c t, other) (config_of-set_ne j id c t (ground arith))
  ]

  unfoldable pub configured : Option A → List A → Option (List A)
  configured none t = none
  configured (some c) t = elim (id_of c) [
    | none ↦ none
    | some id ↦ some (set_config default id c t)
  ]

  pub config_of-configured :
      (j : ℕ) (r : Option A) (t u : List A)
      → configured r t ≡ some u
      → config_of id_of j u ≡ later (given id_of j r) (config_of id_of j t)
  unfolding configured
  config_of-configured j none t u e = cc
  config_of-configured j (some c) t u e = elim (Option-cases (id_of c)) [
    | inl n ↦ absurd (ground arith)
    | inr (id, q) ↦
        let v : set_config default id c t ≡ u = ground arith in
        ap (config_of id_of j) (sym v)
        ∙ config_of-set_config j id c t q
        ∙ elim (Bool-cases (id == j)) [
          | inl same ↦ rw (same, q) (ground arith)
          | inr other ↦ rw (other, q) (ground arith)
        ]
  ]
