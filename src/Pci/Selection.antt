-- ===== src/Pci/Selection.antt =====
-- The devices for which drivers are started.
use dev_can_linux.Base.{
  ℕ, zero, suc, ◌<◌, ◌≡◌, refl, sym, ap, ◌∙◌, subst, inl, inr, ◌⊎◌, Option-cases, Bool-cases, Bool,
  Option, none, some, List, [], ◌∷◌, ◌++◌, append_assoc, append-nil, length, length-append,
  get_elem?, get_elem?-none, get_elem?-middle, arith, if◌then◌else◌,
}
use dev_can_linux.Options.{DeviceConfig}
use dev_can_linux.Pci.{
  DeviceId, Selected, BusFunction, detect_driver, is_disabled, select_device, select_from,
  process_driver_selection,
}
use dev_can_linux.Pci.Drivers.{
  Unsupported, IsFirst, IsDisabled, detect-none, detect-IsFirst, is_disabled-IsDisabled,
  is_disabled-false,
}

-- The vendor of every function can be read.
abbrev pub AllRead : List BusFunction → Type 0
AllRead [] = Unit
AllRead (f ∷ fs) = ((vid : ℕ) × (f.vid ≡ some vid)) × AllRead fs

module _ (tables : List (List DeviceId)) (disabled : List DeviceConfig) where
  -- What is wanted of one function: the first driver that supports it, unless -d disables it.
  abbrev pub wanted : (vid did : Option ℕ) → List Selected
  wanted (some vid) (some did) = elim (detect_driver 0 tables vid did) [
    | none ↦ []
    | some k ↦
        if is_disabled disabled vid did
        then []
        else record { vendor = vid; device = did; driver = k } ∷ []
  ]
  wanted _ _ = []

  abbrev pub all_wanted : List BusFunction → List Selected
  all_wanted [] = []
  all_wanted (f ∷ fs) = wanted f.vid f.did ++ all_wanted fs

  select_device-wanted :
      (vid : ℕ) (did : Option ℕ) (t : List Selected)
      → select_device tables disabled vid did t ≡ t ++ wanted (some vid) did
  unfolding select_device
  select_device-wanted vid none t = sym (append-nil t)
  select_device-wanted vid (some did) t = elim (Option-cases (detect_driver 0 tables vid did)) [
    | inl n ↦ ground (arith, append-nil t)
    | inr (k, d) ↦ ground (arith, append-nil t)
  ]

  -- The loop behind the functions that it has seen.
  select_from-wanted :
      (fuel : ℕ) (seen fs : List BusFunction) (t : List Selected)
      → AllRead fs
      → length fs < fuel
      → select_from tables disabled fuel (seen ++ fs) (length seen) t ≡ some (t ++ all_wanted fs)
  unfolding select_from
  select_from-wanted zero seen fs t all h = elim h [ ]
  select_from-wanted (suc fuel) seen [] t all h =
      let at_end : get_elem? (seen ++ []) (length seen) ≡ none =
        rw (append-nil seen) (get_elem?-none seen (length seen) (omega arith)) in
      let stops : select_from tables disabled (suc fuel) (seen ++ []) (length seen) t ≡ some t =
        ground (arith, at_end) in
      stops ∙ ap some (sym (append-nil t))
  select_from-wanted (suc fuel) seen (f ∷ fs) t ((vid, v), all) h =
      let here = get_elem?-middle seen fs f in
      let one_more : length (seen ++ (f ∷ [])) ≡ suc (length seen) =
        length-append seen (f ∷ []) ∙ omega arith in
      let t' = select_device tables disabled vid f.did t in
      let rest = select_from-wanted fuel (seen ++ (f ∷ [])) fs t' all (omega arith) in
      let moved =
        subst
          (λ b.
            select_from tables disabled fuel b (length (seen ++ (f ∷ []))) t'
            ≡ some (t' ++ all_wanted fs))
          (append_assoc seen (f ∷ []) fs) rest in
      let at_next =
        subst
          (λ k.
            select_from tables disabled fuel (seen ++ (f ∷ fs)) k t' ≡ some (t' ++ all_wanted fs))
          one_more moved in
      let goes : select_from tables disabled (suc fuel) (seen ++ (f ∷ fs)) (length seen) t
          ≡ some (t' ++ all_wanted fs) =
        ground (arith, here, v, at_next) in
      let same : wanted (some vid) f.did ≡ wanted f.vid f.did = ap (λ x. wanted x f.did) (sym v) in
      goes
      ∙ ap (λ x. some (x ++ all_wanted fs)) (select_device-wanted vid f.did t)
      ∙ ap (λ x. some ((t ++ x) ++ all_wanted fs)) same
      ∙ ap some (append_assoc t (wanted f.vid f.did) (all_wanted fs))

  -- A function whose vendor cannot be read, at the index of the loop.
  select_from-stuck :
      (fuel : ℕ) (bus : List BusFunction) (idx : ℕ) (f : BusFunction) (t : List Selected)
      → get_elem? bus idx ≡ some f
      → f.vid ≡ none
      → select_from tables disabled fuel bus idx t ≡ none
  unfolding select_from
  select_from-stuck zero bus idx f t at v = refl
  select_from-stuck (suc fuel) bus idx f t at v =
      ground (arith, at, v, select_from-stuck fuel bus idx f t at v)

  select_from-none :
      (fuel : ℕ) (seen fs rest : List BusFunction) (f : BusFunction) (t : List Selected)
      → AllRead fs
      → f.vid ≡ none
      → select_from tables disabled fuel (seen ++ (fs ++ (f ∷ rest))) (length seen) t ≡ none
  unfolding select_from
  select_from-none fuel seen [] rest f t all v =
      select_from-stuck fuel _ (length seen) f t (get_elem?-middle seen rest f) v
  select_from-none zero seen (g ∷ fs) rest f t all v = refl
  select_from-none (suc fuel) seen (g ∷ fs) rest f t ((vid, w), all) v =
      let bus = seen ++ (g ∷ (fs ++ (f ∷ rest))) in
      let here = get_elem?-middle seen (fs ++ (f ∷ rest)) g in
      let one_more : length (seen ++ (g ∷ [])) ≡ suc (length seen) =
        length-append seen (g ∷ []) ∙ omega arith in
      let t' = select_device tables disabled vid g.did t in
      let later = select_from-none fuel (seen ++ (g ∷ [])) fs rest f t' all v in
      let moved =
        subst (λ b. select_from tables disabled fuel b (length (seen ++ (g ∷ []))) t' ≡ none)
          (append_assoc seen (g ∷ []) (fs ++ (f ∷ rest))) later in
      let at_next = subst (λ k. select_from tables disabled fuel bus k t' ≡ none) one_more moved in
      ground (arith, here, w, at_next)

  -- What is stored for one function: itself with the first driver that supports it, where there is
  -- one and no -d disables the device; nothing otherwise.
  abbrev pub Stored : (vid did : Option ℕ) → List Selected → Type 0
  Stored (some vid) (some did) xs =
      ((k : ℕ) × IsFirst vid did k tables
        × (¬ (IsDisabled vid did disabled))
        × (xs ≡ record { vendor = vid; device = did; driver = k } ∷ []))
      ⊎ ((Unsupported vid did tables ⊎ IsDisabled vid did disabled) × (xs ≡ []))
  Stored _ _ xs = xs ≡ []

  -- What is stored for the functions, one after the other.
  abbrev pub AllStored : List BusFunction → List Selected → Type 0
  AllStored [] xs = xs ≡ []
  AllStored (f ∷ fs) xs =
      (ys : List Selected) × (zs : List Selected) × (xs ≡ ys ++ zs)
      × Stored f.vid f.did ys
      × AllStored fs zs

  wanted-Stored : (vid did : Option ℕ) → Stored vid did (wanted vid did)
  wanted-Stored none did = refl
  wanted-Stored (some vid) none = refl
  wanted-Stored (some vid) (some did) = elim (Option-cases (detect_driver 0 tables vid did)) [
    | inl n ↦ inr (inl (detect-none vid did 0 tables n), rw (wanted, n) refl)
    | inr (k, e) ↦ elim (Bool-cases (is_disabled disabled vid did)) [
      | inl off ↦ inr (inr (is_disabled-IsDisabled vid did disabled off), rw (wanted, e, off) refl)
      | inr on ↦
          let (j, same, first) = detect-IsFirst vid did 0 k tables e in
          inl (
            k,
            (let here : j ≡ k = omega (arith, same) in
                subst (λ i. IsFirst vid did i tables) here first),
            is_disabled-false vid did disabled on,
            rw (wanted, e, on) refl,
          )
    ]
  ]

  all_wanted-AllStored : (fs : List BusFunction) → AllStored fs (all_wanted fs)
  all_wanted-AllStored [] = refl
  all_wanted-AllStored (f ∷ fs) =
      (wanted f.vid f.did, all_wanted fs, refl, wanted-Stored f.vid f.did, all_wanted-AllStored fs)

  -- Where the vendors of all functions on the bus can be read, the loop ends after one round for each
  -- and one more, and each function that a driver supports and that no -d disables is stored once, in
  -- the order of the bus, with the first driver whose table has it; -L adds the driver for virtual CAN
  -- at the end.
  pub process_driver_selection-wanted :
      (fuel : ℕ) (opt_l : Bool) (bus : List BusFunction)
      → AllRead bus
      → length bus < fuel
      → (xs : List Selected) × (process_driver_selection tables disabled fuel opt_l bus
          ≡ some (xs ++ (if opt_l then record { vendor = 0; device = 0; driver = 6 } ∷ [] else [])))
        × AllStored bus xs
  unfolding process_driver_selection
  process_driver_selection-wanted fuel opt_l bus all h = (
    all_wanted bus,
    ground (arith, select_from-wanted fuel [] bus [] all h, append-nil (all_wanted bus)),
    all_wanted-AllStored bus,
  )

  -- A function whose vendor cannot be read makes the loop run for ever, whatever stands before it.
  pub process_driver_selection-none :
      (fuel : ℕ) (opt_l : Bool) (fs rest : List BusFunction) (f : BusFunction)
      → AllRead fs
      → f.vid ≡ none
      → process_driver_selection tables disabled fuel opt_l (fs ++ (f ∷ rest)) ≡ none
  unfolding process_driver_selection
  process_driver_selection-none fuel opt_l fs rest f all v =
      ground (arith, select_from-none fuel [] fs rest f [] all v)
