-- ===== src/Vcan/Devices.antt =====
-- The devices of the channels, and the loop of src/kernel/drivers/net/can/sja1000/vcan.c that
-- releases them.
use dev_can_linux.Base.{
  ℕ, zero, suc, ◌+◌, ◌≤◌, ◌<◌, ◌≡◌, ◌≢◌, refl, sym, ap, ◌∙◌, some, List, [], ◌∷◌, ◌++◌, append-nil,
  append_assoc, arith, length, length-append, replicate, ◌==◌, false,
}
use dev_can_linux.Vcan.{
  Board, Vcan, VcanCall, register_sja1000dev, unregister_sja1000dev, free_sja1000dev, kfree,
  del_channel, del_channels, vcan_del_all_channels,
}

-- The devices of the first channels.
abbrev pub devices : (alloc : ℕ → ℕ) (n : ℕ) → List ℕ
devices alloc zero = []
devices alloc (suc n) = devices alloc n ++ (alloc n ∷ [])

pub length-devices : (alloc : ℕ → ℕ) (n : ℕ) → length (devices alloc n) ≡ n
length-devices alloc zero = refl
length-devices alloc (suc n) =
    omega (arith, length-append (devices alloc n) (alloc n ∷ []), length-devices alloc n)

abbrev pub AllThere : List ℕ → Type 0
AllThere [] = Unit {0}
AllThere (d ∷ ds) = (d ≢ 0) × AllThere ds

pub AllThere-append : (ds es : List ℕ) → AllThere ds → AllThere es → AllThere (ds ++ es)
AllThere-append [] es h k = k
AllThere-append (d ∷ ds) es (h, hs) k = (h, AllThere-append ds es hs k)

pub devices-AllThere :
    (alloc : ℕ → ℕ) (n : ℕ) → ((c : ℕ) → c < n → alloc c ≢ 0) → AllThere (devices alloc n)
devices-AllThere alloc zero h = tt
devices-AllThere alloc (suc n) h =
    AllThere-append (devices alloc n) (alloc n ∷ [])
      (devices-AllThere alloc n (λ c l. h c (omega arith))) (h n (omega arith), tt)

-- The calls that registered them, and those that release each once.
abbrev pub registers_of : List ℕ → List VcanCall
registers_of [] = []
registers_of (d ∷ ds) = register_sja1000dev d ∷ registers_of ds

abbrev pub releases_of : List ℕ → List VcanCall
releases_of [] = []
releases_of (d ∷ ds) = unregister_sja1000dev d ∷ free_sja1000dev d ∷ releases_of ds

pub registers_of-append :
    (ds es : List ℕ) → registers_of (ds ++ es) ≡ registers_of ds ++ registers_of es
registers_of-append [] es = refl
registers_of-append (d ∷ ds) es = ap (◌∷◌ (register_sja1000dev d)) (registers_of-append ds es)

abbrev pub released : List ℕ → Vcan → Vcan
released [] s = s
released (d ∷ ds) s = released ds (del_channel d s)

pub released-calls :
    (ds : List ℕ) (s : Vcan) → AllThere ds → (released ds s).calls ≡ s.calls ++ releases_of ds
unfolding del_channel
released-calls [] s h = sym (append-nil s.calls)
released-calls (d ∷ ds) s (h, hs) =
    let there : (d == 0) ≡ false = ground arith in
    let here : (del_channel d s).calls
        ≡ s.calls ++ (unregister_sja1000dev d ∷ free_sja1000dev d ∷ []) =
      rw (del_channel, there) refl in
    released-calls ds (del_channel d s) hs
    ∙ ap (λ c. c ++ releases_of ds) here
    ∙ append_assoc s.calls (unregister_sja1000dev d ∷ free_sja1000dev d ∷ []) (releases_of ds)

empty_channels :
    (n k : ℕ) (s : Vcan) → n ≤ k → del_channels n (replicate k 0) s ≡ some (replicate k 0, s)
unfolding del_channels replicate del_channel
empty_channels zero k s h = refl
empty_channels (suc n) zero s h = elim h [ ]
empty_channels (suc n) (suc k) s h = rw (empty_channels n k s (omega arith)) refl

del_channels_lem :
    (n k : ℕ) (ds : List ℕ) (s : Vcan)
    → length ds ≤ n
    → n ≤ length ds + k
    → del_channels n (ds ++ replicate k 0) s ≡ some (replicate (length ds + k) 0, released ds s)
unfolding del_channels replicate
del_channels_lem n k [] s l h =
    empty_channels n k s (omega arith) ∙ ap (λ m. some (replicate m 0, s)) (omega arith)
del_channels_lem zero k (d ∷ ds) s l h = elim l [ ]
del_channels_lem (suc n) k (d ∷ ds) s l h =
    let more : suc (length ds + k) ≡ suc (length ds) + k = omega arith in
    rw (del_channels_lem n k ds (del_channel d s) (omega arith) (omega arith))
      (ap (λ m. some (replicate m 0, released ds (del_channel d s))) more)

-- Behind the devices the array is empty, and no channel is beyond it.
pub record Holds (b : Board) (ds : List ℕ) : Type 0 where
  pub free : ℕ
  pub slave_dev : b.slave_dev ≡ ds ++ replicate free 0
  pub above : length ds ≤ b.no_channels
  pub below : b.no_channels ≤ length ds + free

-- The board behind `vcan_del_all_channels`.
abbrev pub emptied : (free : ℕ) → List ℕ → Board → Board
emptied k ds b = record b { slave_dev = replicate (length ds + k) 0 }

pub vcan_del_all_channels_lem :
    (s : Vcan) (b : Board) (ds : List ℕ) (h : Holds b ds)
    → s.board ≡ some b
    → vcan_del_all_channels s
      ≡ some (record (released ds s) {
        board = some (emptied h.free ds b);
        calls = (released ds s).calls ++ (kfree b.reg_base ∷ []);
      })
unfolding vcan_del_all_channels
vcan_del_all_channels_lem s b ds h e = simp (
  vcan_del_all_channels,
  e,
  h.slave_dev,
  del_channels_lem b.no_channels h.free ds s h.above h.below,
)

pub emptied-Holds : (b : Board) (ds : List ℕ) (h : Holds b ds) → Holds (emptied h.free ds b) []
emptied-Holds b ds h = record {
  free = length ds + h.free;
  slave_dev = refl;
  above = omega arith;
  below = omega (arith, h.below);
}
