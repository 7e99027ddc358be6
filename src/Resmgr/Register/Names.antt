-- ===== src/Resmgr/Register/Names.antt =====
-- Lists of resource managers whose names differ.
use dev_can_linux.Base.{
  ℕ, suc, ◌<◌, ◌≡◌, ◌≢◌, ap, Option, none, some, List, [], ◌∷◌, ◌++◌, arith, ◌⊎◌, inl, inr,
}
use dev_can_linux.Resmgr.{ChannelType, rx_channel, tx_channel}
use dev_can_linux.Resmgr.Register.{Name, Node}

-- The receive channels of a device come before its transmit channels.
abbrev pub rank : ChannelType → ℕ
rank rx_channel = 0
rank tx_channel = 1

-- The name, if there is one, is of an earlier device or of an earlier channel of the device.
abbrev pub Before : (device kind index : ℕ) → Option Name → Type 0
Before d k i none = Unit {0}
Before d k i (some m) =
    (m.device < d)
    ⊎ ((m.device ≡ d) × ((rank m.channel_type < k) ⊎ ((rank m.channel_type ≡ k) × (m.index < i))))

abbrev pub AllBefore : (device kind index : ℕ) → List Node → Type 0
AllBefore d k i [] = Unit {0}
AllBefore d k i (n ∷ t) = Before d k i n.name × AllBefore d k i t

abbrev pub Unnamed : Name → List Node → Type 0
Unnamed x [] = Unit {0}
Unnamed x (n ∷ t) = (n.name ≢ some x) × Unnamed x t

-- No two resource managers have the same name.
abbrev pub NamesApart : List Node → Type 0
NamesApart [] = Unit {0}
NamesApart (n ∷ t) = ((x : Name) → n.name ≡ some x → Unnamed x t) × NamesApart t

pub AllBefore-weaken :
    (d k i d' k' i' : ℕ) (t : List Node)
    → ((m : Option Name) → Before d k i m → Before d' k' i' m)
    → AllBefore d k i t
    → AllBefore d' k' i' t
AllBefore-weaken d k i d' k' i' [] f h = tt
AllBefore-weaken d k i d' k' i' (n ∷ t) f (h, hs) =
    (f n.name h, AllBefore-weaken d k i d' k' i' t f hs)

pub AllBefore-append :
    (d k i : ℕ) (t : List Node) (n : Node)
    → AllBefore d k i t
    → Before d k i n.name
    → AllBefore d k i (t ++ (n ∷ []))
AllBefore-append d k i [] n h b = (b, tt)
AllBefore-append d k i (m ∷ t) n (h, hs) b = (h, AllBefore-append d k i t n hs b)

Unnamed-append :
    (x : Name) (t : List Node) (n : Node)
    → Unnamed x t
    → n.name ≢ some x
    → Unnamed x (t ++ (n ∷ []))
Unnamed-append x [] n h b = (b, tt)
Unnamed-append x (m ∷ t) n (h, hs) b = (h, Unnamed-append x t n hs b)

pub NamesApart-append :
    (t : List Node) (n : Node)
    → NamesApart t
    → ((x : Name) → n.name ≡ some x → Unnamed x t)
    → NamesApart (t ++ (n ∷ []))
NamesApart-append [] n h b = ((λ x e. tt), tt)
NamesApart-append (m ∷ t) n (h, hs) b = (
  λ x e. Unnamed-append x t n (h x e) (λ f. (b x f).0 e),
  NamesApart-append t n hs (λ x e. (b x e).1),
)

Before-new :
    (x : Name) (m : Option Name) → Before x.device (rank x.channel_type) x.index m → m ≢ some x
Before-new x none b e = cc
Before-new x (some m) (inl b) e =
    let f = ap {B = ℕ} (λ o. elim o [ none ↦ 0 | some y ↦ y.device ]) e in omega (arith, b, f)
Before-new x (some m) (inr (d, inl b)) e =
    let f = ap {B = ℕ} (λ o. elim o [ none ↦ 0 | some y ↦ rank y.channel_type ]) e in
    omega (arith, b, f)
Before-new x (some m) (inr (d, inr (k, b))) e =
    let f = ap {B = ℕ} (λ o. elim o [ none ↦ 0 | some y ↦ y.index ]) e in omega (arith, b, f)

pub Unnamed-new :
    (x : Name) (t : List Node) → AllBefore x.device (rank x.channel_type) x.index t → Unnamed x t
Unnamed-new x [] h = tt
Unnamed-new x (n ∷ t) (h, hs) = (Before-new x n.name h, Unnamed-new x t hs)

pub Before-later : (d k i : ℕ) (m : Option Name) → Before d k i m → Before d k (suc i) m
Before-later d k i none h = tt
Before-later d k i (some m) (inl h) = inl h
Before-later d k i (some m) (inr (e, inl h)) = inr (e, inl h)
Before-later d k i (some m) (inr (e, inr (f, h))) = inr (e, inr (f, omega (arith, h)))

pub the_same : {A : Type 0} (x y : A) → some x ≡ some y → x ≡ y
the_same {A} x y e = ap {B = A} (λ o. elim o [ none ↦ x | some z ↦ z ]) e
