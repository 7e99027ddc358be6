-- ===== src/Tools/Mailbox.antt =====
-- The option -u of tools/cansend, tools/candump and tools/canread.
use dev_can_linux.Base.{
  ℕ, ◌≡◌, refl, sym, ap, ◌∙◌, some, List, [], ◌∷◌, drop, take, arith, inl, inr, Option-cases,
}
use dev_can_linux.Tools.{Opened, channel_name, scan_int, open_option}

drop-take : (text : List ℕ) → drop 2 (take 2 text) ≡ []
drop-take [] = refl
drop-take (a ∷ []) = refl
drop-take (a ∷ b ∷ text) = refl

-- Whatever stands behind the comma of -u, the number of the mailbox is not read: where the option is
-- taken, the mailbox is the one from before, which is 0 at the start, and the unit is the one given.
pub open_option-mailbox :
    (unit : ℕ) (text : List ℕ) (s t : Opened)
    → open_option unit text s ≡ some t
    → (t.mailbox ≡ s.mailbox) × (t.unit ≡ unit) × (channel_name (take 2 text) ≡ some t.is_tx)
unfolding open_option scan_int
open_option-mailbox unit text s t h = elim (Option-cases (channel_name (take 2 text))) [
  | inl e ↦ absurd (ground arith)
  | inr (is_tx, e) ↦
      let found : Opened = record { unit = unit; is_tx = is_tx; mailbox = s.mailbox } in
      let opened : open_option unit text s ≡ some found = simp (open_option, e, drop-take text) in
      let same : found ≡ t = cc in
      (ap (λ o. o.mailbox) (sym same), ap (λ o. o.unit) (sym same), e ∙ ap (λ o. some o.is_tx) same)
]
