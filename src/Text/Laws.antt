-- ===== src/Text/Laws.antt =====
-- Laws of the text functions.
use true_dns.Base.{
  ◌≡◌, ◌↔◌, ◌⊎◌, inl, inr, refl, sym, ap, ◌∙◌, true, false, [], ◌∷◌, arith, ℕ, Bool-cases,
}
use true_dns.Text.Defs.{
  Bytes, bytes_eq, to_lower, trim_left, trim_right, trim_cons, trim_space, lower_byte, is_space,
}

pub bytes_eq_iff : (s t : Bytes) → (bytes_eq s t ≡ true) ↔ (s ≡ t)
unfolding bytes_eq
bytes_eq_iff (x ∷ s) (y ∷ t) = ground (arith, bytes_eq_iff s t)
bytes_eq_iff _ _ = ground arith

pub to_lower_idem : (s : Bytes) → to_lower (to_lower s) ≡ to_lower s
unfolding to_lower
to_lower_idem [] = refl
to_lower_idem (c ∷ s) = ground (arith, to_lower_idem s)

trim_left-to_lower : (s : Bytes) → trim_left (to_lower s) ≡ to_lower (trim_left s)
unfolding trim_left to_lower
trim_left-to_lower [] = refl
trim_left-to_lower (c ∷ s) = ground (arith, trim_left-to_lower s)

trim_cons-to_lower :
    (c : ℕ) (s : Bytes) → trim_cons (lower_byte c) (to_lower s) ≡ to_lower (trim_cons c s)
unfolding to_lower
trim_cons-to_lower c [] = ground arith
trim_cons-to_lower c (d ∷ s) = refl

trim_right-to_lower : (s : Bytes) → trim_right (to_lower s) ≡ to_lower (trim_right s)
unfolding trim_right to_lower
trim_right-to_lower [] = refl
trim_right-to_lower (c ∷ s) =
    ground (arith, trim_right-to_lower s, trim_cons-to_lower c (trim_right s))

pub trim_space-to_lower : (s : Bytes) → trim_space (to_lower s) ≡ to_lower (trim_space s)
unfolding trim_space
trim_space-to_lower s = ground (arith, trim_left-to_lower s, trim_right-to_lower (trim_left s))

-- Trimming twice is trimming once.
trim_left_first : (c : ℕ) (s : Bytes) → is_space c ≡ false → trim_left (c ∷ s) ≡ c ∷ s
unfolding trim_left
trim_left_first c s h = ground arith

trim_left_head :
    (s : Bytes)
    → (trim_left s ≡ []) ⊎ ((c : ℕ) × (t : Bytes) × (trim_left s ≡ c ∷ t) × (is_space c ≡ false))
unfolding trim_left
trim_left_head [] = inl refl
trim_left_head (c ∷ s) = elim (Bool-cases (is_space c)) [
  | inl b ↦ rw b (trim_left_head s)
  | inr b ↦ inr (c, s, rw b, b)
]

trim_right_idem : (s : Bytes) → trim_right (trim_right s) ≡ trim_right s
unfolding trim_right
trim_right_idem [] = refl
trim_right_idem (c ∷ s) = step (trim_right s) (trim_right_idem s)
  where
    step : (t : Bytes) → trim_right t ≡ t → trim_right (trim_cons c t) ≡ trim_cons c t
    step [] h = ground arith
    step (d ∷ t) h = rw h

trim_right_head :
    (c : ℕ) (s : Bytes) → is_space c ≡ false → (t : Bytes) × (trim_right (c ∷ s) ≡ c ∷ t)
unfolding trim_right
trim_right_head c s h = step (trim_right s)
  where
    step : (u : Bytes) → (t : Bytes) × (trim_cons c u ≡ c ∷ t)
    step [] = ([], ground arith)
    step (d ∷ u) = (d ∷ u, refl)

pub trim_space_idem : (s : Bytes) → trim_space (trim_space s) ≡ trim_space s
unfolding trim_space
trim_space_idem s = elim (trim_left_head s) [
  | inl e ↦ rw e (unfold trim_right trim_left in refl)
  | inr (c, t, e, b) ↦
      let (u, f) = trim_right_head c t b in
      let g : trim_right (trim_left s) ≡ c ∷ u = ap trim_right e ∙ f in
      ap trim_right (ap trim_left g ∙ trim_left_first c u b ∙ sym g) ∙ trim_right_idem (trim_left s)
]
