-- ===== src/Config/Errors/Order.antt =====
-- The text of the problems of backend/internal/config/errors.go, whatever their order.
use flow_cast.Base.{
  Text, text_eq, text_eq_iff, text_ltb, text_ltb_asym, text_ltb_split, text_ltb_total, length,
  Bool-cases, ◌≡◌, refl, ◌⊎◌, inl, inr, [], ◌∷◌, arith,
}
use mathlib.Core.List.{Perm, Permᴰ}
use mathlib.Core.List.Perm
use flow_cast.Config.Errors.{problem_lines, problems_text}
use flow_cast.Models.Sort.{sort_slice}
use flow_cast.Models.Sort.Laws.{IsOrder, Apart}
use flow_cast.Models.Sort.Members.{sort_slice-perm_linear}
use mathlib.Core.Logic.{∥∥₁_elim}
use native.Mathlib.Nat.{ℕ_set}
use flow_cast.Config.Reader.{Problems}

text_ltb-IsOrder : IsOrder text_ltb
text_ltb-IsOrder = record { asym = text_ltb_asym; split = λ x y z. text_ltb_split x y z }

Text-set : IsSet Text
Text-set = hlevel

text_ltb_linear : (s t : Text) → (s ≡ t) ⊎ Apart text_ltb s t
text_ltb_linear s t = elim (Bool-cases (text_eq s t)) [
  | inl e ↦ inl ((text_eq_iff s t).0 e)
  | inr ne ↦ inr (text_ltb_total s t (λ h. ground (arith, text_eq_iff s t)))
]

length-permᴰ : {xs ys : Problems} → Permᴰ xs ys → length xs ≡ length ys
length-permᴰ Permᴰ.nil = refl
length-permᴰ (Permᴰ.cons e p) = omega (arith, length-permᴰ p)
length-permᴰ (Permᴰ.swap e f) = refl
length-permᴰ (Permᴰ.trans p q) = omega (arith, length-permᴰ p, length-permᴰ q)

length-perm : (xs ys : Problems) → Perm xs ys → length xs ≡ length ys
length-perm xs ys p = ∥∥₁_elim p (ℕ_set _ _) length-permᴰ

lines-perm :
    (fs gs : Problems)
    → Perm fs gs
    → sort_slice text_ltb (problem_lines fs) ≡ sort_slice text_ltb (problem_lines gs)
lines-perm fs gs p =
    sort_slice-perm_linear text_ltb-IsOrder text_ltb_linear Text-set (problem_lines fs)
      (problem_lines gs) (Perm.map _ p)

-- The text of a configuration's error does not depend on the order in which the checks found the
-- problems.
pub problems_text-perm : (fs gs : Problems) → Perm fs gs → problems_text fs ≡ problems_text gs
unfolding problems_text
problems_text-perm [] [] p = refl
problems_text-perm [] (g ∷ gs) p = absurd (omega (arith, length-perm [] (g ∷ gs) p))
problems_text-perm (f ∷ fs) [] p = absurd (omega (arith, length-perm (f ∷ fs) [] p))
problems_text-perm (f ∷ fs) (g ∷ gs) p =
    let same_lines = lines-perm (f ∷ fs) (g ∷ gs) p in
    let same_number : length (f ∷ fs) ≡ length (g ∷ gs) = length-perm (f ∷ fs) (g ∷ gs) p in cc
