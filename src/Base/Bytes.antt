-- ===== src/Base/Bytes.antt =====
-- A Go string is a sequence of bytes. `bytes` writes a literal of the source, which is ASCII; it
-- stays shut in proofs, where a literal is a constant.
use Prim.Native.Nat.{ℕ}
use Prim.Native.Char.{code}
use Prim.Native.String.{String}
use mathlib.Core.Path.{◌≡◌, refl}
use mathlib.Core.Logic.{◌↔◌, ◌≢◌, ◌⊎◌, inl, inr}
use mathlib.Core.Bool.{Bool, true, false, ◌&&◌}
use mathlib.Core.List.{List, [], ◌∷◌}
use native.Mathlib.Omega.{arith}
use flow_cast.Base.Tests.{ltb, ◌==◌, if◌then◌else◌}

abbrev pub Text : Type 0
Text = List ℕ

codes : String → Text
codes String.[] = []
codes (String.◌∷◌ c s) = code c ∷ codes s

unfoldable pub bytes : String → Text
unfolding codes
bytes s = codes s

-- s == t
unfoldable pub text_eq : Text → Text → Bool
text_eq [] [] = true
text_eq [] (b ∷ t) = false
text_eq (a ∷ s) [] = false
text_eq (a ∷ s) (b ∷ t) = (a == b) && text_eq s t

pub text_eq_iff : (s t : Text) → (text_eq s t ≡ true) ↔ (s ≡ t)
unfolding text_eq
text_eq_iff [] [] = (λ _. refl, λ _. refl)
text_eq_iff [] (b ∷ t) = (λ h. cc, λ h. cc)
text_eq_iff (a ∷ s) [] = (λ h. cc, λ h. cc)
text_eq_iff (a ∷ s) (b ∷ t) = ground (arith, text_eq_iff s t)

pub text_eq_refl : (s : Text) → text_eq s s ≡ true
text_eq_refl s = (text_eq_iff s s).1 refl

-- s == ""
abbrev pub is_empty : Text → Bool
is_empty [] = true
is_empty (b ∷ s) = false

-- s < t, byte by byte.
unfoldable pub text_ltb : Text → Text → Bool
text_ltb s [] = false
text_ltb [] (b ∷ t) = true
text_ltb (a ∷ s) (b ∷ t) = if a == b then text_ltb s t else ltb a b

pub text_ltb_asym : (s t : Text) → text_ltb s t ≡ true → text_ltb t s ≡ false
unfolding text_ltb
text_ltb_asym [] [] h = cc
text_ltb_asym [] (b ∷ t) h = refl
text_ltb_asym (a ∷ s) [] h = cc
text_ltb_asym (a ∷ s) (b ∷ t) h = ground (arith, text_ltb_asym s t)

-- Any text is above the lower or below the upper of two ordered texts.
pub text_ltb_split :
    (s t u : Text) → text_ltb s u ≡ true → (text_ltb s t ≡ true) ⊎ (text_ltb t u ≡ true)
unfolding text_ltb
text_ltb_split s t [] h = absurd (ground arith)
text_ltb_split [] [] (c ∷ u) h = inr refl
text_ltb_split [] (b ∷ t) (c ∷ u) h = inl refl
text_ltb_split (a ∷ s) [] (c ∷ u) h = inr refl
text_ltb_split (a ∷ s) (b ∷ t) (c ∷ u) h = ground (arith, text_ltb_split s t u)

pub text_ltb_total : (s t : Text) → s ≢ t → (text_ltb s t ≡ true) ⊎ (text_ltb t s ≡ true)
unfolding text_ltb
text_ltb_total [] [] h = absurd (h refl)
text_ltb_total [] (b ∷ t) h = inl refl
text_ltb_total (a ∷ s) [] h = inr refl
text_ltb_total (a ∷ s) (b ∷ t) h = ground (arith, text_ltb_total s t)
