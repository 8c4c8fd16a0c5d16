-- ===== src/Models/Email.antt =====
-- ValidEmail of backend/internal/models/identity.go. An index that may be -1 is an option.
mod Scan
pub mod Shape
use flow_cast.Base.{
  Text, bytes, length, drop, ltb, ◌==◌, if◌then◌else◌, ℕ, ◌+◌, ◌-◌, ◌<◌, ◌≡◌, refl, Bool, true,
  false, ◌&&◌, ◌||◌, Option, none, some, List, [], ◌∷◌,
}
use flow_cast.Strings.{range}

-- The first loop: the index of the one '@', or no answer at all where there are two.
pub find_at : Option ℕ → List (ℕ × ℕ) → Option (Option ℕ)
find_at at [] = some at
find_at at ((i, r) ∷ rs) = elim (r == b'@') [
  | true ↦ elim at [ none ↦ find_at (some i) rs | some _ ↦ none ]
  | false ↦ find_at at rs
]

-- The second loop: the index of the last '.'.
pub last_dot : Option ℕ → List (ℕ × ℕ) → Option ℕ
last_dot dot [] = dot
last_dot dot ((i, r) ∷ rs) = last_dot (if r == b'.' then some i else dot) rs

-- dot > 0 && dot < len(domain)-1
abbrev pub dot_inside : Option ℕ → Text → Bool
dot_inside none domain = false
dot_inside (some dot) domain = ltb 0 dot && ltb dot (length domain - 1)

pub valid_domain : Text → Bool
unfolding last_dot
valid_domain domain = dot_inside (last_dot none (range domain)) domain

-- at <= 0 || at == len(s)-1 is an early return.
pub valid_at : Option (Option ℕ) → Text → Bool
unfolding valid_domain
valid_at none s = false
valid_at (some none) s = false
valid_at (some (some at)) s =
    if at == 0 || at == length s - 1 then false else valid_domain (drop (at + 1) s)

unfoldable pub valid_email : Text → Bool
unfolding find_at valid_at
valid_email s = valid_at (find_at none (range s)) s

valid_email_tests :
    (valid_email (bytes "ada@example.com") ≡ true)
    × (valid_email (bytes "a@b@c.d") ≡ false)
    × (valid_email (bytes "ada@example.") ≡ false)
    × (valid_email (0xC3 ∷ 0xA9 ∷ bytes "@x.y") ≡ true)
unfolding valid_email bytes range
valid_email_tests = (refl, refl, refl, refl)
