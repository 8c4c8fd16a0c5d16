-- ===== src/Models/Enum.antt =====
-- backend/internal/models/enum.go. A Go enumeration of the package is a string type, so its values
-- are byte strings and its members a list of them.
use flow_cast.Base.{
  Bool, true, false, ◌≡◌, refl, ◌↔◌, inl, inr, List, [], ◌∷◌, Text, text_eq, text_eq_iff,
  if◌then◌else◌, Result, ok, err, OneOf, arith, Bool-cases,
}

pub record InvalidEnumError : Type 0 where
  pub kind : Text
  pub value : Text
  pub allowed : List Text

unfoldable pub valid_enum : Text → List Text → Bool
valid_enum v [] = false
valid_enum v (a ∷ allowed) = if text_eq v a then true else valid_enum v allowed

-- The conversions between a string and a string type change nothing.
abbrev pub enum_strings : List Text → List Text
enum_strings [] = []
enum_strings (v ∷ values) = v ∷ enum_strings values

unfoldable pub parse_enum : Text → Text → List Text → Result InvalidEnumError Text
parse_enum raw kind allowed =
    if valid_enum raw allowed
    then ok raw
    else err (record { kind = kind; value = raw; allowed = enum_strings allowed })

pub valid_enum_iff :
    (v : Text) (allowed : List Text) → (valid_enum v allowed ≡ true) ↔ OneOf v allowed
unfolding valid_enum
valid_enum_iff v [] = (λ h. cc, λ h. absurd h)
valid_enum_iff v (a ∷ allowed) = ground (arith, text_eq_iff v a, valid_enum_iff v allowed)

enum_strings_lem : (values : List Text) → enum_strings values ≡ values
enum_strings_lem [] = refl
enum_strings_lem (v ∷ values) = cc (enum_strings_lem values)

-- parse_enum gives back exactly the allowed spellings, unchanged. Anything else is an error that
-- repeats the kind and the value and names all the alternatives.
pub parse_enum_lem :
    (raw kind : Text) (allowed : List Text)
    → (OneOf raw allowed → parse_enum raw kind allowed ≡ ok raw)
      × (¬ (OneOf raw allowed)
          → parse_enum raw kind allowed
            ≡ err (record { kind = kind; value = raw; allowed = allowed }))
unfolding parse_enum
parse_enum_lem raw kind allowed =
    let iff = valid_enum_iff raw allowed in
    elim (Bool-cases (valid_enum raw allowed)) [
      | inl yes' ↦ (λ _. rw yes', λ h. absurd (h (iff.0 yes')))
      | inr no' ↦ (λ h. cc (iff.1 h), λ _. rw (no', enum_strings_lem allowed))
    ]
