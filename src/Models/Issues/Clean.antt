-- ===== src/Models/Issues/Clean.antt =====
-- When a validator of backend/internal/models/errors.go stays without issues.
use flow_cast.Base.{
  some, ℕ, Bool, true, false, ◌≡◌, ◌≢◌, ◌≤◌, ◌↔◌, refl, none, List, [], Text, bytes, ltb, length,
  not, append-ne-nil, arith, OneOf,
}
use flow_cast.Strings.{trim_space}
use flow_cast.Models.Enum.{valid_enum, valid_enum_iff}
use flow_cast.Models.Issues.{
  ValidationError, Validator, add, add_if, require, max_len, enum_field, err_of,
}

abbrev pub Clean : Validator → Type 0
Clean v = v.issues ≡ []

pub add-not-Clean : (v : Validator) (field message : Text) → ¬ Clean (add v field message)
unfolding add
add-not-Clean v field message h = append-ne-nil v.issues _ h

pub add_if-Clean :
    (b : Bool) (v : Validator) (field message : Text)
    → Clean (add_if b v field message) ↔ (Clean v × (b ≡ false))
unfolding add_if
add_if-Clean true v field message = (λ h. absurd (add-not-Clean v field message h), λ h. cc h.1)
add_if-Clean false v field message = (λ h. (h, refl), λ h. h.0)

pub require-Clean :
    (v : Validator) (field value : Text)
    → Clean (require v field value).0 ↔ (Clean v × (trim_space value ≢ []))
unfolding require
require-Clean v field value = ground (arith, add-not-Clean v field (bytes "is required"))

pub require-trimmed :
    (v : Validator) (field value : Text) → (require v field value).1 ≡ trim_space value
unfolding require
require-trimmed v field value = ground arith

-- The check as it stands in the code, with `add_if` shut.
max_len-Clean_if :
    (v : Validator) (field value message : Text) (max : ℕ)
    → Clean (add_if (ltb max (length value)) v field message) ↔ (Clean v × (length value ≤ max))
max_len-Clean_if v field value message max =
    ground (arith, add_if-Clean (ltb max (length value)) v field message)

pub max_len-Clean :
    (v : Validator) (field value : Text) (max : ℕ)
    → Clean (max_len v field value max) ↔ (Clean v × (length value ≤ max))
unfolding max_len
max_len-Clean v field value max = max_len-Clean_if v field value _ max

enum_field-Clean_if :
    (v : Validator) (field value message : Text) (allowed : List Text)
    → Clean (add_if (not (valid_enum value allowed)) v field message)
      ↔ (Clean v × OneOf value allowed)
enum_field-Clean_if v field value message allowed = ground (
  arith,
  add_if-Clean (not (valid_enum value allowed)) v field message,
  valid_enum_iff value allowed,
)

pub enum_field-Clean :
    (v : Validator) (field value : Text) (allowed : List Text)
    → Clean (enum_field v field value allowed) ↔ (Clean v × OneOf value allowed)
unfolding enum_field
enum_field-Clean v field value allowed = enum_field-Clean_if v field value _ allowed

pub err_of-Clean : (v : Validator) → (err_of v ≡ none) ↔ Clean v
unfolding err_of
err_of-Clean v = ground arith

-- A required text that is then measured.
pub required_max_len-Clean :
    (v : Validator) (field value : Text) (max : ℕ)
    → Clean (max_len (require v field value).0 field (require v field value).1 max)
      ↔ (Clean v × ((trim_space value ≢ []) × (length (trim_space value) ≤ max)))
required_max_len-Clean v field value max = ground (
  arith,
  max_len-Clean (require v field value).0 field (require v field value).1 max,
  require-Clean v field value,
  require-trimmed v field value,
)

-- A validation error has an issue.
pub err_of-issues : (v : Validator) (e : ValidationError) → err_of v ≡ some e → e.issues ≢ []
unfolding err_of
err_of-issues v e h empty = ground arith
