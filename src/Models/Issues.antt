-- ===== src/Models/Issues.antt =====
-- backend/internal/models/errors.go: field issues, the validation error, and the validator that
-- collects the issues of a struct. A method on the validator returns the changed validator.
pub mod Clean
use flow_cast.Base.{
  ℕ, Bool, true, false, Option, none, some, List, [], ◌∷◌, ◌++◌, map, Text, bytes, ltb, is_empty,
  length, if◌then◌else◌, not, join, show_nat,
}
use flow_cast.Strings.{trim_space}
use flow_cast.Models.Enum.{valid_enum, enum_strings}

pub record FieldIssue : Type 0 where
  pub field : Text
  pub message : Text

-- FieldIssue.String
pub issue_string : FieldIssue → Text
issue_string f = f.field ++ (bytes " " ++ f.message)

pub record ValidationError : Type 0 where
  pub issues : List FieldIssue

-- ValidationError.Error
unfoldable pub error_text : ValidationError → Text
unfolding issue_string
error_text e = bytes "validation failed: " ++ join (map issue_string e.issues) (bytes "; ")

pub record Validator : Type 0 where
  pub issues : List FieldIssue

-- &validator{}
abbrev pub no_issues : Validator
no_issues = record { issues = [] }

unfoldable pub add : Validator → Text → Text → Validator
add v field message = record {
  issues = v.issues ++ record { field = field; message = message } ∷ [];
}

-- if problem { v.add(field, message) }
unfoldable pub add_if : Bool → Validator → Text → Text → Validator
unfolding add
add_if problem v field message = if problem then add v field message else v

unfoldable pub require : Validator → Text → Text → Validator × Text
unfolding add
require v field value =
    let trimmed = trim_space value in
    if is_empty trimmed then (add v field (bytes "is required"), trimmed) else (v, trimmed)

unfoldable pub max_len : Validator → Text → Text → ℕ → Validator
unfolding add_if
max_len v field value max =
    add_if (ltb max (length value)) v field
      (bytes "must be at most " ++ (show_nat max ++ bytes " characters"))

unfoldable pub enum_field : Validator → Text → Text → List Text → Validator
unfolding add_if
enum_field v field value allowed =
    add_if (not (valid_enum value allowed)) v field
      (bytes "must be one of " ++ join (enum_strings allowed) (bytes ", "))

-- validator.err: nil when nothing was recorded.
unfoldable pub err_of : Validator → Option ValidationError
err_of v = elim v.issues [ [] ↦ none | _ ↦ some (record { issues = v.issues }) ]
