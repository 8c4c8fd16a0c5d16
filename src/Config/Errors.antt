-- ===== src/Config/Errors.antt =====
-- backend/internal/config/errors.go: how the problems of a configuration are printed, and the variables
-- that they name. sort.Strings is sort_slice by bytes.
pub mod Named
pub mod Order
use flow_cast.Base.{
  map, join, Text, bytes, text_eq, text_ltb, show_nat, length, if◌then◌else◌, ◌-◌, Bool, false,
  ◌||◌, List, [], ◌∷◌, ◌++◌,
}
use flow_cast.Config.Reader.{FieldError, Problems}
use flow_cast.Models.Sort.{sort_slice}

-- FieldError.Error
unfoldable pub field_error_text : FieldError → Text
field_error_text e = e.variable ++ bytes " " ++ e.message

abbrev pub problem_lines : Problems → List Text
problem_lines fs = map (λ f. bytes "  - " ++ field_error_text f) fs

-- ValidationError.Error
unfoldable pub problems_text : Problems → Text
unfolding field_error_text
problems_text [] = bytes "invalid configuration"
problems_text (f ∷ fs) =
    bytes "invalid configuration ("
    ++ show_nat (length (f ∷ fs))
    ++ bytes " problem(s)):\n"
    ++ join (sort_slice text_ltb (problem_lines (f ∷ fs))) (bytes "\n")

unfoldable pub is_seen : Text → List Text → Bool
is_seen v [] = false
is_seen v (s ∷ seen) = text_eq s v || is_seen v seen

-- The loop of Variables, with the names that it has seen.
unfoldable pub first_mentions : List Text → Problems → List Text
unfolding is_seen
first_mentions seen [] = []
first_mentions seen (f ∷ fs) =
    let later = first_mentions seen fs in
    let later_fresh = first_mentions (f.variable ∷ seen) fs in
    if is_seen f.variable seen then later else f.variable ∷ later_fresh

unfoldable pub variables : Problems → List Text
unfolding first_mentions
variables fs = sort_slice text_ltb (first_mentions [] fs)
