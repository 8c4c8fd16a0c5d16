-- ===== src/Auth/Password.antt =====
-- backend/internal/auth/password.go. golang.org/x/crypto/bcrypt is a parameter.
pub mod Laws
use flow_cast.Base.{
  Text, bytes, is_empty, show_nat, ltb_ℤ, ℤ, length, Result, ltb, if◌then◌else◌, ℕ, ◌≤◌, ◌≡◌, ◌||◌,
  Option, none, some, List, [], ◌∷◌, ◌++◌, ok, err,
}
use flow_cast.Strings.{rune_count}
use flow_cast.Models.Issues.{FieldIssue, ValidationError}

abbrev pub min_password_length : ℕ
min_password_length = 12

abbrev pub max_password_bytes : ℕ
max_password_bytes = 72

-- What CompareHashAndPassword answers.
pub data Comparison : Type 0 where
  same mismatched unusable_hash : Comparison

-- GenerateFromPassword takes its salt from the system; none is its error. What it makes of a password
-- of at most 72 bytes compares as the same with that password.
pub record Bcrypt : Type 0 where
  pub min_cost : ℤ
  pub max_cost : ℤ
  pub generate : ℕ → Text → ℤ → Option Text
  pub compare_hash : Text → Text → Comparison
  pub generate-compare_hash :
      (salt : ℕ) (plain : Text) (cost : ℤ) (hash : Text)
      → length plain ≤ max_password_bytes
      → generate salt plain cost ≡ some hash
      → compare_hash hash plain ≡ same

pub record Hasher : Type 0 where
  pub cost : ℤ
  pub dummy_hash : Text

pub data HasherError : Type 0 where
  cost_out_of_range preparing : HasherError

pub data HashError : Type 0 where
  invalid_password : ValidationError → HashError
  hashing : HashError

pub data VerifyError : Type 0 where
  invalid_credentials comparing : VerifyError

abbrev password_issue : Text → FieldIssue
password_issue message = record { field = bytes "password"; message = message }

-- The switch, on an empty or a short password.
pub length_issues : Text → List FieldIssue
length_issues plain =
    if is_empty plain
    then password_issue (bytes "is required") ∷ []
    else if ltb (rune_count plain) min_password_length
    then password_issue
        (bytes "must be at least " ++ (show_nat min_password_length ++ bytes " characters"))
      ∷ []
    else []

pub size_issues : Text → List FieldIssue
size_issues plain =
    if ltb max_password_bytes (length plain)
    then password_issue
        (bytes "must be at most " ++ (show_nat max_password_bytes ++ bytes " bytes"))
      ∷ []
    else []

unfoldable pub validate_password : Text → Option ValidationError
unfolding length_issues size_issues
validate_password plain = elim (length_issues plain ++ size_issues plain) [
  | [] ↦ none
  | i ∷ is ↦ some (record { issues = i ∷ is })
]

module _ (bcrypt : Bcrypt) where
  unfoldable pub new_hasher : ℕ → ℤ → Result HasherError Hasher
  new_hasher salt cost =
      if ltb_ℤ cost bcrypt.min_cost || ltb_ℤ bcrypt.max_cost cost
      then err cost_out_of_range
      else elim (bcrypt.generate salt (bytes "flowcast-timing-equalizer") cost) [
        | none ↦ err preparing
        | some dummy ↦ ok (record { cost = cost; dummy_hash = dummy })
      ]

  unfoldable pub hash : ℕ → Hasher → Text → Result HashError Text
  hash salt h plain = elim (validate_password plain) [
    | some e ↦ err (invalid_password e)
    | none ↦ elim (bcrypt.generate salt plain h.cost) [ none ↦ err hashing | some t ↦ ok t ]
  ]

  -- nil is none.
  unfoldable pub verify : Text → Text → Option VerifyError
  verify stored plain = elim (bcrypt.compare_hash stored plain) [
    | same ↦ none
    | mismatched ↦ some invalid_credentials
    | unusable_hash ↦ some comparing
  ]

-- What a comparison of VerifyDummy compares; it is made for its time alone, and its answer dropped.
abbrev pub dummy_comparison : Hasher → Text × Text
dummy_comparison h = (h.dummy_hash, bytes "not-the-password")

unfoldable pub verify_dummy : Hasher → VerifyError
verify_dummy h = invalid_credentials
