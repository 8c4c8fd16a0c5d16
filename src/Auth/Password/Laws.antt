-- ===== src/Auth/Password/Laws.antt =====
-- The password policy and the hashes of backend/internal/auth/password.go.
use flow_cast.Base.{Text, length, ℕ, ◌≤◌, ◌≡◌, refl, ◌↔◌, none, some, [], ◌∷◌, arith, ok, err}
use flow_cast.Strings.{rune_count}
use flow_cast.Auth.Password.{
  ValidationError, Bcrypt, Hasher, invalid_password, min_password_length, max_password_bytes,
  length_issues, size_issues, validate_password, hash, verify,
}

rune_count-nil : rune_count [] ≡ 0
unfolding rune_count
rune_count-nil = refl

-- ValidatePassword reports no error exactly if the password has at least 12 characters and at most
-- 72 bytes.
pub validate_password_iff :
    (plain : Text)
    → (validate_password plain ≡ none)
      ↔ ((min_password_length ≤ rune_count plain) × (length plain ≤ max_password_bytes))
unfolding validate_password length_issues size_issues
validate_password_iff [] = ground (arith, rune_count-nil)
validate_password_iff (b ∷ s) = ground arith

hashed_verifies :
    (bcrypt : Bcrypt) (salt : ℕ) (h : Hasher) (plain hashed : Text)
    → hash bcrypt salt h plain ≡ ok hashed
    → verify bcrypt hashed plain ≡ none
unfolding hash verify
hashed_verifies bcrypt salt h plain hashed e =
    let made : bcrypt.generate salt plain h.cost ≡ some hashed = ground arith in
    let valid : validate_password plain ≡ none = ground arith in
    let matches =
      bcrypt.generate-compare_hash salt plain h.cost hashed
        ((validate_password_iff plain).0 valid).1 made in
    rw (matches, verify)

pub hash-good :
    (bcrypt : Bcrypt) (salt : ℕ) (h : Hasher) (plain hashed : Text)
    → validate_password plain ≡ none
    → bcrypt.generate salt plain h.cost ≡ some hashed
    → hash bcrypt salt h plain ≡ ok hashed
unfolding hash
hash-good bcrypt salt h plain hashed good made = rw (hash, good, made)

-- A hash that Hash returns verifies with its password, whatever the salt and the cost; Hash returns
-- none for a password that the policy rejects, but the policy's error.
pub hash-verify :
    (bcrypt : Bcrypt) (salt : ℕ) (h : Hasher) (plain : Text)
    → ((hashed : Text) → hash bcrypt salt h plain ≡ ok hashed → verify bcrypt hashed plain ≡ none)
      × ((e : ValidationError)
          → validate_password plain ≡ some e
          → hash bcrypt salt h plain ≡ err (invalid_password e))
unfolding hash verify
hash-verify bcrypt salt h plain =
    (λ hashed e. hashed_verifies bcrypt salt h plain hashed e, λ e p. rw (p, hash))
