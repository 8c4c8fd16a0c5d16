-- ===== src/Middleware/Cors.antt =====
-- backend/internal/middleware/cors.go: the options that the middleware of github.com/go-chi/cors gets.
use flow_cast.Base.{Text, bytes, text_eq, ℤ, pos, Bool, false, not, ◌||◌, List, [], ◌∷◌}

pub record CorsOptions : Type 0 where
  pub allowed_origins : List Text
  pub allowed_methods : List Text
  pub allowed_headers : List Text
  pub exposed_headers : List Text
  pub allow_credentials : Bool
  pub max_age : ℤ

abbrev pub cors_max_age_seconds : ℤ
cors_max_age_seconds = pos 300

-- slices.Contains
unfoldable pub contains_text : List Text → Text → Bool
contains_text [] t = false
contains_text (s ∷ ss) t = text_eq s t || contains_text ss t

unfoldable pub cors_options : List Text → CorsOptions
unfolding contains_text
cors_options allowed_origins = record {
  allowed_origins = allowed_origins;
  allowed_methods =
      bytes "GET"
      ∷ bytes "POST"
      ∷ bytes "PATCH"
      ∷ bytes "PUT"
      ∷ bytes "DELETE"
      ∷ bytes "OPTIONS"
      ∷ [];
  allowed_headers =
      bytes "Accept" ∷ bytes "Authorization" ∷ bytes "Content-Type" ∷ bytes "X-Request-ID" ∷ [];
  exposed_headers = bytes "X-Request-ID" ∷ [];
  allow_credentials = not (contains_text allowed_origins (bytes "*"));
  max_age = cors_max_age_seconds;
}
