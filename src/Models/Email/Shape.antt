-- ===== src/Models/Email/Shape.antt =====
-- The shape that ValidEmail of backend/internal/models/identity.go tests, stated on the bytes.
use flow_cast.Base.{
  Text, length, drop, length-append, ℕ, suc, ◌+◌, ◌<◌, ◌≡◌, refl, sym, ap, ◌∙◌, subst, ◌≢◌, ◌↔◌,
  inl, inr, true, Option, none, some, [], ◌∷◌, ◌++◌, arith,
}
use flow_cast.Strings.{range}
use flow_cast.Models.Email.{dot_inside, valid_domain, valid_at, find_at, valid_email}
use flow_cast.Models.Email.Scan.{
  Avoids, SplitAt, Found, absent, twice, once, find_at-append, find_at-range, find_at-Found,
  DotCases, last_dot-append, last_dot-range, last_dot-cases,
}

-- An address: a local part and a domain, and in the domain a last dot with something on either side.
pub record IsAddress (s : Text) : Type 0 where
  pub local : Text
  pub domain : Text
  pub split : SplitAt b'@' s local domain
  pub only : Avoids b'@' local
  pub host : Text
  pub top : Text
  pub domain_split : SplitAt b'.' domain host top
  pub local_given : local ≢ []
  pub host_given : host ≢ []
  pub top_given : top ≢ []

drop-append : (left right : Text) (c : ℕ) → drop (length left + 1) (left ++ c ∷ right) ≡ right
drop-append [] right c = refl
drop-append (b ∷ left) right c =
    let e : suc (length left) + 1 ≡ suc (length left + 1) = omega arith in
    subst (λ k. drop k (b ∷ left ++ c ∷ right) ≡ right) (sym e) (drop-append left right c)

length-split :
    {s : Text} (c : ℕ) (left right : Text)
    → s ≡ left ++ c ∷ right
    → length s ≡ length left + suc (length right)
length-split c left right e = ap length e ∙ length-append left (c ∷ right)

dot_inside_sound :
    (domain : Text) (o : Option ℕ)
    → DotCases none 0 domain o
    → dot_inside o domain ≡ true
    → (host : Text) × (top : Text) × SplitAt b'.' domain host top × (host ≢ []) × (top ≢ [])
dot_inside_sound domain o (inl (free, kept)) h = absurd (ground arith)
dot_inside_sound domain o (inr (host, top, (e, free), at)) h = (
  host,
  top,
  (e, free),
  λ empty. ground (arith, length-split b'.' host top e),
  λ empty. ground (arith, length-split b'.' host top e),
)

valid_domain_sound :
    (domain : Text)
    → valid_domain domain ≡ true
    → (host : Text) × (top : Text) × SplitAt b'.' domain host top × (host ≢ []) × (top ≢ [])
unfolding valid_domain
valid_domain_sound domain h =
    dot_inside_sound domain _ (last_dot-cases none 0 domain)
      (subst (λ o. dot_inside o domain ≡ true) (last_dot-range domain) h)

length_pos : (s : Text) → s ≢ [] → 0 < length s
length_pos [] h = absurd (h refl)
length_pos (b ∷ s) h = omega arith

valid_domain_complete :
    (host top : Text)
    → Avoids b'.' top
    → host ≢ []
    → top ≢ []
    → valid_domain (host ++ b'.' ∷ top) ≡ true
unfolding valid_domain
valid_domain_complete host top free h t = ground (
  arith,
  last_dot-range (host ++ b'.' ∷ top),
  last_dot-append none 0 host top free,
  length-append host (b'.' ∷ top),
  length_pos host h,
  length_pos top t,
)

valid_at-true :
    (at : ℕ) (s : Text)
    → valid_at (some (some at)) s ≡ true
    → (0 < at) × (valid_domain (drop (at + 1) s) ≡ true)
unfolding valid_at
valid_at-true at s h = ground arith

valid_at_inside :
    (at : ℕ) (s : Text)
    → 0 < at
    → at + 1 < length s
    → valid_at (some (some at)) s ≡ valid_domain (drop (at + 1) s)
unfolding valid_at
valid_at_inside at s h k = ground arith

once_sound :
    (at : ℕ) (s local domain : Text)
    → at ≡ length local
    → SplitAt b'@' s local domain
    → Avoids b'@' local
    → valid_at (some (some at)) s ≡ true
    → IsAddress s
once_sound at s local domain is_at (e, free) clear h =
    let (positive, inside) = valid_at-true at s h in
    let cut : drop (at + 1) s ≡ domain =
      subst (λ t. drop (at + 1) t ≡ domain) (sym e)
        (subst (λ k. drop (k + 1) (local ++ b'@' ∷ domain) ≡ domain) (sym is_at)
          (drop-append local domain b'@')) in
    let (host, top, split, host_given, top_given) =
      valid_domain_sound domain (subst (λ d. valid_domain d ≡ true) cut inside) in
    record {
      local = local;
      domain = domain;
      split = (e, free);
      only = clear;
      host = host;
      top = top;
      domain_split = split;
      local_given = λ empty. ground arith;
      host_given = host_given;
      top_given = top_given;
    }

once_complete :
    (local domain host top : Text)
    → local ≢ []
    → SplitAt b'.' domain host top
    → host ≢ []
    → top ≢ []
    → valid_at (some (some (length local))) (local ++ b'@' ∷ domain) ≡ true
once_complete local domain host top l (e, free) h t =
    let shorter : length local + 1 < length (local ++ b'@' ∷ domain) =
      omega (arith, length-append local (b'@' ∷ domain), length-split b'.' host top e) in
    let inside = valid_at_inside (length local) _ (length_pos local l) shorter in
    let valid =
      subst (λ d. valid_domain d ≡ true) (sym e) (valid_domain_complete host top free h t) in
    inside ∙ (ap valid_domain (drop-append local domain b'@') ∙ valid)

valid_at_sound :
    (s : Text) (o : Option (Option ℕ)) → Found 0 s o → valid_at o s ≡ true → IsAddress s
unfolding valid_at
valid_at_sound s _ absent h = absurd (ground arith)
valid_at_sound s _ twice h = absurd (ground arith)
valid_at_sound s _ (once local domain (e, free) clear) h =
    once_sound _ s local domain (omega arith) (e, free) clear h

-- ValidEmail accepts exactly the texts of the form local@host.top, where local and domain hold no
-- '@', top holds no dot, and local, host and top are not empty; the text is read as bytes, and need
-- not be valid UTF-8.
pub valid_email_iff : (s : Text) → (valid_email s ≡ true) ↔ IsAddress s
unfolding valid_email
valid_email_iff s = (
  λ h.
      valid_at_sound s _ (find_at-Found 0 s) (subst (λ o. valid_at o s ≡ true) (find_at-range s) h),
  λ a.
      let found = find_at-range _ ∙ find_at-append 0 a.local a.domain a.only a.split.1 in
      let from_start : 0 + length a.local ≡ length a.local = omega arith in
      let at_once =
        once_complete a.local a.domain a.host a.top a.local_given a.domain_split a.host_given
          a.top_given in
      subst (λ t. valid_at (find_at none (range t)) t ≡ true) (sym a.split.0)
        (ap (λ o. valid_at o (a.local ++ b'@' ∷ a.domain))
            (found ∙ ap (λ k. some (some k)) from_start)
          ∙ at_once),
)
