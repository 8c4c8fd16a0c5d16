-- ===== src/Handlers/Health/Report.antt =====
-- What the report of backend/internal/handlers/health.go says of the checks.
use mathlib.Core.List.{append-nil, append_assoc}
use flow_cast.Base.{
  ◌∙◌, Time, All-append, DistinctBy, sym, ap, ◌&&◌, Text, bytes, text_eq, text_eq_iff, All,
  if◌then◌else◌, ◌≡◌, refl, ◌≢◌, Bool, true, false, List, [], ◌∷◌, ◌++◌, map, arith,
}
use flow_cast.Handlers.Health.{
  ProbeEnd, probe_failed, probe_panicked, health_body, health_status, health_ok, health_degraded,
  probe_ok, ProbeRun, run_check, put_check, fill_body,
}
use flow_cast.Api.Payload.{CheckResult}
use flow_cast.Http.{status_ok, status_unavailable}

abbrev pub is_answered : ProbeEnd → Bool
is_answered probe_ok = true
is_answered probe_failed = false
is_answered probe_panicked = false

-- Every probe succeeded.
abbrev pub all_answered : List ProbeRun → Bool
all_answered [] = true
all_answered (c ∷ cs) = is_answered c.outcome && all_answered cs

-- The name of each check with its result.
abbrev pub by_name : List ProbeRun → List (Text × CheckResult)
by_name [] = []
by_name (c ∷ cs) = (c.name, run_check c) ∷ by_name cs

abbrev Unnamed : List (Text × CheckResult) → Text → Type 0
Unnamed listed name = All (λ (p : Text × CheckResult). p.0 ≢ name) listed

put_check-new :
    (name : Text) (r : CheckResult) (listed : List (Text × CheckResult))
    → Unnamed listed name
    → put_check name r listed ≡ listed ++ (name, r) ∷ []
unfolding put_check
put_check-new name r [] h = refl
put_check-new name r ((n, s) ∷ more) (ne, h) =
    ground (arith, text_eq_iff n name, put_check-new name r more h)

status_of :
    (outcome : ProbeEnd) (name : Text) (a b : Time)
    → text_eq
        (run_check (record { name = name; started = a; stopped = b; outcome = outcome })).status
        health_ok
      ≡ is_answered outcome
unfolding run_check text_eq bytes
status_of probe_ok name a b = refl
status_of probe_failed name a b = refl
status_of probe_panicked name a b = refl

if_both {ℓ} :
    {A : Type ℓ} (a b : Bool) (x y : A)
    → (if b then (if a then x else y) else y) ≡ (if a && b then x else y)
if_both true b x y = refl
if_both false true x y = refl
if_both false false x y = refl

-- The names that come are not listed yet, also once one of them is.
Unnamed-snoc :
    (c : ProbeRun) (cs : List ProbeRun) (listed : List (Text × CheckResult))
    → All (λ (d : ProbeRun). d.name ≢ c.name) cs
    → All (λ (d : ProbeRun). Unnamed listed d.name) cs
    → All (λ (d : ProbeRun). Unnamed (listed ++ (c.name, run_check c) ∷ []) d.name) cs
Unnamed-snoc c [] listed h k = tt
Unnamed-snoc c (d ∷ cs) listed (ne, h) (u, k) = (
  All-append (λ (p : Text × CheckResult). p.0 ≢ d.name) listed ((c.name, run_check c) ∷ []) u
      ((λ e. ne (sym e)), tt),
  Unnamed-snoc c cs listed h k,
)

module _ (version : Text) where
  fill_body_lem :
      (status : Text) (listed : List (Text × CheckResult)) (cs : List ProbeRun)
      → DistinctBy (λ (c : ProbeRun). c.name) cs
      → All (λ (c : ProbeRun). Unnamed listed c.name) cs
      → fill_body
          (record { status = status; version = version; checks = listed })
          cs
          (map run_check cs)
        ≡ record {
          status = if all_answered cs then status else health_degraded;
          version = version;
          checks = listed ++ by_name cs;
        }
  unfolding fill_body
  fill_body_lem status listed [] d h =
      ap (λ x. record { status = status; version = version; checks = x }) (sym (append-nil listed))
  fill_body_lem status listed (c ∷ cs) (apart, d) (fresh, h) =
      rw
        (
          put_check-new c.name (run_check c) listed fresh,
          fill_body_lem (if text_eq (run_check c).status health_ok then status else health_degraded)
              (listed ++ (c.name, run_check c) ∷ []) cs d (Unnamed-snoc c cs listed apart h),
          status_of c.outcome c.name c.started c.stopped,
          if_both (is_answered c.outcome) (all_answered cs) status health_degraded,
          append_assoc listed ((c.name, run_check c) ∷ []) (by_name cs),
        )
        refl

status_line :
    (b : Bool) (version : Text) (checks : List (Text × CheckResult))
    → health_status (record {
      status = if b then health_ok else health_degraded;
      version = version;
      checks = checks;
    })
      ≡ (if b then status_ok else status_unavailable)
unfolding health_status text_eq bytes
status_line true version checks = refl
status_line false version checks = refl

none-Unnamed : (cs : List ProbeRun) → All (λ (c : ProbeRun). Unnamed [] c.name) cs
none-Unnamed [] = tt
none-Unnamed (c ∷ cs) = (tt, none-Unnamed cs)

-- Where the checks have different names, the report lists each of them with its own result; it says
-- "ok" with the status 200 where every probe succeeded, and "degraded" with the status 503 where one
-- failed or panicked.
pub health_body_lem :
    (version : Text) (cs : List ProbeRun)
    → DistinctBy (λ (c : ProbeRun). c.name) cs
    → let body = health_body version cs (map run_check cs) in
      (body ≡ record {
        status = if all_answered cs then health_ok else health_degraded;
        version = version;
        checks = by_name cs;
      })
      × (health_status body ≡ (if all_answered cs then status_ok else status_unavailable))
unfolding health_body
health_body_lem version cs d =
    let body = fill_body_lem version health_ok [] cs d (none-Unnamed cs) in
    (body, ap health_status body ∙ status_line (all_answered cs) version (by_name cs))
