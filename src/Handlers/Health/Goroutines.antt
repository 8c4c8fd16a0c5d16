-- ===== src/Handlers/Health/Goroutines.antt =====
-- The goroutines of backend/internal/handlers/health.go: they end in any order.
use native.Mathlib.Decide.{ℕ_discrete}
use flow_cast.Base.{
  Text, OneOf, sym, ◌∙◌, subst, ◌⊎◌, inl, inr, some, arith, length, get_elem?, ℕ, suc, ◌≡◌, ap,
  Option, List, [], ◌∷◌, ◌++◌, map,
}
use flow_cast.Handlers.Health.{write_health, ProbeRun, empty_results, finish_check, run_check}
use flow_cast.Api.Payload.{Payload, CheckResult}
use flow_cast.Http.{Request}
use flow_cast.Handlers.Health.Slots.{
  OneOf-split, OneOf-indexes, length-empty_results, length-finish_check, finish_check_self,
  finish_check-ne, map_of_slots, indexes,
}

-- The results so far, and the indexes of the checks whose goroutine runs.
pub record Probing : Type 0 where
  pub results : List CheckResult
  pub running : List ℕ

-- A goroutine that runs ends, in whatever place it stands.
pub data Ends (checks : List ProbeRun) (p q : Probing) : Type 0 where
  ends_at :
      (ahead : List ℕ) (i : ℕ) (behind : List ℕ)
      → p.running ≡ ahead ++ i ∷ behind
      → q ≡ record { results = finish_check checks i p.results; running = ahead ++ behind }
      → Ends checks p q

pub data EndsAll (checks : List ProbeRun) (p : Probing) : ℕ → Probing → Type 0 where
  none_ended : EndsAll checks p 0 p
  one_more :
      {n : ℕ} {q r : Probing} → EndsAll checks p n q → Ends checks q r → EndsAll checks p (suc n) r

-- After the loop that starts the goroutines.
unfoldable pub started : List ProbeRun → Probing
unfolding empty_results indexes
started checks = record { results = empty_results checks; running = indexes 0 checks }

-- The slot of a check has its result, unless its goroutine runs.
abbrev HasSlot : List ProbeRun → Probing → ℕ → ProbeRun → Type 0
HasSlot checks p j c = OneOf j p.running ⊎ (get_elem? p.results j ≡ some (run_check c))

record Inv (checks : List ProbeRun) (p : Probing) : Type 0 where
  size : length p.results ≡ length checks
  slots : (j : ℕ) (c : ProbeRun) → get_elem? checks j ≡ some c → HasSlot checks p j c

started-Inv : (checks : List ProbeRun) → Inv checks (started checks)
unfolding started
started-Inv checks = record {
  size = length-empty_results checks;
  slots = λ j c h. inl (OneOf-indexes 0 j j checks c h (omega arith));
}

Ends-Inv : (checks : List ProbeRun) (p q : Probing) → Ends checks p q → Inv checks p → Inv checks q
Ends-Inv checks p q (ends_at ahead i behind at_i e) v = subst (Inv checks) (sym e) (record {
  size = length-finish_check checks i p.results ∙ v.size;
  slots = λ j c h. elim (ℕ_discrete i j) [
    | yes same_index ↦ inr (
        subst (λ k. get_elem? (finish_check checks i p.results) k ≡ some (run_check c)) same_index
          (finish_check_self checks i p.results c v.size (rw same_index h)))
    | no ne ↦ elim (v.slots j c h) [
      | inl m ↦ inl (OneOf-split j i ahead behind ne (subst (OneOf j) at_i m))
      | inr there ↦ inr (finish_check-ne checks i j p.results ne ∙ there)
    ]
  ];
})

EndsAll-Inv :
    {checks : List ProbeRun} {p q : Probing} {n : ℕ}
    → EndsAll checks p n q
    → Inv checks p
    → Inv checks q
EndsAll-Inv none_ended v = v
EndsAll-Inv {checks} (one_more {q} {r} ends e) v = Ends-Inv checks q r e (EndsAll-Inv ends v)

all_ended :
    (checks : List ProbeRun) (q : Probing)
    → Inv checks q
    → q.running ≡ []
    → q.results ≡ map run_check checks
all_ended checks q v e =
    map_of_slots checks q.results v.size
      (λ j c h. elim (v.slots j c h) [ inl m ↦ absurd (subst (OneOf j) e m) | inr there ↦ there ])

-- Whatever the order in which the goroutines end, once none runs the response is that of the results of
-- the checks one after another, each in its own slot.
pub write_health-any_order :
    (marshal : Payload → Option Text) (version : Text) (r : Request) (checks : List ProbeRun)
    (n : ℕ) (q : Probing)
    → EndsAll checks (started checks) n q
    → q.running ≡ []
    → write_health marshal version r checks q.results
      ≡ write_health marshal version r checks (map run_check checks)
write_health-any_order marshal version r checks n q ends e =
    ap (write_health marshal version r checks)
      (all_ended checks q (EndsAll-Inv ends (started-Inv checks)) e)
