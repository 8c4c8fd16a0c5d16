-- ===== src/Models/Postmortem/Validity.antt =====
-- What Validate of a postmortem accepts.
use flow_cast.Base.{
  bytes, is_empty, All, iff_trans, and_then, iff_refl, uuid_nil, ◌≡◌, ◌≢◌, ◌↔◌, ◌⊎◌, false, ◌&&◌,
  none, List, [], ◌∷◌, arith,
}
use flow_cast.Models.Issues.{Validator}
use flow_cast.Models.Issues.Clean.{Clean, add-not-Clean, add_if-Clean, err_of-Clean}
use flow_cast.Models.Postmortem.{ActionItem, Postmortem, check_items, validate_postmortem}

check_items-Clean :
    (v : Validator) (items : List ActionItem)
    → Clean (check_items v items) ↔ (Clean v × All (λ i. i.description ≢ []) items)
unfolding check_items
check_items-Clean v [] = ground arith
check_items-Clean v (item ∷ items) = ground (
  arith,
  check_items-Clean v items,
  add-not-Clean v (bytes "action_items") (bytes "every action item needs a description"),
)

pub record PostmortemIsValid (p : Postmortem) : Type 0 where
  pub owned : p.incident_id ≢ uuid_nil
  pub filled : (p.executive_summary ≢ []) ⊎ ((p.root_cause ≢ []) ⊎ (p.impact ≢ []))
  pub described : All (λ i. i.description ≢ []) p.action_items

filled_iff :
    (p : Postmortem)
    → ((is_empty p.executive_summary && is_empty p.root_cause && is_empty p.impact) ≡ false)
      ↔ ((p.executive_summary ≢ []) ⊎ ((p.root_cause ≢ []) ⊎ (p.impact ≢ [])))
filled_iff p = ground arith

-- Validate of a postmortem reports no error exactly if the incident is set, summary, root cause or
-- impact is not empty, and every action item has a description.
pub validate_postmortem_iff :
    (p : Postmortem) → (validate_postmortem p ≡ none) ↔ PostmortemIsValid p
unfolding validate_postmortem
validate_postmortem_iff p = iff_trans (err_of-Clean _) (
    iff_trans
      (and_then (check_items-Clean _ _)
        (and_then (add_if-Clean _ _ _ _) (add_if-Clean _ _ _ _) (filled_iff p)) iff_refl)
      (ground arith))
