-- ===== src/Models/Event/Validity.antt =====
-- What Validate of an event accepts.
use flow_cast.Base.{
  ◌≤ℤ◌, ℤ, length, OneOf, iff_trans, and_then, iff_refl, uuid_nil, ◌≤◌, ◌≡◌, ◌≢◌, ◌↔◌, false,
  Option, none, some, [], arith, pos,
}
use flow_cast.Strings.{trim_space}
use flow_cast.Models.Incident.{all_sources}
use flow_cast.Models.Issues.Clean.{
  add_if-Clean, required_max_len-Clean, enum_field-Clean, err_of-Clean,
}
use flow_cast.Models.Event.{
  Event, all_classifications, max_event_type_len, max_event_title, rank_below_one, validate_event,
}

-- An optional rank starts at 1.
abbrev pub RankIsPositive : Option ℤ → Type 0
RankIsPositive none = Unit
RankIsPositive (some rank) = pos 1 ≤ℤ rank

pub rank_iff : (o : Option ℤ) → (rank_below_one o ≡ false) ↔ RankIsPositive o
rank_iff none = ground arith
rank_iff (some rank) = ground arith

pub record EventIsValid (e : Event) : Type 0 where
  pub typed : trim_space e.event_type ≢ []
  pub type_fits : length (trim_space e.event_type) ≤ max_event_type_len
  pub titled : trim_space e.title ≢ []
  pub title_fits : length (trim_space e.title) ≤ max_event_title
  pub source : OneOf e.source all_sources
  pub classification : OneOf e.classification all_classifications
  pub owned : e.incident_id ≢ uuid_nil
  pub dated : e.occurred_at ≢ pos 0
  pub rank : RankIsPositive e.causal_rank

-- Validate of an event reports no error exactly if its trimmed type and title are not empty and have
-- at most 100 and 500 bytes, source and classification are known values, the incident and the time
-- are set, and the causal rank is absent or at least 1.
pub validate_event_iff : (e : Event) → (validate_event e ≡ none) ↔ EventIsValid e
unfolding validate_event
validate_event_iff e = iff_trans (err_of-Clean _) (
    iff_trans
      (and_then (add_if-Clean _ _ _ _)
        (and_then (add_if-Clean _ _ _ _)
          (and_then (add_if-Clean _ _ _ _)
            (and_then (enum_field-Clean _ _ _ _)
              (and_then (enum_field-Clean _ _ _ _)
                (and_then (required_max_len-Clean _ _ _ _) (required_max_len-Clean _ _ _ _)
                  iff_refl)
                iff_refl)
              iff_refl)
            iff_refl)
          iff_refl)
        (rank_iff e.causal_rank))
      (ground arith))
