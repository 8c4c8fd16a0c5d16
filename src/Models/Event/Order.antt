-- ===== src/Models/Event/Order.antt =====
-- The order of SortEventsByTime of backend/internal/models/event.go.
use flow_cast.Base.{
  Text, text_ltb_asym, text_ltb_split, text_ltb_total, All, Uuid, ◌≡◌, ◌≢◌, List, [], ◌∷◌, arith,
}
use mathlib.Core.List.{Perm}
use flow_cast.Models.Sort.Laws.{
  IsOrder, IsSorted, AllApart, Apart, sort_slice-perm, sort_slice-IsSorted, sort_slice-eq_of_perm,
}
use flow_cast.Models.Event.{Event, event_less, sort_events_by_time}

-- No two events of the list have one id.
abbrev pub DistinctIds : List Event → Type 0
DistinctIds [] = Unit
DistinctIds (e ∷ es) = All (λ f. e.id ≢ f.id) es × DistinctIds es

Event-set : IsSet Event
Event-set = hlevel

module _ (uuid_string : Uuid → Text) where
  event_less-IsOrder : IsOrder (event_less uuid_string)
  unfolding event_less
  event_less-IsOrder = record {
    asym = λ a b h. ground (arith, text_ltb_asym (uuid_string a.id) (uuid_string b.id));
    split = λ a b c h.
        ground (arith, text_ltb_split (uuid_string a.id) (uuid_string b.id) (uuid_string c.id));
  }

  module _ (injective : (u v : Uuid) → uuid_string u ≡ uuid_string v → u ≡ v) where
    event_less-Apart : (a b : Event) → a.id ≢ b.id → Apart (event_less uuid_string) a b
    unfolding event_less
    event_less-Apart a b h =
        ground (arith, text_ltb_total (uuid_string a.id) (uuid_string b.id), injective a.id b.id)

    Apart-All :
        (a : Event) (es : List Event)
        → All (λ f. a.id ≢ f.id) es
        → All (Apart (event_less uuid_string) a) es
    Apart-All a [] h = tt
    Apart-All a (b ∷ es) (h, hs) = (event_less-Apart a b h, Apart-All a es hs)

    DistinctIds-AllApart : (es : List Event) → DistinctIds es → AllApart (event_less uuid_string) es
    DistinctIds-AllApart [] h = tt
    DistinctIds-AllApart (e ∷ es) (h, hs) = (Apart-All e es h, DistinctIds-AllApart es hs)

-- SortEventsByTime gives a permutation of the events in which no event is less than one before it:
-- none is earlier, and of two at one time none has a smaller printed id.
pub sort_events_by_time_lem :
    (uuid_string : Uuid → Text) (events : List Event)
    → Perm (sort_events_by_time uuid_string events) events
      × IsSorted (event_less uuid_string) (sort_events_by_time uuid_string events)
unfolding sort_events_by_time
sort_events_by_time_lem uuid_string events = (
  sort_slice-perm (event_less uuid_string) events,
  sort_slice-IsSorted (event_less-IsOrder uuid_string) events,
)

-- If printed ids are distinct for distinct ids and no two events share an id, then two lists of the
-- same events in any two orders sort to the same list.
pub sort_events_by_time-deterministic :
    (uuid_string : Uuid → Text) (injective : (u v : Uuid) → uuid_string u ≡ uuid_string v → u ≡ v)
    (xs ys : List Event)
    → Perm xs ys
    → DistinctIds xs
    → sort_events_by_time uuid_string xs ≡ sort_events_by_time uuid_string ys
unfolding sort_events_by_time
sort_events_by_time-deterministic uuid_string injective xs ys p h =
    sort_slice-eq_of_perm (event_less-IsOrder uuid_string) Event-set xs ys p
      (DistinctIds-AllApart uuid_string injective xs h)
