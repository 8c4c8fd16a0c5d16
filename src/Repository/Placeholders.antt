-- ===== src/Repository/Placeholders.antt =====
-- The numbers of placeholders beside the arguments, in the queries of
-- backend/internal/repository/incident.go.
use flow_cast.Base.{
  length, get_elem?, ℕ, zero, suc, ◌≡◌, refl, Option, none, some, List, [], ◌∷◌, ◌++◌, Text,
}
use flow_cast.Repository.{Value, Assignment, to_placeholder, to_null}

-- The value behind the placeholder $n.
abbrev pub argument : List Value → ℕ → Option Value
argument args zero = none
argument args (suc n) = get_elem? args n

get_elem?-append :
    (xs ys : List Value) (n : ℕ) (v : Value)
    → get_elem? xs n ≡ some v
    → get_elem? (xs ++ ys) n ≡ some v
get_elem?-append [] ys n v h = cc h
get_elem?-append (x ∷ xs) ys zero v h = h
get_elem?-append (x ∷ xs) ys (suc n) v h = get_elem?-append xs ys n v h

pub get_elem?-last :
    (xs : List Value) (v : Value) (ys : List Value) → get_elem? (xs ++ v ∷ ys) (length xs) ≡ some v
get_elem?-last [] v ys = refl
get_elem?-last (x ∷ xs) v ys = get_elem?-last xs v ys

argument-append :
    (xs ys : List Value) (n : ℕ) (v : Value)
    → argument xs n ≡ some v
    → argument (xs ++ ys) n ≡ some v
argument-append xs ys zero v h = cc h
argument-append xs ys (suc n) v h = get_elem?-append xs ys n v h

-- What an assignment sets a column to, with its placeholder resolved; NULL is none.
abbrev pub Sets : List Value → Assignment → Text × Option Value → Type 0
Sets args (to_placeholder column n) (c, some v) = (column ≡ c) × (argument args n ≡ some v)
Sets args (to_placeholder column n) (c, none) = ⊥
Sets args (to_null column) (c, none) = column ≡ c
Sets args (to_null column) (c, some v) = ⊥

abbrev pub SetsAll : List Value → List Assignment → List (Text × Option Value) → Type 0
SetsAll args [] [] = Unit
SetsAll args (a ∷ more) (c ∷ cs) = Sets args a c × SetsAll args more cs
SetsAll args [] (c ∷ cs) = ⊥
SetsAll args (a ∷ more) [] = ⊥

Sets-append :
    (xs ys : List Value) (a : Assignment) (c : Text × Option Value)
    → Sets xs a c
    → Sets (xs ++ ys) a c
Sets-append xs ys (to_placeholder column n) (c, some v) (e, h) = (e, argument-append xs ys n v h)
Sets-append xs ys (to_placeholder column n) (c, none) h = absurd h
Sets-append xs ys (to_null column) (c, none) h = h
Sets-append xs ys (to_null column) (c, some v) h = absurd h

pub SetsAll-append :
    (xs ys : List Value) (as' : List Assignment) (cs : List (Text × Option Value))
    → SetsAll xs as' cs
    → SetsAll (xs ++ ys) as' cs
SetsAll-append xs ys [] [] h = tt
SetsAll-append xs ys (a ∷ more) (c ∷ cs) (h, hs) =
    (Sets-append xs ys a c h, SetsAll-append xs ys more cs hs)
SetsAll-append xs ys [] (c ∷ cs) h = absurd h
SetsAll-append xs ys (a ∷ more) [] h = absurd h

pub SetsAll-snoc :
    (args : List Value) (as' : List Assignment) (cs : List (Text × Option Value)) (a : Assignment)
    (c : Text × Option Value)
    → SetsAll args as' cs
    → Sets args a c
    → SetsAll args (as' ++ a ∷ []) (cs ++ c ∷ [])
SetsAll-snoc args [] [] a c h k = (k, tt)
SetsAll-snoc args (b ∷ more) (d ∷ ds) a c (h, hs) k = (h, SetsAll-snoc args more ds a c hs k)
SetsAll-snoc args [] (d ∷ ds) a c h k = absurd h
SetsAll-snoc args (b ∷ more) [] a c h k = absurd h
