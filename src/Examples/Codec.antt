-- ===== src/Examples/Codec.antt =====
-- Values written to a text of numbers and read back.
use flow_cast.Base.{
  Time, length, ℕ, zero, suc, ◌≡◌, refl, Option, none, some, List, [], ◌∷◌, pos, negsuc, Text,
}

pub record Codec (A : Type 0) : Type 0 where
  pub put : A → Text → Text
  pub get : Text → Option (A × Text)
  pub get-put : (a : A) (rest : Text) → get (put a rest) ≡ some (a, rest)

abbrev get_number : Text → Option (ℕ × Text)
get_number [] = none
get_number (n ∷ rest) = some (n, rest)

abbrev pub number_codec : Codec ℕ
number_codec = record { put = λ n rest. n ∷ rest; get = get_number; get-put = λ n rest. refl }

-- A list: its length before its items.
module _ {A : Type 0} (c : Codec A) where
  abbrev put_items : List A → Text → Text
  put_items [] rest = rest
  put_items (a ∷ xs) rest = c.put a (put_items xs rest)

  abbrev get_items : ℕ → Text → Option (List A × Text)
  get_items zero t = some ([], t)
  get_items (suc n) t = elim (c.get t) [
    | none ↦ none
    | some (a, rest) ↦ elim (get_items n rest) [ none ↦ none | some (xs, end) ↦ some (a ∷ xs, end) ]
  ]

  pub get_items-put_items :
      (xs : List A) (rest : Text) → get_items (length xs) (put_items xs rest) ≡ some (xs, rest)
  get_items-put_items [] rest = refl
  get_items-put_items (a ∷ xs) rest =
      rw (c.get-put a (put_items xs rest), get_items-put_items xs rest)

  abbrev get_list : Text → Option (List A × Text)
  get_list [] = none
  get_list (n ∷ rest) = get_items n rest

  abbrev pub list_codec : Codec (List A)
  list_codec = record {
    put = λ xs rest. length xs ∷ put_items xs rest;
    get = get_list;
    get-put = get_items-put_items;
  }

abbrev put_time : Time → Text → Text
put_time (pos n) rest = 0 ∷ n ∷ rest
put_time (negsuc n) rest = 1 ∷ n ∷ rest

abbrev get_time : Text → Option (Time × Text)
get_time (zero ∷ n ∷ rest) = some (pos n, rest)
get_time (suc _ ∷ n ∷ rest) = some (negsuc n, rest)
get_time (_ ∷ []) = none
get_time [] = none

pub get_time-put_time : (t : Time) (rest : Text) → get_time (put_time t rest) ≡ some (t, rest)
get_time-put_time (pos n) rest = refl
get_time-put_time (negsuc n) rest = refl

abbrev pub time_codec : Codec Time
time_codec = record { put = put_time; get = get_time; get-put = get_time-put_time }

module _ {A : Type 0} (c : Codec A) where
  abbrev put_option : Option A → Text → Text
  put_option none rest = 0 ∷ rest
  put_option (some a) rest = 1 ∷ c.put a rest

  abbrev get_option : Text → Option (Option A × Text)
  get_option [] = none
  get_option (zero ∷ rest) = some (none, rest)
  get_option (suc _ ∷ rest) = elim (c.get rest) [ none ↦ none | some (a, end) ↦ some (some a, end) ]

  pub get_option-put_option :
      (o : Option A) (rest : Text) → get_option (put_option o rest) ≡ some (o, rest)
  get_option-put_option none rest = refl
  get_option-put_option (some a) rest = rw (c.get-put a rest)

  abbrev pub option_codec : Codec (Option A)
  option_codec = record { put = put_option; get = get_option; get-put = get_option-put_option }

module _ {A B : Type 0} (c : Codec A) (d : Codec B) where
  abbrev get_pair : Text → Option ((A × B) × Text)
  get_pair t = elim (c.get t) [
    | none ↦ none
    | some (a, rest) ↦ elim (d.get rest) [ none ↦ none | some (b, end) ↦ some ((a, b), end) ]
  ]

  pub get_pair-put :
      (p : A × B) (rest : Text) → get_pair (c.put p.0 (d.put p.1 rest)) ≡ some (p, rest)
  get_pair-put p rest = rw (get_pair, c.get-put p.0 (d.put p.1 rest), d.get-put p.1 rest)

  abbrev pub pair_codec : Codec (A × B)
  pair_codec = record {
    put = λ p rest. c.put p.0 (d.put p.1 rest);
    get = get_pair;
    get-put = get_pair-put;
  }
