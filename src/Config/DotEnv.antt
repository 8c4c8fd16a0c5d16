-- ===== src/Config/DotEnv.antt =====
-- backend/internal/config/dotenv.go: the search for a .env file. An absolute path is the list of its
-- names, the last one first, so that the parent of the root is the root.
use flow_cast.Base.{
  ◌+◌, inl, inr, if◌then◌else◌, ◌⊎◌, Text, bytes, ℕ, zero, suc, ◌≤◌, ◌<◌, ◌≡◌, refl, Bool, Option,
  none, some, List, [], ◌∷◌, Result, ok, err, drop, length, arith,
}

abbrev pub DiskPath : Type 0
DiskPath = List Text

-- os.Stat: a regular file, something else, nothing, or another failure.
pub data Stat : Type 0 where
  regular irregular missing stat_failed : Stat

-- `loads` tells whether godotenv.Load takes the file.
pub record Disk : Type 0 where
  pub getwd : Option DiskPath
  pub stat : DiskPath → Stat
  pub loads : DiskPath → Bool

pub data DotEnvError : Type 0 where
  no_working_directory no_dot_env : DotEnvError
  checking loading : DiskPath → DotEnvError

abbrev pub dot_env_search_depth : ℕ
dot_env_search_depth = 5

-- filepath.Join(current, ".env")
abbrev pub candidate : DiskPath → DiskPath
candidate current = bytes ".env" ∷ current

module _ (disk : Disk) where
  -- What is left of the loop: the rounds and the directory.
  unfoldable pub find_up : ℕ → DiskPath → Result DotEnvError DiskPath
  find_up zero current = err no_dot_env
  find_up (suc rounds) [] = elim (disk.stat (candidate [])) [
    | regular ↦ ok (candidate [])
    | stat_failed ↦ err (checking (candidate []))
    | irregular ↦ err no_dot_env
    | missing ↦ err no_dot_env
  ]
  find_up (suc rounds) (name ∷ parent) = elim (disk.stat (candidate (name ∷ parent))) [
    | regular ↦ ok (candidate (name ∷ parent))
    | stat_failed ↦ err (checking (candidate (name ∷ parent)))
    | irregular ↦ find_up rounds parent
    | missing ↦ find_up rounds parent
  ]

  unfoldable pub find_dot_env : DiskPath → Result DotEnvError DiskPath
  unfolding find_up
  find_dot_env dir = find_up (suc dot_env_search_depth) dir

  unfoldable pub load_dot_env_from : DiskPath → Result DotEnvError DiskPath
  unfolding find_dot_env
  load_dot_env_from dir = elim (find_dot_env dir) [
    | err e ↦ err e
    | ok path ↦ if disk.loads path then ok path else err (loading path)
  ]

  unfoldable pub load_dot_env : Result DotEnvError DiskPath
  unfolding load_dot_env_from
  load_dot_env = elim disk.getwd [
    | none ↦ err no_working_directory
    | some dir ↦ load_dot_env_from dir
  ]

  -- The directories below the k-th one up hold no .env file, and could be looked into.
  abbrev Passed : DiskPath → Type 0
  Passed dir = (disk.stat (candidate dir) ≡ irregular) ⊎ (disk.stat (candidate dir) ≡ missing)

  abbrev AllPassed : DiskPath → ℕ → Type 0
  AllPassed dir k = (j : ℕ) → j < k → Passed (drop j dir)

  -- How a search of some rounds from a directory ends.
  abbrev pub SearchEnds : ℕ → DiskPath → Result DotEnvError DiskPath → Type 0
  SearchEnds rounds dir (ok path) =
      (k : ℕ) × (k < rounds)
      × (k ≤ length dir)
      × (path ≡ candidate (drop k dir))
      × (disk.stat path ≡ regular)
      × AllPassed dir k
  SearchEnds rounds dir (err no_working_directory) = ⊥
  SearchEnds rounds dir (err no_dot_env) =
      (j : ℕ) → j < rounds → j ≤ length dir → Passed (drop j dir)
  SearchEnds rounds dir (err (checking path)) =
      (k : ℕ) × (k < rounds)
      × (k ≤ length dir)
      × (path ≡ candidate (drop k dir))
      × (disk.stat path ≡ stat_failed)
      × AllPassed dir k
  SearchEnds rounds dir (err (loading path)) = ⊥

  AllPassed-up :
      (name : Text) (parent : DiskPath) (k : ℕ)
      → Passed (name ∷ parent)
      → AllPassed parent k
      → AllPassed (name ∷ parent) (suc k)
  AllPassed-up name parent k h hs zero lt = h
  AllPassed-up name parent k h hs (suc j) lt = hs j (omega arith)

  all_up :
      (rounds : ℕ) (name : Text) (parent : DiskPath)
      → Passed (name ∷ parent)
      → ((j : ℕ) → j < rounds → j ≤ length parent → Passed (drop j parent))
      → (j : ℕ) → j < suc rounds
      → j ≤ suc (length parent)
      → Passed (drop j (name ∷ parent))
  all_up rounds name parent h all zero lt le = h
  all_up rounds name parent h all (suc j) lt le = all j (omega arith) (omega arith)

  SearchEnds-up :
      (rounds : ℕ) (name : Text) (parent : DiskPath) (r : Result DotEnvError DiskPath)
      → Passed (name ∷ parent)
      → SearchEnds rounds parent r
      → SearchEnds (suc rounds) (name ∷ parent) r
  SearchEnds-up rounds name parent (ok path) h (k, lt, le, e, s, all) =
      (suc k, omega arith, omega arith, e, s, AllPassed-up name parent k h all)
  SearchEnds-up rounds name parent (err no_working_directory) h ends = absurd ends
  SearchEnds-up rounds name parent (err no_dot_env) h all = all_up rounds name parent h all
  SearchEnds-up rounds name parent (err (checking path)) h (k, lt, le, e, s, all) =
      (suc k, omega arith, omega arith, e, s, AllPassed-up name parent k h all)
  SearchEnds-up rounds name parent (err (loading path)) h ends = absurd ends

  Stat-cases : (s : Stat) → (s ≡ regular) ⊎ ((s ≡ stat_failed) ⊎ ((s ≡ irregular) ⊎ (s ≡ missing)))
  Stat-cases regular = inl refl
  Stat-cases stat_failed = inr (inl refl)
  Stat-cases irregular = inr (inr (inl refl))
  Stat-cases missing = inr (inr (inr refl))

  none_before : (dir : DiskPath) → AllPassed dir 0
  none_before dir j lt = absurd (omega arith)

  at_root : Passed [] → (rounds : ℕ) (j : ℕ) → j < suc rounds → j ≤ 0 → Passed (drop j [])
  at_root h rounds zero lt le = h
  at_root h rounds (suc j) lt le = absurd (omega arith)

  find_up-SearchEnds : (rounds : ℕ) (dir : DiskPath) → SearchEnds rounds dir (find_up rounds dir)
  unfolding find_up
  find_up-SearchEnds zero dir = λ j lt le. absurd (omega arith)
  find_up-SearchEnds (suc rounds) [] = elim (Stat-cases (disk.stat (candidate []))) [
    | inl e ↦ rw (e, find_up) (0, omega arith, omega arith, refl, e, none_before [])
    | inr (inl e) ↦ rw (e, find_up) (0, omega arith, omega arith, refl, e, none_before [])
    | inr (inr (inl e)) ↦ rw (e, find_up) (at_root (inl e) rounds)
    | inr (inr (inr e)) ↦ rw (e, find_up) (at_root (inr e) rounds)
  ]
  find_up-SearchEnds (suc rounds) (name ∷ parent) =
      elim (Stat-cases (disk.stat (candidate (name ∷ parent)))) [
        | inl e ↦
            rw (e, find_up) (0, omega arith, omega arith, refl, e, none_before (name ∷ parent))
        | inr (inl e) ↦
            rw (e, find_up) (0, omega arith, omega arith, refl, e, none_before (name ∷ parent))
        | inr (inr (inl e)) ↦
            rw (e, find_up)
              (SearchEnds-up rounds name parent _ (inl e) (find_up-SearchEnds rounds parent))
        | inr (inr (inr e)) ↦
            rw (e, find_up)
              (SearchEnds-up rounds name parent _ (inr e) (find_up-SearchEnds rounds parent))
      ]

  -- The search returns the .env file of the nearest directory, from the given one to the fifth above it,
  -- that holds a regular one; fails at the first that it cannot look into; and reports that there is none
  -- where it passed all of them up to the fifth or to the root.
  pub find_dot_env-SearchEnds :
      (dir : DiskPath) → SearchEnds (dot_env_search_depth + 1) dir (find_dot_env dir)
  unfolding find_dot_env
  find_dot_env-SearchEnds dir = find_up-SearchEnds (dot_env_search_depth + 1) dir
