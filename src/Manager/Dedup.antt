-- ===== src/Manager/Dedup.antt =====
-- internal/session/manager.go: isDuplicate, the memory of recent message ids. Times are
-- nanoseconds of a clock that does not run backwards.
use memknow.Common.{
  ℕ, ◌-◌, ◌+◌, ◌≤◌, ◌<◌, ◌≡◌, ◌≢◌, refl, Bool, true, false, List, [], ◌∷◌, none, some, Text, arith,
  ltb, length, if◌then◌else◌, lookup, insert, lookup-insert, length-insert, length-insert_new,
  text_eq_iff, text_eq_self, All,
}

abbrev pub Recent : Type 0
Recent = List (Text × ℕ)

-- duplicateWindow: five minutes.
abbrev pub duplicate_window : ℕ
duplicate_window = 300_000_000_000

abbrev pub max_recent : ℕ
max_recent = 10000

unfoldable pub seen_recently : Recent → Text → ℕ → Bool
seen_recently m id now = elim (lookup id m) [
  | none ↦ false
  | some t ↦ ltb (now - t) duplicate_window
]

-- The map afterwards, and whether the message is dropped.
unfoldable pub is_duplicate : Recent → Text → ℕ → Recent × Bool
is_duplicate m id now =
    let m' = insert id now m in
    if seen_recently m id now
    then (m, true)
    else (if ltb max_recent (length m') then [] else m', false)

-- A series of calls, each with its time.
unfoldable pub is_duplicate_all : Recent → List (Text × ℕ) → Recent
is_duplicate_all m [] = m
is_duplicate_all m ((id, now) ∷ calls) = is_duplicate_all (is_duplicate m id now).0 calls

is_duplicate-bounded :
    (m : Recent) (id : Text) (now : ℕ)
    → length m ≤ max_recent
    → length (is_duplicate m id now).0 ≤ max_recent
unfolding is_duplicate
is_duplicate-bounded m id now h = ground arith

-- However many messages arrive, no more than 10000 ids are kept.
pub is_duplicate_all-bounded :
    (m : Recent) (calls : List (Text × ℕ))
    → length m ≤ max_recent
    → length (is_duplicate_all m calls) ≤ max_recent
unfolding is_duplicate_all
is_duplicate_all-bounded m [] h = h
is_duplicate_all-bounded m ((id, now) ∷ calls) h =
    is_duplicate_all-bounded (is_duplicate m id now).0 calls (is_duplicate-bounded m id now h)

-- A call with another id keeps what is known of an id, unless the map overflows.
is_duplicate-keeps :
    (m : Recent) (id j : Text) (now t : ℕ)
    → id ≢ j
    → lookup id m ≡ some t
    → length m < max_recent
    → (lookup id (is_duplicate m j now).0 ≡ some t)
      × (length (is_duplicate m j now).0 ≤ length m + 1)
unfolding is_duplicate
is_duplicate-keeps m id j now t ne e h =
    ground (arith, lookup-insert j id now m, length-insert j now m, text_eq_iff j id)

is_duplicate_all-keeps :
    (m : Recent) (id : Text) (t : ℕ) (calls : List (Text × ℕ))
    → All (λ (c : Text × ℕ). id ≢ c.0) calls
    → lookup id m ≡ some t
    → length m + length calls ≤ max_recent
    → lookup id (is_duplicate_all m calls) ≡ some t
unfolding is_duplicate_all
is_duplicate_all-keeps m id t [] a e h = e
is_duplicate_all-keeps m id t ((j, now) ∷ calls) a e h =
    let (kept, small) = is_duplicate-keeps m id j now t a.0 e (omega arith) in
    is_duplicate_all-keeps (is_duplicate m j now).0 id t calls a.1 kept (omega arith)

is_duplicate-records :
    (m : Recent) (id : Text) (t : ℕ)
    → (is_duplicate m id t).1 ≡ false
    → length m < max_recent
    → (lookup id (is_duplicate m id t).0 ≡ some t) × (length (is_duplicate m id t).0 ≤ length m + 1)
unfolding is_duplicate
is_duplicate-records m id t h room =
    ground (arith, lookup-insert id id t m, length-insert id t m, text_eq_self id)

is_duplicate_hit :
    (m : Recent) (id : Text) (t later : ℕ)
    → lookup id m ≡ some t
    → later - t < duplicate_window
    → is_duplicate m id later ≡ (m, true)
unfolding is_duplicate seen_recently
is_duplicate_hit m id t later e h = ground arith

-- A message that is delivered again within five minutes of the delivery that was let through is
-- dropped, and leaves the memory as it is, if the deliveries between have other ids and the memory
-- does not overflow.
pub is_duplicate_again :
    (m : Recent) (id : Text) (t later : ℕ) (calls : List (Text × ℕ))
    → (is_duplicate m id t).1 ≡ false
    → All (λ (c : Text × ℕ). id ≢ c.0) calls
    → length m + length calls < max_recent
    → later - t < duplicate_window
    → let m' = is_duplicate_all (is_duplicate m id t).0 calls in
      is_duplicate m' id later ≡ (m', true)
is_duplicate_again m id t later calls first others room h =
    let (known, small) = is_duplicate-records m id t first (omega arith) in
    is_duplicate_hit _ id t later
      (is_duplicate_all-keeps (is_duplicate m id t).0 id t calls others known (omega arith)) h

is_duplicate_full :
    (m : Recent) (id : Text) (t : ℕ)
    → lookup id m ≡ none
    → length m ≡ max_recent
    → is_duplicate m id t ≡ ([], false)
unfolding is_duplicate seen_recently
is_duplicate_full m id t e n = ground (arith, length-insert_new id t m e)

is_duplicate-nil : (id : Text) (t : ℕ) → (is_duplicate [] id t).1 ≡ false
unfolding is_duplicate seen_recently lookup
is_duplicate-nil id t = refl

-- When the memory is full, a message with a new id empties it, its own entry too: the message is
-- let through, and so is its next delivery, at whatever time.
pub is_duplicate_overflow :
    (m : Recent) (id : Text) (t later : ℕ)
    → lookup id m ≡ none
    → length m ≡ max_recent
    → let m' = (is_duplicate m id t).0 in
      (m' ≡ []) × ((is_duplicate m id t).1 ≡ false) × ((is_duplicate m' id later).1 ≡ false)
is_duplicate_overflow m id t later e n =
    rw (is_duplicate_full m id t e n) (refl, refl, is_duplicate-nil id later)
