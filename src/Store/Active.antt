-- ===== src/Store/Active.antt =====
-- The active session of a channel: there is one at most, unless the update that archives fails.
use memknow.Common.{
  ℕ, suc, ◌+◌, ◌≤◌, ◌≡◌, ◌≢◌, ◌↔◌, inl, inr, refl, ap, ◌∙◌, Bool, true, false, List, [], ◌∷◌, ◌++◌,
  none, some, Text, arith, if◌then◌else◌, text_eq, text_eq_iff, text_eq_self, Option-cases,
}
use memknow.Store.Tables.{
  Session, Store, find_active, count_active, archive_all, next_ok, write, is_active_in,
}
use memknow.Store.Archived.{Archives, archive_all-Archives}
use memknow.Store.Sessions.{
  fresh_session, id_of, create_session, get_or_create_session, handle_new_silent, archive_current,
  cleanup_interactive_session,
}

count_active-append :
    (key : Text) (l r : List Session)
    → count_active key (l ++ r) ≡ count_active key l + count_active key r
unfolding count_active
count_active-append key [] r = omega arith
count_active-append key (s ∷ l) r = ground (arith, count_active-append key l r)

count_active-archive_all :
    (key : Text) (now : ℕ) (l : List Session) → count_active key (archive_all key now l) ≡ 0
unfolding count_active archive_all
count_active-archive_all key now [] = refl
count_active-archive_all key now (s ∷ l) = ground (arith, count_active-archive_all key now l)

count_active-archive_other :
    (key j : Text) (now : ℕ) (l : List Session)
    → key ≢ j
    → count_active j (archive_all key now l) ≡ count_active j l
unfolding count_active archive_all
count_active-archive_other key j now [] ne = refl
count_active-archive_other key j now (s ∷ l) ne = ground (
  arith,
  count_active-archive_other key j now l,
  text_eq_iff s.channel_key key,
  text_eq_iff s.channel_key j,
)

find_active-none_iff :
    (key : Text) (l : List Session) → (find_active key l ≡ none) ↔ (count_active key l ≡ 0)
unfolding find_active count_active
find_active-none_iff key [] = ground arith
find_active-none_iff key (s ∷ l) = ground (arith, find_active-none_iff key l)

find_active-append :
    (key : Text) (l : List Session) (s : Session)
    → count_active key l ≡ 0
    → is_active_in key s ≡ true
    → find_active key (l ++ s ∷ []) ≡ some s
unfolding find_active count_active
find_active-append key [] s z a = ground arith
find_active-append key (t ∷ l) s z a = ground (arith, find_active-append key l s)

count_active_one :
    (id key j sender parent : Text) (now : ℕ)
    → count_active j (fresh_session id key sender parent now ∷ [])
      ≡ (if text_eq key j then 1 else 0)
unfolding count_active
count_active_one id key j sender parent now = ground arith

-- No channel has two active sessions.
abbrev pub IsSingle : Store → Type 0
IsSingle st = (j : Text) → count_active j st.sessions ≤ 1

module _ (uuid : ℕ → Text) (write_ok : ℕ → Bool) (key : Text) where
  create_session-count :
      (st : Store) (sender parent : Text) (now : ℕ) (j : Text)
      → count_active j (create_session uuid write_ok key st sender parent now).0.sessions ≡ (
          if next_ok write_ok st
          then count_active j st.sessions + (if text_eq key j then 1 else 0)
          else count_active j st.sessions)
  unfolding create_session write next_ok
  create_session-count st sender parent now j = ground (
    arith,
    count_active-append j st.sessions (fresh_session (uuid st.drawn) key sender parent now ∷ []),
    count_active_one (uuid st.drawn) key j sender parent now,
  )

  -- Asking for the channel's session never makes a second active one.
  pub get_or_create_session-IsSingle :
      (st : Store) (sender : Text) (now : ℕ) (read_ok : Bool)
      → IsSingle st
      → IsSingle (get_or_create_session uuid write_ok key st sender now read_ok).0
  unfolding get_or_create_session
  get_or_create_session-IsSingle st sender now read_ok v j = ground (
    arith,
    v j,
    v key,
    create_session-count st sender [] now j,
    find_active-none_iff key st.sessions,
    text_eq_iff key j,
  )

  archive_current-count :
      (st : Store) (old : Text) (now : ℕ) (j : Text)
      → count_active j (archive_current uuid write_ok key st old now).sessions ≡ (
          if write_ok st.writes
          then (if text_eq key j then 0 else count_active j st.sessions)
          else count_active j st.sessions)
  unfolding archive_current write cleanup_interactive_session
  archive_current-count st old now j = ground (
    arith,
    count_active-archive_all key now st.sessions,
    count_active-archive_other key j now st.sessions,
    text_eq_iff key j,
  )

  archive_current-rows :
      (st : Store) (old : Text) (now : ℕ)
      → write_ok st.writes ≡ true
      → let st' = archive_current uuid write_ok key st old now in
        (st'.drawn ≡ st.drawn) × (st'.sessions ≡ archive_all key now st.sessions)
  unfolding archive_current write cleanup_interactive_session
  archive_current-rows st old now ok = ground (arith, ok)

  archive_current-writes :
      (st : Store) (old : Text) (now : ℕ)
      → (archive_current uuid write_ok key st old now).writes ≡ suc st.writes
  unfolding archive_current write cleanup_interactive_session
  archive_current-writes st old now = ground arith

  handle_new_silent-count :
      (st : Store) (sender : Text) (now : ℕ) (read_ok : Bool) (j : Text)
      → count_active j (handle_new_silent uuid write_ok key st sender now read_ok).0.sessions
        ≡ (if write_ok st.writes
            then (if text_eq key j then 0 else count_active j st.sessions)
            else count_active j st.sessions)
          + (if write_ok (suc st.writes) then (if text_eq key j then 1 else 0) else 0)
  unfolding handle_new_silent next_ok
  handle_new_silent-count st sender now read_ok j =
      let old = if read_ok then id_of (find_active key st.sessions) else [] in
      let st' : Store = archive_current uuid write_ok key st old now in
      ground (
        arith,
        create_session-count st' sender old now j,
        archive_current-count st old now j,
        archive_current-writes st old now,
      )

  created_ok :
      (st : Store) (sender parent : Text) (now : ℕ) (s : Session)
      → (create_session uuid write_ok key st sender parent now).1 ≡ some s
      → next_ok write_ok st ≡ true
  unfolding create_session next_ok
  created_ok st sender parent now s e = ground arith

  -- /new keeps one active session at most in every channel, if the update that archives succeeds.
  pub handle_new_silent-IsSingle :
      (st : Store) (sender : Text) (now : ℕ) (read_ok : Bool)
      → write_ok st.writes ≡ true
      → IsSingle st
      → IsSingle (handle_new_silent uuid write_ok key st sender now read_ok).0
  handle_new_silent-IsSingle st sender now read_ok ok v j =
      ground (arith, v j, handle_new_silent-count st sender now read_ok j)

  -- If the update by which /new archives fails, and the new row is written, the channel has one
  -- active session more than before: the failure is only logged.
  pub handle_new_silent_archive_fails :
      (st : Store) (sender : Text) (now : ℕ) (read_ok : Bool)
      → write_ok st.writes ≡ false
      → write_ok (suc st.writes) ≡ true
      → count_active key (handle_new_silent uuid write_ok key st sender now read_ok).0.sessions
        ≡ count_active key st.sessions + 1
  handle_new_silent_archive_fails st sender now read_ok fails ok =
      ground (arith, handle_new_silent-count st sender now read_ok key, text_eq_self key)

  create_session-active :
      (st : Store) (sender parent : Text) (now : ℕ)
      → next_ok write_ok st ≡ true
      → count_active key st.sessions ≡ 0
      → let s = fresh_session (uuid st.drawn) key sender parent now in
        let (st', r) = create_session uuid write_ok key st sender parent now in
        (r ≡ some s)
        × (find_active key st'.sessions ≡ some s)
        × (st'.sessions ≡ st.sessions ++ s ∷ [])
  unfolding create_session write next_ok
  create_session-active st sender parent now ok z =
      let s = fresh_session (uuid st.drawn) key sender parent now in
      rw ok (refl, find_active-append key st.sessions s z (rw text_eq_self), refl)

  -- When both writes of /new succeed, one row is added behind the others: a chat session of the
  -- channel with the id that was drawn, which names the session that was active before as its
  -- parent. It is what /new returns, what the channel's next message finds, and the channel's only
  -- active session. Of the rows before it the active ones of the channel are archived with the time
  -- of the change, and all others, those of other channels too, are what they were.
  pub handle_new_silent_lem :
      (st : Store) (sender : Text) (now : ℕ) (read_ok : Bool)
      → write_ok st.writes ≡ true
      → write_ok (suc st.writes) ≡ true
      → let (st', r) = handle_new_silent uuid write_ok key st sender now read_ok in
        let parent = if read_ok then id_of (find_active key st.sessions) else [] in
        let s = fresh_session (uuid st.drawn) key sender parent now in
        (r ≡ some s)
        × ((rows : List Session) × (st'.sessions ≡ rows ++ s ∷ [])
            × Archives key now st.sessions rows)
        × (find_active key st'.sessions ≡ some s)
        × (count_active key st'.sessions ≡ 1)
  unfolding handle_new_silent
  handle_new_silent_lem st sender now read_ok ok ok' =
      let old = if read_ok then id_of (find_active key st.sessions) else [] in
      let st₁ : Store = archive_current uuid write_ok key st old now in
      let s : Session = fresh_session (uuid st.drawn) key sender old now in
      let next : next_ok write_ok st₁ ≡ true =
        unfold next_ok in ap write_ok (archive_current-writes st old now) ∙ ok' in
      let none_left : count_active key st₁.sessions ≡ 0 =
        ground (arith, archive_current-count st old now key, text_eq_self key) in
      let (made, found, added) = create_session-active st₁ sender old now next none_left in
      let (same, archived_rows) = archive_current-rows st old now ok in
      let drawn : fresh_session (uuid st₁.drawn) key sender old now ≡ s =
        ap (λ d. fresh_session (uuid d) key sender old now) same in
      (
        made ∙ ap some drawn,
        (
          archive_all key now st.sessions,
          added ∙ rw (archived_rows, drawn) refl,
          archive_all-Archives key now st.sessions,
        ),
        found ∙ ap some drawn,
        ground (arith, handle_new_silent-count st sender now read_ok key, text_eq_self key),
      )

  -- The session that a channel gets once is the one that it gets again, and the second time
  -- nothing is written.
  pub get_or_create_session_again :
      (st : Store) (sender later_sender : Text) (now later : ℕ) (s : Session)
      → let (st', r) = get_or_create_session uuid write_ok key st sender now true in
        r ≡ some s
        → get_or_create_session uuid write_ok key st' later_sender later true ≡ (st', some s)
  unfolding get_or_create_session
  get_or_create_session_again st sender later_sender now later s e =
      elim (Option-cases (find_active key st.sessions)) [
        | inl none_found ↦
            let ok : next_ok write_ok st ≡ true = created_ok st sender [] now s (ground arith) in
            let (made, found, added) =
              create_session-active st sender [] now ok
                ((find_active-none_iff key st.sessions).0 none_found) in
            ground arith
        | inr (old, found) ↦ ground arith
      ]
