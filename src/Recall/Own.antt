-- ===== src/Recall/Own.antt =====
-- Whose messages are recalled for a message.
use memknow.Common.{
  ◌≡◌, ◌⊎◌, inl, inr, refl, sym, subst, true, ◌&&◌, List, [], ◌∷◌, ◌++◌, some, Text, codes, take,
  trim_space, text_eq, text_eq_iff, arith, Memᴰ, All, All-append, Bool-cases, Option-cases,
  if_cases,
}
use mathlib.Core.Option.{some-injective, none-ne-some}
use memknow.Store.Tables.{
  Store, Session, Message, SessionSummary, Status, SessionType, chat, heartbeat, schedule, active,
  archived,
}
use memknow.Recall.Matches.{SearchMatch}
use memknow.Recall.Search.{
  Engine, type_eq, status_eq, session_row, message_match, message_matches, message_hit, hit_with,
  indexed_match, indexed_matches, passes, summary_match, summary_matches,
}

session_row-id :
    (id : Text) (l : List Session) (s : Session) → session_row id l ≡ some s → s.id ≡ id
unfolding session_row
session_row-id id [] s h = elim (none-ne-some s h) [ ]
session_row-id id (r ∷ l) s h = elim (Bool-cases (text_eq r.id id)) [
  | inl e ↦
      let found = rw e at h in
      subst (λ x. x.id ≡ id) (some-injective r s found) ((text_eq_iff r.id id).0 e)
  | inr e ↦ session_row-id id l s (rw e at h)
]

type_eq_chat : (t : SessionType) → type_eq t chat ≡ true → t ≡ chat
type_eq_chat chat h = refl
type_eq_chat heartbeat h = cc
type_eq_chat schedule h = cc

status_eq_archived : (s : Status) → status_eq s archived ≡ true → s ≡ archived
status_eq_archived active h = cc
status_eq_archived archived h = refl

module _ (st : Store) (key : Text) where
  -- A message of an archived chat session of the channel, or a summary of the channel that a chat
  -- session has: the match has the text of it, and names that session.
  abbrev pub IsOwn : SearchMatch → Type 0
  IsOwn m =
      (s : Session) × (session_row m.session_id st.sessions ≡ some s)
      × (s.session_type ≡ chat)
      × (((s.channel_key ≡ key)
            × (s.status ≡ archived)
            × ((x : Message) × Memᴰ x st.messages
                × (x.session_id ≡ m.session_id)
                × (m.content ≡ x.content)))
          ⊎ ((ss : SessionSummary) × Memᴰ ss st.summaries
              × (ss.channel_key ≡ key)
              × (ss.session_id ≡ m.session_id)
              × (m.content ≡ codes "会话摘要命中: " ++ trim_space ss.content)))

  module _ (e : Engine) where
    hit-IsOwn :
        (m : Message) (s : Session) (snippet : Text)
        → Memᴰ m st.messages
        → session_row m.session_id st.sessions ≡ some s
        → text_eq s.channel_key key ≡ true
        → status_eq s.status archived ≡ true
        → type_eq s.session_type chat ≡ true
        → IsOwn (hit_with e m s snippet)
    hit-IsOwn m s snippet mem found own old kind =
        let same : s.id ≡ m.session_id = session_row-id m.session_id st.sessions s found in
        (
          s,
          subst (λ i. session_row i st.sessions ≡ some s) (sym same) found,
          type_eq_chat s.session_type kind,
          inl (
            (text_eq_iff s.channel_key key).0 own,
            status_eq_archived s.status old,
            (m, mem, sym same, refl),
          ),
        )

    message_match-IsOwn :
        (pattern : Text) (m : Message)
        → Memᴰ m st.messages
        → All IsOwn (message_match e st key pattern (some archived) (some chat) m)
    unfolding message_match
    message_match-IsOwn pattern m mem = elim (Option-cases (session_row m.session_id st.sessions)) [
      | inl gone ↦ rw (gone, message_match) tt
      | inr (s, found) ↦
          rw (found, message_match)
            (if_cases (All IsOwn) (passes e key pattern (some archived) (some chat) m s)
              (message_hit e m s ∷ []) []
              (λ ok. (
                hit-IsOwn m s (take 200 m.content) mem found (ground arith) (ground arith)
                    (ground arith),
                tt,
              ))
              (λ _. tt))
    ]

    pub message_matches-IsOwn :
        (pattern : Text) (l : List Message)
        → All (λ m. Memᴰ m st.messages) l
        → All IsOwn (message_matches e st key pattern (some archived) (some chat) l)
    unfolding message_matches
    message_matches-IsOwn pattern [] h = tt
    message_matches-IsOwn pattern (m ∷ l) h =
        All-append IsOwn (message_match e st key pattern (some archived) (some chat) m) _
          (message_match-IsOwn pattern m h.0) (message_matches-IsOwn pattern l h.1)

    indexed_match-IsOwn :
        (query : Text) (m : Message)
        → Memᴰ m st.messages
        → All IsOwn (indexed_match e st key query (some archived) (some chat) m)
    unfolding indexed_match
    indexed_match-IsOwn query m mem = elim (Option-cases (e.index_match query m)) [
      | inl no_match ↦ rw (no_match, indexed_match) tt
      | inr (snippet, matched) ↦ elim (Option-cases (session_row m.session_id st.sessions)) [
        | inl gone ↦ rw (matched, gone, indexed_match) tt
        | inr (s, found) ↦
            rw (matched, found, indexed_match)
              (if_cases (All IsOwn)
                (text_eq s.channel_key key
                  && status_eq s.status archived
                  && type_eq s.session_type chat)
                (hit_with e m s snippet ∷ []) []
                (λ ok. (
                  hit-IsOwn m s snippet mem found (ground arith) (ground arith) (ground arith),
                  tt,
                ))
                (λ _. tt))
      ]
    ]

    pub indexed_matches-IsOwn :
        (query : Text) (l : List Message)
        → All (λ m. Memᴰ m st.messages) l
        → All IsOwn (indexed_matches e st key query (some archived) (some chat) l)
    unfolding indexed_matches
    indexed_matches-IsOwn query [] h = tt
    indexed_matches-IsOwn query (m ∷ l) h =
        All-append IsOwn (indexed_match e st key query (some archived) (some chat) m) _
          (indexed_match-IsOwn query m h.0) (indexed_matches-IsOwn query l h.1)

    summary_match-IsOwn :
        (pattern : Text) (ss : SessionSummary)
        → Memᴰ ss st.summaries
        → All IsOwn (summary_match e st key pattern (some chat) ss)
    unfolding summary_match
    summary_match-IsOwn pattern ss mem =
        if_cases (All IsOwn) (text_eq ss.channel_key key && _) _ _
          (λ ok. elim (Option-cases (session_row ss.session_id st.sessions)) [
            | inl gone ↦ rw gone tt
            | inr (s, found) ↦ rw found (
                if_cases (All IsOwn) (type_eq s.session_type chat) _ _
                  (λ t. (
                    (
                      s,
                      found,
                      type_eq_chat s.session_type t,
                      inr (ss, mem, (text_eq_iff ss.channel_key key).0 (ground arith), refl, refl),
                    ),
                    tt,
                  ))
                  (λ _. tt))
          ])
          (λ _. tt)

    pub summary_matches-IsOwn :
        (pattern : Text) (l : List SessionSummary)
        → All (λ ss. Memᴰ ss st.summaries) l
        → All IsOwn (summary_matches e st key pattern (some chat) l)
    unfolding summary_matches
    summary_matches-IsOwn pattern [] h = tt
    summary_matches-IsOwn pattern (ss ∷ l) h =
        All-append IsOwn (summary_match e st key pattern (some chat) ss) _
          (summary_match-IsOwn pattern ss h.0) (summary_matches-IsOwn pattern l h.1)
