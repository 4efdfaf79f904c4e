-- ===== src/Recall/Recalled.antt =====
-- What is recalled for a message.
use memknow.Common.{
  ℕ, ◌-◌, ◌≤◌, ◌≡◌, inl, inr, subst, ◌&&◌, List, [], ◌∷◌, Option, none, some, Text, text_eq,
  text_eq_iff, is_empty, length, take, length-take, length-map, trim_space, arith, Permᴰ, Memᴰ, All,
  All-perm, All-weaken, All-map, All-self, All-member, All-append, All-take, Rearranges, sort_by,
  sort_by-perm, Bool-cases, Option-cases, >>=_some, if_cases, if_keeps,
}
use mathlib.Core.List.Permᴰ
use mathlib.Core.Option.{some-injective, none-ne-some}
use memknow.Store.Tables.{Store, Message, SessionSummary, chat, archived}
use memknow.Recall.Matches.{SearchMatch, ScoredMatch, fuse_scored, fuse_scored_matches}
use memknow.Recall.Best.{IsTop, fuse_scored-tops}
use memknow.Recall.Limits.{length-fuse_scored}
use memknow.Recall.Search.{
  Engine, score_from, pattern_of, newer_message, newer_summary, message_matches, indexed_matches,
  summary_matches, search_messages_with_status, search_messages_like_with_status,
  search_summary_matches,
}
use memknow.Recall.Query.{sanitize_fts5_query}
use memknow.Recall.Own.{IsOwn, message_matches-IsOwn, indexed_matches-IsOwn, summary_matches-IsOwn}
use memknow.Recall.Retrieve.{
  ContextPayload, channel_summaries, recent_summaries, candidates, recalled_matches, retrieve,
}

module _ (st : Store) (key : Text) (e : Engine) where
  abbrev ScoredOwn : ScoredMatch → Type 0
  ScoredOwn c = IsOwn st key c.match

  score_from-IsOwn :
      (top : ℕ) (l : List SearchMatch) → All (IsOwn st key) l → All ScoredOwn (score_from top l)
  unfolding score_from
  score_from-IsOwn top [] h = tt
  score_from-IsOwn top (m ∷ l) h = (h.0, score_from-IsOwn (top - 1) l h.1)

  -- What a search gives, if it gives anything.
  data Gives : Option (List SearchMatch) → Type 0 where
    fails : Gives none
    gives : (l : List SearchMatch) → All (IsOwn st key) l → Gives (some l)

  message_members : {l : List Message} → Permᴰ l st.messages → All (λ m. Memᴰ m st.messages) l
  message_members perm = All-perm (λ m. Memᴰ m st.messages) (Permᴰ.symm perm) (All-self st.messages)

  likes-IsOwn :
      Rearranges e.tied_messages
      → (q : Text) (limit : ℕ)
      → Gives (search_messages_like_with_status e st key q (some archived) (some chat) limit)
  unfolding search_messages_like_with_status
  likes-IsOwn fair q limit =
      let rows = sort_by newer_message (e.tied_messages st.messages) in
      let perm = Permᴰ.trans (sort_by-perm newer_message _) (fair st.messages) in
      let found = message_matches e st key (pattern_of e q) (some archived) (some chat) rows in
      if_keeps Gives _ _ _ (gives [] tt) (
        if_keeps Gives e.like_ok _ _
          (gives (take limit found) (
            All-take (IsOwn st key) limit found
              (message_matches-IsOwn st key e (pattern_of e q) rows (message_members perm))))
          fails)

  hits-IsOwn :
      Rearranges e.tied_summaries
      → (q : Text) (limit : ℕ) → Gives (search_summary_matches e st key q (some chat) limit)
  unfolding search_summary_matches
  hits-IsOwn fair q limit =
      let rows = sort_by newer_summary (e.tied_summaries st.summaries) in
      let perm = Permᴰ.trans (sort_by-perm newer_summary _) (fair st.summaries) in
      let members =
        All-perm (λ ss. Memᴰ ss st.summaries) (Permᴰ.symm perm) (All-self st.summaries) in
      let found = summary_matches e st key (pattern_of e q) (some chat) rows in
      if_keeps Gives _ _ _ (gives [] tt) (
        if_keeps Gives e.hits_ok _ _
          (gives (take limit found) (
            All-take (IsOwn st key) limit found
              (summary_matches-IsOwn st key e (pattern_of e q) rows members)))
          fails)

  fts-IsOwn :
      ((q : Text) → Rearranges (e.ranked q))
      → (q : Text) (limit : ℕ)
      → Gives (search_messages_with_status e st key q (some archived) (some chat) limit)
  unfolding search_messages_with_status
  fts-IsOwn order q limit =
      let query = sanitize_fts5_query e.is_han q in
      let rows = e.ranked query st.messages in
      let found = indexed_matches e st key query (some archived) (some chat) rows in
      if_keeps Gives _ _ _ (gives [] tt) (
        if_keeps Gives (e.index_ok query) _ _
          (gives (take limit found) (
            All-take (IsOwn st key) limit found (
              indexed_matches-IsOwn st key e query rows
                (message_members (order query st.messages)))))
          fails)

  given :
      (o : Option (List SearchMatch)) (l : List SearchMatch)
      → Gives o
      → o ≡ some l
      → All (IsOwn st key) l
  given none l g h = elim (none-ne-some l h) [ ]
  given (some k) l (gives _ h) q = subst (All (IsOwn st key)) (some-injective k l q) h

  candidates-IsOwn :
      Rearranges e.tied_messages
      → ((q : Text) → Rearranges (e.ranked q))
      → Rearranges e.tied_summaries
      → (q : Text) (l : List ScoredMatch) → candidates e st key q ≡ some l
      → All ScoredOwn l
  unfolding candidates
  candidates-IsOwn tied ranks fair q l h =
      let (fts, f, h') = >>=_some _ _ l h in
      let (likes, g, h'') = >>=_some _ _ l h' in
      let (hits, k, done) = >>=_some _ _ l h'' in
      subst (All ScoredOwn) (some-injective _ l done) (
        All-append ScoredOwn (score_from 100 fts) _
          (score_from-IsOwn 100 fts (given _ fts (fts-IsOwn ranks q 12) f))
          (All-append ScoredOwn (score_from 70 likes) _
            (score_from-IsOwn 70 likes (given _ likes (likes-IsOwn tied q 12) g))
            (score_from-IsOwn 50 hits (given _ hits (hits-IsOwn fair q 8) k))))

  -- A summary of the channel.
  abbrev pub IsOwnSummary : SessionSummary → Type 0
  IsOwnSummary ss = Memᴰ ss st.summaries × (ss.channel_key ≡ key)

  channel_summaries-IsOwn :
      (l : List SessionSummary)
      → All (λ ss. Memᴰ ss st.summaries) l
      → All IsOwnSummary (channel_summaries e st key l)
  unfolding channel_summaries
  channel_summaries-IsOwn [] h = tt
  channel_summaries-IsOwn (ss ∷ l) h =
      if_cases (All IsOwnSummary) (text_eq ss.channel_key key && _) _ _
        (λ ok.
          ((h.0, (text_eq_iff ss.channel_key key).0 (ground arith)), channel_summaries-IsOwn l h.1))
        (λ _. channel_summaries-IsOwn l h.1)

  recent_summaries-IsOwn :
      Rearranges e.tied_summaries
      → (l : List SessionSummary) → recent_summaries e st key ≡ some l
      → All IsOwnSummary l × (length l ≤ 3)
  unfolding recent_summaries
  recent_summaries-IsOwn fair l h =
      let rows = sort_by newer_summary (e.tied_summaries st.summaries) in
      let perm = Permᴰ.trans (sort_by-perm newer_summary _) (fair st.summaries) in
      let members =
        All-perm (λ ss. Memᴰ ss st.summaries) (Permᴰ.symm perm) (All-self st.summaries) in
      let found = channel_summaries e st key rows in
      elim (Bool-cases e.summaries_ok) [
        | inl ok ↦
            subst (λ x. All IsOwnSummary x × (length x ≤ 3)) (some-injective _ l (rw ok at h))
              (
                All-take IsOwnSummary 3 found (channel_summaries-IsOwn rows members),
                omega (arith, length-take 3 found),
              )
        | inr failed ↦ elim (none-ne-some l (rw failed at h)) [ ]
      ]

  fused-IsOwn :
      Rearranges e.arrange
      → (cs : List ScoredMatch) → All ScoredOwn cs
      → let l = fuse_scored_matches e.table e.arrange cs 12 in
        All (IsOwn st key) l × (length l ≤ 12)
  unfolding fuse_scored_matches
  fused-IsOwn order cs h =
      let l = fuse_scored e.table e.arrange cs 12 in
      let best = fuse_scored-tops e.table e.arrange order cs 12 in
      (
        All-map (IsOwn st key) (λ (c : ScoredMatch). c.match) l
            (All-weaken (IsTop e.table cs) ScoredOwn l (λ c top. All-member ScoredOwn cs c h top.0)
              best.0),
        omega (
          arith,
          length-map (λ (c : ScoredMatch). c.match) l,
          length-fuse_scored e.table e.arrange cs 12,
        ),
      )

  recalled_matches-IsOwn :
      Rearranges e.tied_messages
      → ((q : Text) → Rearranges (e.ranked q))
      → Rearranges e.tied_summaries
      → Rearranges e.arrange
      → (q : Text) (l : List SearchMatch) → recalled_matches e st key q ≡ some l
      → All (IsOwn st key) l × (length l ≤ 12)
  unfolding recalled_matches
  recalled_matches-IsOwn tied ranks fair order q l h = elim (Bool-cases (is_empty q)) [
    | inl e' ↦
        subst (λ x. All (IsOwn st key) x × (length x ≤ 12)) (some-injective [] l (rw e' at h))
          (tt, omega arith)
    | inr e' ↦ elim (Option-cases (candidates e st key q)) [
      | inl none_found ↦ elim (none-ne-some l (rw none_found at (rw e' at h))) [ ]
      | inr (cs, found) ↦
          subst (λ x. All (IsOwn st key) x × (length x ≤ 12))
            (some-injective _ l (rw found at (rw e' at h)))
            (fused-IsOwn order cs (candidates-IsOwn tied ranks fair q cs found))
    ]
  ]

  -- Whatever the message asks for, what is recalled for it are at most three summaries of its own
  -- channel and at most twelve matches: the texts of messages of archived chat sessions of its own
  -- channel, each under its session, or those of summaries of the channel. This holds whatever the
  -- full text index matches, for every order of its ranks, of equal rows and of map entries.
  pub retrieve-IsOwn :
      Rearranges e.tied_messages
      → ((q : Text) → Rearranges (e.ranked q))
      → Rearranges e.tied_summaries
      → Rearranges e.arrange
      → (query : Text) (p : ContextPayload) → retrieve e st key query ≡ some p
      → All IsOwnSummary p.summaries
        × (length p.summaries ≤ 3)
        × All (IsOwn st key) p.matches
        × (length p.matches ≤ 12)
  unfolding retrieve
  retrieve-IsOwn tied ranks fair order query p h =
      let (summaries, f, h') = >>=_some _ _ p h in
      let (matches, g, done) =
        >>=_some (recalled_matches e st key (trim_space query))
          (λ ms. some (record { summaries = summaries; matches = ms })) p h' in
      let s = recent_summaries-IsOwn fair summaries f in
      let m = recalled_matches-IsOwn tied ranks fair order (trim_space query) matches g in
      subst
        (λ x.
          All IsOwnSummary x.summaries
          × (length x.summaries ≤ 3)
          × All (IsOwn st key) x.matches
          × (length x.matches ≤ 12))
        (some-injective _ p done) (s.0, s.1, m.0, m.1)
