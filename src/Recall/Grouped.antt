-- ===== src/Recall/Grouped.antt =====
-- What the matches of a search look like when they are put together by session.
use memknow.Common.{
  ℕ, ◌≤◌, ◌≡◌, ◌≢◌, inl, inr, refl, true, false, List, [], ◌∷◌, ◌++◌, Text, text_eq, text_eq_iff,
  is_empty, leb, ◌==◌, ◌||◌, length, length-append, lookup, length-insert_new, length-insert_old,
  arith, Memᴰ, All, AllPairs, All-weaken, All-append, All-self, All-insert, All-lookup, KeysDiffer,
  insert-KeysDiffer, Bool-cases, Option-cases, if_cases, if_keeps,
}
use memknow.Recall.Matches.{SearchMatch}
use memknow.Recall.Format.{
  Group, member, group_id, fresh_group, non_empty, item_key, add_item, group_match, group_all,
  group_matches_by_session,
}

module _ (table : ℕ → ℕ) (max_items : ℕ) where
  abbrev pub KeyDiffers : SearchMatch → SearchMatch → Type 0
  KeyDiffers m n = item_key table m ≢ item_key table n

  -- The entry of a session: at most so many items, matches of the session whose texts differ, and
  -- the texts seen are theirs.
  pub record IsGroup (all : List SearchMatch) (e : Text × Group) : Type 0 where
    pub few : length e.1.items ≤ max_items
    pub own : All (λ m. Memᴰ m all × (group_id m ≡ e.0)) e.1.items
    pub apart : AllPairs KeyDiffers e.1.items
    seen : All (λ m. member (item_key table m) e.1.seen ≡ true) e.1.items

  AllPairs-snoc :
      (l : List SearchMatch) (m : SearchMatch)
      → All (λ n. KeyDiffers n m) l
      → AllPairs KeyDiffers l
      → AllPairs KeyDiffers (l ++ m ∷ [])
  AllPairs-snoc [] m h g = (tt, tt)
  AllPairs-snoc (n ∷ l) m h g =
      (All-append (KeyDiffers n) l (m ∷ []) g.0 (h.0, tt), AllPairs-snoc l m h.1 g.1)

  unseen :
      (seen : List Text) (m n : SearchMatch)
      → member (item_key table m) seen ≡ false
      → member (item_key table n) seen ≡ true
      → KeyDiffers n m
  unseen seen m n h g e = cc

  seen_more : (t k : Text) (seen : List Text) → member t seen ≡ true → member t (k ∷ seen) ≡ true
  unfolding member
  seen_more t k seen h = elim (Bool-cases (text_eq k t)) [ inl e ↦ rw e refl | inr e ↦ rw e h ]

  seen_self : (k : Text) (seen : List Text) → member k (k ∷ seen) ≡ true
  unfolding member
  seen_self k seen = rw ((text_eq_iff k k).1 refl) refl

  add_item-IsGroup :
      (all : List SearchMatch) (sid : Text) (g : Group) (m : SearchMatch)
      → Memᴰ m all
      → group_id m ≡ sid
      → IsGroup all (sid, g)
      → IsGroup all (sid, add_item table max_items g m)
  unfolding add_item
  add_item-IsGroup all sid g m mem at h =
      if_cases (λ x. IsGroup all (sid, x)) (leb max_items (length g.items)) _ _ (λ _. h)
        (λ room.
          if_cases (λ x. IsGroup all (sid, x)) (is_empty (item_key table m)) _ _ (λ _. h)
            (λ _.
              if_cases (λ x. IsGroup all (sid, x)) (member (item_key table m) g.seen) _ _ (λ _. h)
                (λ new. record {
                  few = rw (length-append g.items (m ∷ [])) (ground arith);
                  own =
                      All-append (λ n. Memᴰ n all × (group_id n ≡ sid)) g.items (m ∷ []) h.own
                        ((mem, at), tt);
                  apart =
                      AllPairs-snoc g.items m
                        (All-weaken (λ n. member (item_key table n) g.seen ≡ true)
                          (λ n. KeyDiffers n m) g.items (λ n. unseen g.seen m n new) h.seen)
                        h.apart;
                  seen =
                      All-append (λ n. member (item_key table n) (item_key table m ∷ g.seen) ≡ true)
                        g.items (m ∷ [])
                        (All-weaken (λ n. member (item_key table n) g.seen ≡ true)
                          (λ n. member (item_key table n) (item_key table m ∷ g.seen) ≡ true)
                          g.items (λ n. seen_more (item_key table n) (item_key table m) g.seen)
                          h.seen)
                        (seen_self (item_key table m) g.seen, tt);
                })))

  fresh-IsGroup :
      (all : List SearchMatch) (sid : Text) (m : SearchMatch) → IsGroup all (sid, fresh_group m)
  fresh-IsGroup all sid m = record { few = omega arith; own = tt; apart = tt; seen = tt }

  module _ (max_sessions : ℕ) where
    record IsGrouped (all : List SearchMatch) (groups : List (Text × Group)) : Type 0 where
      number : length groups ≤ max_sessions
      keys : KeysDiffer groups
      each : All (IsGroup all) groups

    group_match-IsGrouped :
        (all : List SearchMatch) (groups : List (Text × Group)) (m : SearchMatch)
        → Memᴰ m all
        → IsGrouped all groups
        → IsGrouped all (group_match table max_sessions max_items groups m)
    unfolding group_match
    group_match-IsGrouped all groups m mem h =
        let sid = group_id m in
        elim (Option-cases (lookup sid groups)) [
          | inl e ↦
              rw (e, group_match)
                (if_cases (IsGrouped all) (leb max_sessions (length groups)) _ _ (λ _. h)
                  (λ room. record {
                    number =
                        rw
                          (length-insert_new sid (add_item table max_items (fresh_group m) m) groups
                            e)
                          (ground arith);
                    keys = insert-KeysDiffer sid _ groups h.keys;
                    each =
                        All-insert (IsGroup all) sid _ groups
                          (add_item-IsGroup all sid (fresh_group m) m mem refl
                            (fresh-IsGroup all sid m))
                          h.each;
                  }))
          | inr (g, e) ↦
              rw (e, group_match)
                (record {
                  number =
                      rw (length-insert_old sid (add_item table max_items g m) g groups e) h.number;
                  keys = insert-KeysDiffer sid _ groups h.keys;
                  each =
                      All-insert (IsGroup all) sid _ groups
                        (add_item-IsGroup all sid g m mem refl
                          (All-lookup (IsGroup all) sid g groups h.each e))
                        h.each;
                })
        ]

    group_all-IsGrouped :
        (all : List SearchMatch) (groups : List (Text × Group)) (l : List SearchMatch)
        → All (λ m. Memᴰ m all) l
        → IsGrouped all groups
        → IsGrouped all (group_all table max_sessions max_items groups l)
    unfolding group_all
    group_all-IsGrouped all groups [] mem h = h
    group_all-IsGrouped all groups (m ∷ l) mem h =
        group_all-IsGrouped all (group_match table max_sessions max_items groups m) l mem.1
          (group_match-IsGrouped all groups m mem.0 h)

-- A group with something to show.
abbrev pub HasItem : Text × Group → Type 0
HasItem e = 1 ≤ length e.1.items

length-non_empty : (l : List (Text × Group)) → length (non_empty l) ≤ length l
unfolding non_empty
length-non_empty [] = omega arith
length-non_empty ((sid, g) ∷ l) = ground (arith, length-non_empty l)

module _ {κ} (P : Text × Group → Type κ) where
  non_empty-All : (l : List (Text × Group)) → All P l → All P (non_empty l)
  unfolding non_empty
  non_empty-All [] h = tt
  non_empty-All ((sid, g) ∷ l) h =
      if_keeps (All P) (length g.items == 0) _ _ (non_empty-All l h.1) (h.0, non_empty-All l h.1)

non_empty-HasItem : (l : List (Text × Group)) → All HasItem (non_empty l)
unfolding non_empty
non_empty-HasItem [] = tt
non_empty-HasItem ((sid, g) ∷ l) =
    if_cases (All HasItem) (length g.items == 0) _ _ (λ _. non_empty-HasItem l)
      (λ e. (ground arith, non_empty-HasItem l))

non_empty-KeysDiffer : (l : List (Text × Group)) → KeysDiffer l → KeysDiffer (non_empty l)
unfolding non_empty
non_empty-KeysDiffer [] h = tt
non_empty-KeysDiffer ((sid, g) ∷ l) h =
    if_keeps KeysDiffer (length g.items == 0) _ _ (non_empty-KeysDiffer l h.1)
      (non_empty-All (λ e. sid ≢ e.0) l h.0, non_empty-KeysDiffer l h.1)

-- The matches are shown in at most `max_sessions` groups with different sessions, each with at
-- least one and at most `max_items` matches, all of them matches of the group's session with
-- different texts.
pub group_matches_by_session-IsGrouped :
    (table : ℕ → ℕ) (all : List SearchMatch) (max_sessions max_items : ℕ)
    → let groups = group_matches_by_session table all max_sessions max_items in
      (length groups ≤ max_sessions)
      × KeysDiffer groups
      × All HasItem groups
      × All (IsGroup table max_items all) groups
unfolding group_matches_by_session
group_matches_by_session-IsGrouped table all max_sessions max_items =
    let inv =
      group_all-IsGrouped table max_items max_sessions all [] all (All-self all)
        (record { number = omega arith; keys = tt; each = tt }) in
    let groups = group_all table max_sessions max_items [] all in
    if_keeps
      (λ gs.
        (length gs ≤ max_sessions)
        × KeysDiffer gs
        × All HasItem gs
        × All (IsGroup table max_items all) gs)
      (max_sessions == 0 || max_items == 0 || length all == 0) _ _ (omega arith, tt, tt, tt)
      (
        omega (arith, length-non_empty groups, inv.number),
        non_empty-KeysDiffer groups inv.keys,
        non_empty-HasItem groups,
        non_empty-All (IsGroup table max_items all) groups inv.each,
      )
