-- ===== src/Cleanup/Sessions.antt =====
-- The loop of cleanApp over the sessions that a query selects.
use memknow.Common.{
  ℕ, suc, ◌≡◌, inl, inr, refl, ap, ◌∙◌, sym, Bool, true, false, not, ◌&&◌, ◌||◌, List, [], ◌∷◌,
  Text, arith, text_eq, text_eq_iff, Memᴰ, Bool-cases,
}
use memknow.Recall.Format.{member}
use memknow.Store.Tables.{Session}
use memknow.Cleanup.Service.{type_text, session_attachments_dir, remove_dir, clean_sessions}

member-remove_dir :
    (d x : Text) (l : List Text) → member d (remove_dir x l) ≡ (member d l && not (text_eq x d))
unfolding member remove_dir
member-remove_dir d x [] = refl
member-remove_dir d x (y ∷ l) =
    ground (arith, member-remove_dir d x l, text_eq_iff y x, text_eq_iff y d, text_eq_iff x d)

module _ (table : ℕ → ℕ) (remove_ok : Text → Bool) where
  module _ (d : Text) (workspace_dir : Text) where
    abbrev pub dir_of : Session → Text
    dir_of s = session_attachments_dir table workspace_dir (type_text s.session_type) s.id

    unfoldable pub has_dir : List Session → Bool
    has_dir [] = false
    has_dir (s ∷ l) = text_eq (dir_of s) d || has_dir l

    pub has_dir_self : (l : List Session) (s : Session) → Memᴰ s l → dir_of s ≡ d → has_dir l ≡ true
    unfolding has_dir
    has_dir_self [] r m e = elim m [ ]
    has_dir_self (s ∷ l) r (Memᴰ.head q) e =
        rw ((text_eq_iff (dir_of s) d).1 (ap dir_of (sym q) ∙ e)) refl
    has_dir_self (s ∷ l) r (Memᴰ.tail m) e = ground (arith, has_dir_self l r m e)

    pub has_dir-some :
        (l : List Session) → has_dir l ≡ true → (s : Session) × Memᴰ s l × (dir_of s ≡ d)
    unfolding has_dir
    has_dir-some [] h = ground arith
    has_dir-some (s ∷ l) h = elim (Bool-cases (text_eq (dir_of s) d)) [
      | inl e ↦ (s, Memᴰ.head refl, (text_eq_iff (dir_of s) d).0 e)
      | inr e ↦ let (r, m, q) = has_dir-some l (ground arith) in (r, Memᴰ.tail m, q)
    ]

    same :
        (s : Session) (dirs : List Text)
        → text_eq (dir_of s) d ≡ true
        → (remove_ok (dir_of s) ≡ remove_ok d) × (member (dir_of s) dirs ≡ member d dirs)
    same s dirs e =
        let q = (text_eq_iff (dir_of s) d).0 e in (ap remove_ok q, ap (λ x. member x dirs) q)

    pub clean_sessions-member :
        (l : List Session) (dirs : List Text) (count : ℕ)
        → member d (clean_sessions table remove_ok workspace_dir l (dirs, count)).0
          ≡ (member d dirs && not (remove_ok d && has_dir l))
    unfolding clean_sessions has_dir
    clean_sessions-member [] dirs count = ground arith
    clean_sessions-member (s ∷ l) dirs count = ground (
      arith,
      clean_sessions-member l dirs count,
      clean_sessions-member l (remove_dir (dir_of s) dirs) (suc count),
      member-remove_dir d (dir_of s) dirs,
      same s dirs,
    )
