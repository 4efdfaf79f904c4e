-- ===== src/Cleanup/Counted.antt =====
-- The number that a pass of internal/cleanup/service.go logs.
use memknow.Common.{
  ℕ, suc, ◌+◌, ◌*◌, ◌≡◌, ◌≢◌, refl, sym, subst, Bool, true, not, List, [], ◌∷◌, Text, arith,
  text_eq, text_eq_iff, length, All, AllPairs, if_cases, if_keeps,
}
use memknow.Manager.Dispatch.{ChannelRow}
use memknow.Recall.Format.{member}
use memknow.Store.Tables.{Session}
use memknow.Cleanup.Service.{
  CleanupApp, CleanupConfig, type_text, session_attachments_dir, stale_sessions, remove_dir,
  clean_sessions, clean_app, clean_apps, clean,
}

All-remove_dir {κ} :
    (P : Text → Type κ) (d : Text) (l : List Text) → All P l → All P (remove_dir d l)
unfolding remove_dir
All-remove_dir P d [] h = h
All-remove_dir P d (x ∷ l) (p, h) =
    if_keeps (All P) (text_eq x d) _ _ (All-remove_dir P d l h) (p, All-remove_dir P d l h)

-- A directory that is not there.
remove_absent : (d : Text) (l : List Text) → All (λ x. d ≢ x) l → length (remove_dir d l) ≡ length l
unfolding remove_dir
remove_absent d [] h = refl
remove_absent d (x ∷ l) (n, h) =
    if_cases (λ (r : List Text). length r ≡ suc (length l)) (text_eq x d) (remove_dir d l)
      (x ∷ remove_dir d l) (λ e. elim (n (sym ((text_eq_iff x d).0 e))) [ ])
      (λ e. omega (arith, remove_absent d l h))

remove_present :
    (d : Text) (l : List Text)
    → AllPairs (λ x y. x ≢ y) l
    → member d l ≡ true
    → suc (length (remove_dir d l)) ≡ length l
unfolding remove_dir member
remove_present d [] h m = ground arith
remove_present d (x ∷ l) (n, h) m =
    if_cases (λ (r : List Text). suc (length r) ≡ suc (length l)) (text_eq x d) (remove_dir d l)
      (x ∷ remove_dir d l)
      (λ e.
        omega
          (arith, remove_absent d l (subst (λ z. All (λ y. z ≢ y) l) ((text_eq_iff x d).0 e) n)))
      (λ e. omega (arith, remove_present d l h (ground arith)))

AllPairs-remove_dir :
    (d : Text) (l : List Text)
    → AllPairs (λ x y. x ≢ y) l
    → AllPairs (λ x y. x ≢ y) (remove_dir d l)
unfolding remove_dir
AllPairs-remove_dir d [] h = h
AllPairs-remove_dir d (x ∷ l) (n, h) =
    if_keeps (AllPairs (λ x y. x ≢ y)) (text_eq x d) _ _ (AllPairs-remove_dir d l h)
      (All-remove_dir (λ y. x ≢ y) d l n, AllPairs-remove_dir d l h)

-- The directories are different, and those left and those counted are as many as `total`.
abbrev IsCounted : ℕ → List Text × ℕ → Type 0
IsCounted total t = AllPairs (λ x y. x ≢ y) t.0 × (t.1 + length t.0 ≡ total)

module _ (table : ℕ → ℕ) (remove_ok : Text → Bool) where
  clean_sessions-IsCounted :
      (total : ℕ) (workspace_dir : Text) (l : List Session) (t : List Text × ℕ)
      → IsCounted total t
      → IsCounted total (clean_sessions table remove_ok workspace_dir l t)
  unfolding clean_sessions
  clean_sessions-IsCounted total w [] t h = h
  clean_sessions-IsCounted total w (s ∷ l) (dirs, n) h =
      let d = session_attachments_dir table w (type_text s.session_type) s.id in
      let kept = clean_sessions-IsCounted total w l (dirs, n) h in
      if_cases (IsCounted total) (not (member d dirs)) _ _ (λ e. kept)
        (λ here.
          if_keeps (IsCounted total) (remove_ok d) _ _
            (clean_sessions-IsCounted total w l (remove_dir d dirs, suc n)
              (
                AllPairs-remove_dir d dirs h.0,
                omega (arith, h.1, remove_present d dirs h.0 (ground arith)),
              ))
            kept)

  module _ (query_ok : Text → Bool) (retention max_age now : ℕ)
      (channels : List (Text × ChannelRow)) (sessions : List Session) where
    clean_apps-IsCounted :
        (total : ℕ) (apps : List CleanupApp) (t : List Text × ℕ)
        → IsCounted total t
        → IsCounted total
            (clean_apps table remove_ok query_ok retention max_age now channels sessions apps t)
    unfolding clean_apps clean_app
    clean_apps-IsCounted total [] t h = h
    clean_apps-IsCounted total (app ∷ apps) t h =
        clean_apps-IsCounted total apps
          (clean_app table remove_ok query_ok retention max_age now channels sessions app t)
          (if_keeps (IsCounted total) (query_ok app.id)
            (clean_sessions table remove_ok app.workspace_dir
              (stale_sessions retention max_age now channels app.id sessions) t)
            t
            (clean_sessions-IsCounted total app.workspace_dir
              (stale_sessions retention max_age now channels app.id sessions) t h)
            h)

-- The number that a pass logs is that of the directories that are gone: with those left it makes
-- up all that were there, whatever fails.
pub clean_count :
    (table : ℕ → ℕ) (remove_ok query_ok : Text → Bool) (day now : ℕ) (cfg : CleanupConfig)
    (apps : List CleanupApp) (channels : List (Text × ChannelRow)) (sessions : List Session)
    (dirs : List Text)
    → AllPairs (λ x y. x ≢ y) dirs
    → let r = clean table remove_ok query_ok day now cfg apps channels sessions dirs in
      r.1 + length r.0 ≡ length dirs
unfolding clean
clean_count table remove_ok query_ok day now cfg apps channels sessions dirs h =
    (clean_apps-IsCounted table remove_ok query_ok (cfg.attachments_retention_days * day)
      (cfg.attachments_max_days * day) now channels sessions (length dirs) apps (dirs, 0)
      (h, omega arith)).1
