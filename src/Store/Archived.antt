-- ===== src/Store/Archived.antt =====
-- What the update by which /new archives does to the rows.
use memknow.Common.{
  ℕ, ◌≡◌, ◌≢◌, ◌⊎◌, inl, inr, refl, ap, true, false, List, [], ◌∷◌, Text, arith, text_eq,
  text_eq_iff, Bool-cases,
}
use memknow.Store.Tables.{Session, Status, active, archived, is_active, is_active_in, archive_all}

-- Row by row: the active sessions of the channel are archived, and no other row is touched.
abbrev pub Archives : Text → ℕ → List Session → List Session → Type 0
Archives key now [] [] = Unit {0}
Archives key now (a ∷ l) (b ∷ k) =
    ((((a.channel_key ≢ key) ⊎ (a.status ≡ archived)) × (b ≡ a))
      ⊎ ((a.channel_key ≡ key)
          × (a.status ≡ active)
          × (b ≡ record a { status = archived; updated_at = now })))
    × Archives key now l k
Archives key now _ _ = ⊥

Status-cases : (t : Status) → (t ≡ active) ⊎ (t ≡ archived)
Status-cases active = inl refl
Status-cases archived = inr refl

pub archive_all-Archives :
    (key : Text) (now : ℕ) (l : List Session) → Archives key now l (archive_all key now l)
unfolding archive_all
archive_all-Archives key now [] = tt
archive_all-Archives key now (s ∷ l) = (
  elim (Bool-cases (text_eq s.channel_key key)) [
    | inr e ↦ inl (inl (λ q. cc (e, (text_eq_iff s.channel_key key).1 q)), rw e refl)
    | inl e ↦ elim (Status-cases s.status) [
      | inr q ↦
          let test : is_active_in key s ≡ false = ground (arith, ap is_active q) in
          inl (inr q, rw test refl)
      | inl q ↦
          let test : is_active_in key s ≡ true = ground (arith, e, ap is_active q) in
          inr ((text_eq_iff s.channel_key key).0 e, q, rw test refl)
    ]
  ],
  archive_all-Archives key now l,
)
