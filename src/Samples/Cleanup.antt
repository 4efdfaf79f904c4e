-- ===== src/Samples/Cleanup.antt =====
-- A cleanup at concrete inputs.
use memknow.Common.{◌≡◌, ◌⊎◌, ◌*◌, ◌↔◌, refl, true, false, List, [], ◌∷◌, Text, codes, text_eq}
use memknow.Cleanup.Removed.{IsDue, member-clean_iff}
use memknow.Cleanup.Service.{CleanupApp, CleanupConfig, clean, normalize_session_type}
use memknow.Manager.Dispatch.{ChannelRow}
use memknow.Recall.Format.{member}
use memknow.Store.Sessions.{fresh_session}
use memknow.Store.Tables.{Session, Status}

abbrev retention : CleanupConfig
retention = record { attachments_retention_days = 7; attachments_max_days = 30 }

abbrev apps : List CleanupApp
apps = record { id = codes "a1"; workspace_dir = codes "/w" } ∷ []

abbrev channels : List (Text × ChannelRow)
channels =
    (
      codes "ch",
      record {
        app_id = codes "a1";
        chat_type = codes "p2p";
        chat_id = codes "oc1";
        thread_id = [];
        updated_at = 0;
      },
    )
    ∷ []

-- One session that is archived for a long time, and one that is in use.
abbrev sessions : List Session
sessions =
    record (fresh_session (codes "s1") (codes "ch") (codes "u1") [] 3) { status = Status.archived }
    ∷ fresh_session (codes "s2") (codes "ch") (codes "u1") [] 90
    ∷ []

abbrev dirs : List Text
dirs = codes "/w/sessions/chat/s1/attachments" ∷ codes "/w/sessions/chat/s2/attachments" ∷ []

clean_test :
    clean (λ c. c) (λ d. true) (λ id. true) 10 100 retention apps channels sessions dirs
    ≡ (codes "/w/sessions/chat/s2/attachments" ∷ [], 1)
unfolding clean text_eq normalize_session_type
clean_test = refl

member-clean_iff_example :
    (member
        (codes "/w/sessions/chat/s1/attachments")
        (clean (λ c. c) (λ d. true) (λ id. true) 10 100 retention apps channels sessions dirs).0
      ≡ true)
    ↔ ((member (codes "/w/sessions/chat/s1/attachments") dirs ≡ true)
        × ((true ≡ false)
            ⊎ ¬ IsDue
                (λ c. c)
                (λ d. true)
                (λ id. true)
                (7 * 10)
                (30 * 10)
                100
                channels
                sessions
                (codes "/w/sessions/chat/s1/attachments")
                apps))
member-clean_iff_example =
    member-clean_iff (λ c. c) (λ d. true) (λ id. true) 10 100 retention apps channels sessions dirs
      (codes "/w/sessions/chat/s1/attachments")
