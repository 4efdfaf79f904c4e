-- ===== src/Samples/Heartbeat.antt =====
-- The heartbeat at concrete inputs.
use memknow.Common.{◌≡◌, refl, true, List, [], ◌∷◌, ◌++◌, some, Text, codes, if◌then◌else◌, text_eq}
use memknow.Heartbeat.Loops.{Op, IsKept, perform_all, fresh_loops, perform_all-IsKept}
use memknow.Heartbeat.Run.{has_prompt, run_once-sessions}
use memknow.Heartbeat.Service.{
  HeartbeatConfig, HeartTables, heartbeat_channel_key, heartbeat_session, run_once,
}
use memknow.Schedule.Runs.{answered, shut}

abbrev config : HeartbeatConfig
config = record {
  enabled = true;
  interval_minutes = 30;
  notify_target_type = codes "p2p";
  notify_target_id = codes "oc1";
}

abbrev apps : List Text
apps = codes "a1" ∷ codes "a2" ∷ []

abbrev empty_tables : HeartTables
empty_tables = record {
  sessions = [];
  channels = [];
  interactive = [];
  replies = [];
  drawn = 0;
  writes = 0;
}

stop_test :
    (perform_all fresh_loops
      (Op.starts config apps ∷ Op.starts config apps ∷ Op.stops ∷ [])).cancelled
    ≡ 1 ∷ 0 ∷ []
unfolding perform_all text_eq
stop_test = refl

perform_all-IsKept_example :
    IsKept (perform_all fresh_loops (Op.starts config apps ∷ Op.restarts config apps ∷ []))
perform_all-IsKept_example =
    perform_all-IsKept (Op.starts config apps ∷ Op.restarts config apps ∷ [])

run_once-sessions_example :
    let t =
      run_once
        (λ n. n ∷ [])
        (λ n. true)
        (λ l. l)
        config
        (λ id prompt. answered (codes "ok"))
        empty_tables
        (codes "a1")
        (some (codes "Check the mail."))
        true
        true
        9 in
    let fresh = heartbeat_session (0 ∷ []) (heartbeat_channel_key (codes "a1")) 9 in
    t.sessions
    ≡ (if has_prompt (some (codes "Check the mail.")) then [] ++ shut 9 fresh ∷ [] else [])
run_once-sessions_example =
    run_once-sessions (λ n. n ∷ []) (λ n. true) (λ l. l) config (λ n. refl)
      (λ id prompt. answered (codes "ok")) empty_tables (codes "a1")
      (some (codes "Check the mail.")) true true 9 tt
