-- ===== src/Samples/Turn.antt =====
-- Samples for a worker's turn, with the schedule service of internal/schedule behind it.
use memknow.Common.{
  if◌then◌else◌, ◌≡◌, ◌⊎◌, Text, refl, map, is_empty, true, false, List, [], ◌∷◌, ◌++◌, none, some,
  codes, arith, join, text_eq, trim_space, has_prefix, index,
}
use memknow.Feishu.Message.{IncomingMessage}
use memknow.Recall.Search.{Engine}
use memknow.Schedule.Manage.{create_from_message, manage_from_message}
use memknow.Schedule.Service.{Service}
use memknow.Store.Active.{IsSingle}
use memknow.Store.Persist.{ExecuteResult, persist_result}
use memknow.Store.Sessions.{fresh_session}
use memknow.Store.Tables.{Store, count_active}
use memknow.Turn.Bracket.{process-IsSingle, process-reactions}
use memknow.Turn.Chat.{Chat, Outcome, Outgoing, Outside}
use memknow.Turn.Commands.{handle_built_in_commands, handle_mode_command, parse_mode_command}
use memknow.Turn.Execution.{Live, final_text, finish_and_send_result, recover}
use memknow.Turn.Process.{process}
use memknow.Turn.Prompt.{Prepared, prepare_with}
use memknow.Turn.Recovery.{
  Attached, acknowledged, prompt_of, prepare_all, finish_and_send_result-answers,
  prepare_with-attachments,
}
use memknow.Turn.SecondTry.{IsSecond, answer_to, error_reply}
use memknow.Worker.Attachments.{is_attachment_only, strip, strip_attachments, strip_loop}

abbrev done : ExecuteResult
done = record {
  text = codes "ok";
  claude_session_id = codes "c1";
  has_cost = false;
  reasoning = [];
  tool_uses = [];
  input_tokens = 3;
  output_tokens = 1;
  cache_read_tokens = 0;
  cache_write_tokens = 0;
  model = codes "m";
  finish_reason = codes "stop";
}

-- A database that answers every query, and a full text index that finds the rows of the user.
abbrev pub engine : Engine
engine = record {
  tied_messages = λ l. l;
  tied_summaries = λ l. l;
  summaries_ok = true;
  like_ok = true;
  hits_ok = true;
  index_ok = λ q. true;
  ranked = λ q l. l;
  index_match =
      λ q m. if text_eq m.sender_id (codes "u1") then some (codes ">>>deploy<<< now") else none;
  title_text = λ title. title;
  arrange = λ l. l;
  table = λ c. c;
  is_han = λ c. false;
  clock = λ t. [];
  day = λ t. [];
}

-- A language model that answers "ok", and a database that takes every write.
abbrev outside : Outside
outside = record {
  channel_key = codes "ch";
  uuid = λ n. n ∷ [];
  write_ok = λ n. true;
  attach_dir = λ id. codes "/w";
  fresh = λ prefix n. n ∷ [];
  rename = λ a b. true;
  text_ok = λ n. true;
  thinking_id = λ n. codes "card";
  update_ok = λ n. true;
  execute = λ n r. record { events = []; ended_at = 9; outcome = Outcome.finished (some done) };
  has_summarizer = true;
  summarizer = record {
    apps = [];
    execute = λ r. some (codes "sum");
    read_ok = true;
    tied = λ l. l;
  };
  has_retriever = true;
  engine = engine;
  memories = λ prompt. [];
  probe_enabled = true;
  set_mode = λ mode. none;
  has_schedules = true;
  create_by_message = λ s msg.
      create_from_message (λ c. c) (λ t. none) (λ t. none) (λ t. none) (λ t. true) (λ n. n ∷ [])
        (λ n. true) s (codes "a") msg 5;
  manage_by_message = λ s msg.
      manage_from_message (λ c. c) (λ t. none) (λ t. none) (λ t. none) (λ t. true) (λ n. n ∷ [])
        (λ n. true) s (codes "a") msg 5 true;
  error_text = codes "e";
  table = λ c. c;
  decode = λ t. none;
}

abbrev pub tables : Store
tables = record {
  sessions = fresh_session (codes "s1") (codes "ch") (codes "u1") [] 3 ∷ [];
  messages = [];
  tool_calls = [];
  summaries = [];
  interactive = [];
  drawn = 0;
  writes = 0;
}

abbrev schedules : Service
schedules = record {
  rows = [];
  jobs = [];
  system_jobs = [];
  scheduler = [];
  next_job = 0;
  drawn = 0;
  writes = 0;
}

abbrev conversation : Chat
conversation = record {
  store = tables;
  schedules = schedules;
  pending_attachment_prompts = [];
  workspace_mode = codes "work";
  outbox = [];
  cards = [];
  runs = 0;
  thinking = 0;
}

abbrev hello_message : IncomingMessage
hello_message = record {
  message_id = codes "om1";
  app_id = codes "a";
  channel_key = codes "ch";
  chat_type = codes "p2p";
  chat_id = codes "oc1";
  thread_id = [];
  mentions_me = false;
  replies_to_me = false;
  names_me = false;
  sender_id = codes "u1";
  prompt = codes "hi";
  receive_id = codes "oc1";
  receive_type = codes "chat_id";
}

tables-IsSingle : IsSingle tables
unfolding count_active
tables-IsSingle key = ground arith

process-IsSingle_example : IsSingle (process outside conversation hello_message 5 true).store
process-IsSingle_example =
    process-IsSingle outside (λ n. refl) conversation hello_message 5 true tables-IsSingle

-- A database that refuses every write: the session of a new channel cannot be made.
abbrev refusing : Outside
refusing = record outside { write_ok = λ n. false }

process-reactions_example :
    let fresh : Chat = record conversation { store = record tables { sessions = [] } } in
    (sent : List Outgoing) × ((process refusing fresh hello_message 5 true).outbox
      ≡ []
        ++ Outgoing.reaction_added (codes "om1")
          ∷ (sent ++ Outgoing.reaction_done (codes "om1") ∷ []))
process-reactions_example =
    process-reactions refusing (record conversation { store = record tables { sessions = [] } })
      hello_message 5 true
      (unfold handle_built_in_commands handle_mode_command parse_mode_command trim_space text_eq
          has_prefix in
        refl)

abbrev live : Live
live = record { chat = conversation; card_msg_id = codes "card"; streamer = none }

finish_and_send_result-answers_example :
    let sess = fresh_session (codes "s1") (codes "ch") (codes "u1") [] 3 in
    let r : ExecuteResult = record done { text = [] } in
    let sent =
      (finish_and_send_result outside live sess hello_message
        (some r)
        (codes "hi")
        7
        true).outbox in
    let stored = persist_result (λ n. n ∷ []) (λ n. true) conversation.store sess r 7 in
    let again =
      (recover outside
        (record conversation { store = stored })
        sess
        hello_message
        (codes "hi")
        7
        true).1 in
    ((is_empty r.text ≡ false)
      × (sent
          ≡ []
            ++ answer_to hello_message (codes "card") (final_text outside (codes "card") none r)
              ∷ []))
    ⊎ (((is_empty r.text ≡ true) × (true ≡ false) × (sent ≡ []))
        ⊎ ((is_empty r.text ≡ true)
            × (true ≡ true)
            × ((body : Text) × (sent ≡ [] ++ answer_to hello_message (codes "card") body ∷ [])
                × (((again ≡ some body) × IsSecond outside (codes "hi") body)
                    ⊎ ((again ≡ none) × (body ≡ error_reply outside))))))
finish_and_send_result-answers_example =
    finish_and_send_result-answers outside live
      (fresh_session (codes "s1") (codes "ch") (codes "u1") [] 3) hello_message
      (record done { text = [] }) (codes "hi") 7 true

-- A picture and a file, sent one after the other.
abbrev picture : Attached
picture = record {
  message = record hello_message { message_id = codes "om0" };
  session = fresh_session (codes "s1") (codes "ch") (codes "u1") [] 3;
  prompt = codes "[图片: /a]";
  at = 5;
}

abbrev document : Attached
document = record picture {
  message = record hello_message { message_id = codes "om00"; sender_id = codes "u2" };
  prompt = codes "[文件: /b]";
}

prepare_with-attachments_example :
    let (c', went_on) = prepare_all outside conversation (picture ∷ document ∷ []) in
    let (c'', p) = prepare_with outside c' hello_message picture.session (codes "hi") 6 in
    (went_on ≡ false)
    × (c'.outbox ≡ [] ++ map acknowledged (picture ∷ document ∷ []))
    × (c''.pending_attachment_prompts ≡ [])
    × ((q : Prepared) × (p ≡ some q)
        × (q.original_prompt
            ≡ join ([] ++ map prompt_of (picture ∷ document ∷ [])) (codes "\n")
              ++ (codes "\n" ++ codes "hi")))
unfolding is_attachment_only strip_attachments strip strip_loop index has_prefix trim_space
prepare_with-attachments_example =
    prepare_with-attachments outside conversation picture (document ∷ []) hello_message
      picture.session (codes "hi") 6 (refl, (refl, tt)) refl
