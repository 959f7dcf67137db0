-- ===== src/Client/Tests.antt =====
-- The client's theorems at small states.
use dreamwell.Common.{
  ℕ, ◌≡◌, ◌↔◌, refl, Bool, true, false, Option, none, some, [], ◌∷◌, map, arith, nat_eq,
}
use dreamwell.Common.Int.{ℤ, pos}
use dreamwell.Common.Decimal.{show_ℤ}
use dreamwell.Queue.Job.{JobStatus}
use dreamwell.Client.Sse.{SseConnectionState, stopped, new}
use dreamwell.Client.Stream.{errored, idled, pausing, run, IsConsistent, run-new}
use dreamwell.Client.Chat.{
  Message, assistant, Chat, messages_need_refetch, refetch_rule, messages_need_refetch_lem,
}
use dreamwell.Client.Display.{messages_display_equivalent, shown, messages_display_equivalent_iff}
use dreamwell.Client.Resume.{visibility, ResumePlanInput}
use dreamwell.Common.{◌≢◌, String, List, opt_map}
use dreamwell.Client.Router.{
  queue, AppRoute, chats_to_path, chats, stories, chapter, basics, new_game, new_chat, variables,
  to_path,
}
use dreamwell.Client.Router.Parse.{parse_path}
use dreamwell.Client.Router.RoundTrip.{parse_path-to_path}
use dreamwell.Client.Router.Settled.{to_path-settles, parse_path-ne-basics}
use dreamwell.Client.Router.Session.{
  Browser, ShowsPath, navigate, popstate, history_back, popstate-history_back,
}
use dreamwell.Client.AutoSave
use dreamwell.Client.AutoSave.{Event, schedule, timer, flush, synced}
use dreamwell.Client.AutoSave.Refines.{view, view-run, flush_pending-finish}

run-new_example : IsConsistent (run (errored ∷ errored ∷ pausing ∷ idled ∷ []) new)
run-new_example = run-new (errored ∷ errored ∷ pausing ∷ idled ∷ [])

abbrev closed : SseConnectionState
closed = record { mode = stopped; attempt = 3; pending_reconnect_ms = none }

abbrev message : ℤ → Bool → Option JobStatus → Message ℕ ℕ ℕ
message id in_summary job_status = record {
  id = id;
  chat_id = pos 1;
  role = assistant;
  content = "Hello";
  thought_content = "";
  thought_duration_ms = none;
  thought_in_progress = false;
  variable_updates = [];
  reply_beats = [];
  state_changes = [];
  generation_phase = "";
  is_summary = false;
  in_summary = in_summary;
  created_at = 10;
  job_status = job_status;
  generation_error = none;
  generation_notice = "";
}

abbrev chat : Chat
chat = record {
  id = pos 1;
  title = "Test";
  character_id = pos 1;
  character_name = "Char";
  summary = "";
  created_at = 10;
  updated_at = 20;
  archived_at = none;
  active_job = none;
  queued_jobs = pos 0;
}

messages_need_refetch_lem_example :
    messages_need_refetch (message (pos 1) false none ∷ []) chat (some 15)
    ≡ refetch_rule none (message (pos 1) false none ∷ []) chat (some 15)
messages_need_refetch_lem_example =
    messages_need_refetch_lem (message (pos 1) false none ∷ []) chat (some 15)

messages_display_equivalent_iff_example :
    (messages_display_equivalent (message (pos 1) false none ∷ []) (message (pos 1) true none ∷ [])
      ≡ true)
    ↔ (map shown (message (pos 1) false none ∷ []) ≡ map shown (message (pos 1) true none ∷ []))
messages_display_equivalent_iff_example =
    messages_display_equivalent_iff (message (pos 1) false none ∷ [])
      (message (pos 1) true none ∷ [])

abbrev returned : ResumePlanInput
returned = record {
  ctx = record { reason = visibility; force = false };
  open_chat_id = some (pos 1);
  open_story_id = none;
  messages_stale = true;
  detail_stale = false;
  local_generation_active = true;
}

parse_path-to_path_example :
    parse_path (to_path (stories (some (pos 3)) (chapter (pos 9)) false (some new_game)))
    ≡ stories (some (pos 3)) (chapter (pos 9)) false (some new_chat)
parse_path-to_path_example =
    parse_path-to_path (stories (some (pos 3)) (chapter (pos 9)) false (some new_game))
      (omega arith, omega arith)

to_path-settles_example :
    to_path (parse_path (to_path (parse_path "/stories/3/reading/basics")))
    ≡ to_path (parse_path "/stories/3/reading/basics")
to_path-settles_example = to_path-settles "/stories/3/reading/basics"

parse_path-ne-basics_example :
    parse_path "/stories/3/basics/variables" ≢ stories (some (pos 3)) basics false (some variables)
parse_path-ne-basics_example =
    parse_path-ne-basics "/stories/3/basics/variables" (some (pos 3)) false variables

-- A window that is its path and the earlier ones.
abbrev go_back : String × List String → String × List String
go_back (path, []) = (path, [])
go_back (path, earlier ∷ entries) = (earlier, entries)

abbrev location : Browser (String × List String)
location = record {
  pathname = λ w. some w.0;
  has_history = λ w. true;
  push_state = λ path w. (path, w.0 ∷ w.1);
  replace_state = λ path w. (path, w.1);
  back = go_back;
}

abbrev location-ShowsPath : ShowsPath location
location-ShowsPath = record {
  pushed = λ path w. refl;
  replaced = λ path w. refl;
  returned = λ path w. refl;
  kept_pushed = λ path w. refl;
  kept_replaced = λ path w. refl;
}

abbrev first_chat : AppRoute
first_chat = chats (some (pos 4)) none

abbrev start : String × List String
start = ("/chats/new", [])

popstate-history_back_example :
    popstate location (
      history_back location
        (navigate location queue true (navigate location first_chat true start).1).1)
    ≡ first_chat
unfolding to_path chats_to_path show_ℤ
popstate-history_back_example =
    popstate-history_back location location-ShowsPath first_chat queue true start "/chats/new" refl
      refl (omega arith) refl

abbrev edits : List (Event ℕ)
edits = schedule 1 ∷ schedule 2 ∷ timer ∷ schedule 3 ∷ []

view-run_example :
    opt_map view (AutoSave.run edits AutoSave.new)
    ≡ some (record { waiting = some 3; ran = 2 ∷ [] })
view-run_example = view-run edits

abbrev edited : AutoSave.AutoSave ℕ
edited = AutoSave.schedule_save 2 AutoSave.new

flush_pending-finish_example :
    (AutoSave.flush_pending_save
        (AutoSave.finish_auto_save {T = ℕ} 7 6 5 edited).1.1.phase
        (AutoSave.finish_auto_save {T = ℕ} 7 6 5 edited).1.1
      ≡ some (AutoSave.finish_auto_save {T = ℕ} 7 6 5 edited).1.1)
    × ((AutoSave.finish_auto_save {T = ℕ} 7 6 5 edited).1.1.phase ≡ synced)
    × ((view (AutoSave.finish_auto_save {T = ℕ} 7 6 5 edited).1.1).waiting ≡ some 2)
unfolding AutoSave.schedule_save AutoSave.new
flush_pending-finish_example = flush_pending-finish 7 6 5 edited 2 refl
