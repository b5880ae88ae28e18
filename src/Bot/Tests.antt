-- ===== src/Bot/Tests.antt =====
-- A series of which an episode is about to end in one guild.
use streamly.Prelude.{◌≡◌, refl, true, false, none, some, List, [], ◌∷◌, ◌++◌, All, arith}
use streamly.Prelude.Signed.{pos, negsuc, scale, wrap64, ◌+ℤ◌}
use streamly.Captions.Subtitle.{is_int}
use streamly.Bot.Control.{parse_clock}
use streamly.Prelude.Text.{Text, codes, eq_text}
use streamly.Media.Qualities.{FileQuality, slice_stable}
use streamly.Bot.AutoNext.{AutoNextContext, NextEpisode, AutoNextState, Bot, put}
use streamly.Bot.AutoNext.World.{
  Goroutine, counting, launching, Answers, Event, near_end, moves, presses, step, run, fresh_world,
}
use streamly.Bot.AutoNext.Kept.{IsCurrent}
use streamly.Bot.AutoNext.Reach.{run-IsCurrent}
use streamly.Bot.AutoNext.Silent.{IsWaiting, IsQuiet}
use streamly.Bot.AutoNext.Stopped.{stop-IsQuiet}
use streamly.Bot.AutoNext.Settled.{moves_times, alone, settled, counting-Settles}

abbrev guild : Text
guild = codes "g"

abbrev context : AutoNextContext
context = record {
  show_id = pos 1;
  user_id = codes "u";
  share_key = codes "k";
  season = pos 1;
  episode = pos 2;
  history_value = [];
  channel_id = [];
  voice_channel_id = codes "v";
}

abbrev third : NextEpisode
third = record { fid = pos 7; season = pos 1; episode = pos 3; file_name = codes "E03.mkv" }

abbrev film : FileQuality
film = record { url = codes "http://h/3"; quality = codes "1080p"; name = [] }

abbrev answers : Answers
answers = record {
  timer = true;
  expired = false;
  worker = true;
  sent = some (codes "m");
  channel = codes "c";
  outside = record {
    sort = slice_stable;
    stream_height = 1080;
    channel_found = true;
    qualities = film ∷ [];
    stream_url = λ h. none;
    worker_acquired = true;
    stream_played = true;
    card = true;
  };
}

abbrev nears : Event
nears = near_end guild (some context) true (some third)

abbrev prompt : AutoNextState
prompt = record {
  generation = 1;
  guild_id = guild;
  channel_id = codes "c";
  message_id = codes "m";
  voice_id = codes "v";
  auto = context;
  next = third;
  cancel = 0;
}

-- The prompt's goroutine waits for the slot.
abbrev begun : List Event
begun = nears ∷ moves_times 3 answers

abbrev pressed_button : Text → Event
pressed_button action = presses (codes "autonext" ∷ (action ∷ (guild ∷ [])))

run-IsCurrent_example :
    let w = (run fresh_world (begun)).0 in
    ((guild : Text) (c : AutoNextState) → w.bot.auto_next guild ≡ some c → c.guild_id ≡ guild)
    × All (IsCurrent w.bot) w.goroutines
run-IsCurrent_example = run-IsCurrent begun (omega arith)

begun-pending : (run fresh_world begun).0.bot.auto_next guild ≡ some prompt
unfolding run step put eq_text
begun-pending = refl

begun-IsWaiting : All (IsWaiting prompt) (run fresh_world begun).0.goroutines
unfolding run step put eq_text
begun-IsWaiting = (record {}, record {})

-- Stopped while it waits; its goroutine goes on, and the next episode is offered again.
stop-IsQuiet_example :
    All
      (IsQuiet prompt)
      (run
        (step (run fresh_world begun).0 (pressed_button (codes "stop"))).0
        (moves 0 answers ∷ (moves 0 answers ∷ (nears ∷ moves_times 8 answers)))).1
stop-IsQuiet_example =
    stop-IsQuiet begun (moves 0 answers ∷ (moves 0 answers ∷ (nears ∷ moves_times 8 answers)))
      (pressed_button (codes "stop")) guild prompt (omega arith) begun-pending begun-IsWaiting refl

abbrev offered : Bot
offered = record {
  auto_next = λ g. some prompt;
  auto_next_gen = 1;
  contexts = 1;
  cancelled = λ c. false;
}

counting-Settles_example :
    let r = run (alone offered (counting prompt)) (moves_times 8 answers) in
    (r.0.goroutines ≡ []) × ((r.0.bot.auto_next guild ≡ none) × (r.1 ≡ settled answers prompt))
counting-Settles_example = counting-Settles answers offered prompt refl refl refl

-- "Play Now" pressed twice: both goroutines pass all the tests, one behind the other, so that the
-- episode is going to be started twice.
abbrev pressed_twice : List Event
pressed_twice =
    (nears
      ∷ (moves 0 answers
          ∷ (pressed_button (codes "play")
              ∷ (pressed_button (codes "play") ∷ moves_times 5 answers))))
    ++ (moves 1 answers ∷ moves_times 4 answers)

abbrev LaunchingTwice : List Goroutine → Type 0
LaunchingTwice (launching s ∷ (launching t ∷ l)) = s ≡ t
LaunchingTwice _ = ⊥

pressed_twice-LaunchingTwice : LaunchingTwice (run fresh_world pressed_twice).0.goroutines
unfolding run step put eq_text
pressed_twice-LaunchingTwice = refl

clock_reads : parse_clock (codes "1:05:00") ≡ some (pos 3_900_000_000_000)
unfolding parse_clock is_int scale wrap64 ◌+ℤ◌
clock_reads = refl

-- A position behind 2 ^ 63 nanoseconds is a negative one, so that Seek goes to the start.
clock_wraps : parse_clock (codes "9223372037") ≡ some (negsuc 9_223_372_036_709_551_615)
unfolding parse_clock is_int scale wrap64 ◌+ℤ◌
clock_wraps = refl
