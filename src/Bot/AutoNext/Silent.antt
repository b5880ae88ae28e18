-- ===== src/Bot/AutoNext/Silent.antt =====
-- What one step of a goroutine leaves of a prompt that is no longer pending.
use streamly.Prelude.{
  ℕ, ◌+◌, ◌^◌, ◌≤◌, ◌<◌, ◌≡◌, ◌≢◌, ◌||◌, ap, ◌∙◌, Bool, true, Option, none, some, List, [], ◌∷◌,
  inl, inr, if◌then◌else◌, if_split, Option_split, All, arith, ==_iff,
}
use streamly.Prelude.Text.{Text, is_empty}
use streamly.Bot.AutoNext.Start.{Outside, Started, start_episode, playable_url}
use streamly.Bot.AutoNext.World.{
  Goroutine, offering, counting, trying, waiting, refused, granted, requiring, starting, launching,
  played, failing, Answers, Turn, turn, if_current, launched, spawned,
}
use streamly.Bot.AutoNext.Own.{
  Shrinks, clear-Shrinks, set-cases, numbered-generation, set-auto_next_gen,
}
use streamly.Bot.AutoNext.{
  AutoNextContext, NextEpisode, AutoNextState, Bot, slot_busy, another_stream, no_channel,
  no_source, no_worker, no_voice, Effect, plays, releases, shows_card, disables_prompt,
  is_auto_next_current, set_auto_next_state, prompt_auto_next, fail_auto_next,
  clear_auto_next_state, new_state, prompt_channel, delete_auto_next_message,
}

-- Not past the last test.
abbrev pub IsWaiting : AutoNextState → Goroutine → Type 0
IsWaiting p (launching s) = s.generation ≢ p.generation
IsWaiting p _ = Unit

-- Not the start of the prompt's episode.
abbrev pub IsQuiet : AutoNextState → Effect → Type 0
IsQuiet p (plays s url) = s.generation ≢ p.generation
IsQuiet p _ = Unit

-- The prompt has been one, and none of its generation is pending.
abbrev pub IsGone : AutoNextState → Bot → Type 0
IsGone p b =
    (p.generation ≤ b.auto_next_gen)
    × ((guild : Text) (c : AutoNextState)
        → b.auto_next guild ≡ some c
        → c.generation ≢ p.generation)

abbrev pub IsStill : AutoNextState → ℕ → Turn → Type 0
IsStill p n (b, gs, es) =
    IsGone p b × (All (IsWaiting p) gs × (All (IsQuiet p) es × (b.auto_next_gen ≤ n + 1)))

pub still :
    (p : AutoNextState) (b : Bot) (gs : List Goroutine) (es : List Effect)
    → IsGone p b
    → All (IsWaiting p) gs
    → All (IsQuiet p) es
    → IsStill p b.auto_next_gen (b, gs, es)
still p b gs es gone g e = (gone, (g, (e, omega arith)))

pub Shrinks-IsGone : (p : AutoNextState) (b b' : Bot) → Shrinks b b' → IsGone p b → IsGone p b'
Shrinks-IsGone p b b' (same, sub) (le, gone) =
    (omega (arith, same, le), (λ guild c e. gone guild c (sub guild c e)))

pub shrunk :
    (p : AutoNextState) (b b' : Bot) (gs : List Goroutine) (es : List Effect)
    → Shrinks b b'
    → IsGone p b
    → All (IsWaiting p) gs
    → All (IsQuiet p) es
    → IsStill p b.auto_next_gen (b', gs, es)
shrunk p b b' gs es h gone g e = (Shrinks-IsGone p b b' h gone, (g, (e, omega (arith, h.0))))

-- What passes the test is another prompt.
current-other :
    (p s : AutoNextState) (b : Bot)
    → IsGone p b
    → is_auto_next_current b s ≡ true
    → s.generation ≢ p.generation
unfolding is_auto_next_current
current-other p s b (le, gone) =
    Option_split {A = Bool} (λ t. t ≡ true → s.generation ≢ p.generation) (b.auto_next s.guild_id)
      (λ _ e. absurd (cc e))
      (λ c h e same. gone s.guild_id c h ((==_iff c.generation s.generation).0 e ∙ same))

if_current-IsStill :
    (p s : AutoNextState) (b : Bot) (g : Goroutine)
    → IsGone p b
    → (s.generation ≢ p.generation → IsWaiting p g)
    → IsStill p b.auto_next_gen (if_current b s g)
if_current-IsStill p s b g gone f =
    if_split {A = Turn} (IsStill p b.auto_next_gen) (is_auto_next_current b s)
      (λ e. still p b (g ∷ []) [] gone (f (current-other p s b gone e), record {}) (record {}))
      (λ _. still p b [] [] gone (record {}) (record {}))

set-IsGone :
    (p s : AutoNextState) (b : Bot)
    → b.auto_next_gen + 1 < 2 ^ 64
    → IsGone p b
    → IsGone p (set_auto_next_state b s)
set-IsGone p s b fits (le, gone) = (
  omega (arith, le, set-auto_next_gen b s fits),
  (λ guild c e same. elim (set-cases b s guild c e) [
    | inl (_, h) ↦
        omega (
          arith,
          ap (λ (q : AutoNextState). q.generation) h,
          numbered-generation b s fits,
          same,
          le,
        )
    | inr h ↦ gone guild c h same
  ]),
)

prompt-IsStill :
    (p : AutoNextState) (b : Bot) (guild channel : Text) (auto : AutoNextContext)
    (next : NextEpisode) (sent : Option Text)
    → b.auto_next_gen + 1 < 2 ^ 64
    → IsGone p b
    → IsStill p b.auto_next_gen (spawned counting (prompt_auto_next b guild channel auto next sent))
unfolding prompt_auto_next
prompt-IsStill p b guild channel auto next none fits gone =
    still p b [] [] gone (record {}) (record {})
prompt-IsStill p b guild channel auto next (some message) fits gone =
    let s : AutoNextState = new_state b guild (prompt_channel auto channel) message auto next in
    (
      set-IsGone p s b fits gone,
      ((record {}, record {}), ((record {}, record {}), omega (arith, set-auto_next_gen b s fits))),
    )

pub delete-IsQuiet : (p s : AutoNextState) → All (IsQuiet p) (delete_auto_next_message s)
unfolding delete_auto_next_message
delete-IsQuiet p s =
    if_split {A = List Effect} (All (IsQuiet p)) (is_empty s.channel_id || is_empty s.message_id)
      (λ _. record {}) (λ _. (record {}, record {}))

launched-IsStill :
    (p s : AutoNextState) (b : Bot) (o : Outside)
    → s.generation ≢ p.generation
    → IsGone p b
    → IsStill p b.auto_next_gen (launched b s (start_episode o s))
unfolding start_episode
launched-IsStill p s b o differs gone =
    if_split {A = Started} P o.channel_found
      (λ _.
        Option_split {A = Started} P (playable_url o)
          (λ _. still p b (failing s no_source ∷ []) [] gone (record {}, record {}) (record {}))
          (λ url _.
            if_split {A = Started} P o.worker_acquired
              (λ _.
                if_split {A = Started} P o.stream_played
                  (λ _.
                    still p b (played s ∷ [])
                      (plays s url ∷ (if o.card then shows_card s ∷ [] else [])) gone
                      (record {}, record {}) (differs, card))
                  (λ _.
                    still p b (failing s no_voice ∷ []) (plays s url ∷ (releases ∷ [])) gone
                      (record {}, record {}) (differs, (record {}, record {}))))
              (λ _.
                still p b (failing s no_worker ∷ []) [] gone (record {}, record {}) (record {}))))
      (λ _. still p b (failing s no_channel ∷ []) [] gone (record {}, record {}) (record {}))
  where
    P : Started → Type 0
    P r = IsStill p b.auto_next_gen (launched b s r)

    card : All (IsQuiet p) (if o.card then shows_card s ∷ [] else [])
    card =
        if_split {A = List Effect} (All (IsQuiet p)) o.card (λ _. (record {}, record {}))
          (λ _. record {})

pub turn-IsStill :
    (p : AutoNextState) (a : Answers) (b : Bot) (g : Goroutine)
    → b.auto_next_gen + 1 < 2 ^ 64
    → IsGone p b
    → IsWaiting p g
    → IsStill p b.auto_next_gen (turn a b g)
unfolding turn fail_auto_next
turn-IsStill p a b (offering guild auto next) fits gone h =
    prompt-IsStill p b guild a.channel auto next a.sent fits gone
turn-IsStill p a b (counting s) fits gone h =
    if_split {A = Turn} (IsStill p b.auto_next_gen) a.timer
      (λ _. still p b (trying s ∷ []) [] gone (record {}, record {}) (record {}))
      (λ _.
        if_split {A = Turn} (IsStill p b.auto_next_gen) (b.cancelled s.cancel)
          (λ _. still p b [] [] gone (record {}) (record {}))
          (λ _. still p b (counting s ∷ []) [] gone (record {}, record {}) (record {})))
turn-IsStill p a b (trying s) fits gone h =
    if_current-IsStill p s b (waiting s) gone (λ _. record {})
turn-IsStill p a b (waiting s) fits gone h =
    if_split {A = Turn} (IsStill p b.auto_next_gen) a.expired
      (λ _. still p b (refused s ∷ []) [] gone (record {}, record {}) (record {}))
      (λ _.
        if_split {A = Turn} (IsStill p b.auto_next_gen) a.worker
          (λ _. still p b (granted s ∷ []) [] gone (record {}, record {}) (record {}))
          (λ _. still p b (waiting s ∷ []) [] gone (record {}, record {}) (record {})))
turn-IsStill p a b (refused s) fits gone h =
    if_current-IsStill p s b (failing s slot_busy) gone (λ _. record {})
turn-IsStill p a b (granted s) fits gone h =
    if_current-IsStill p s b (requiring s) gone (λ _. record {})
turn-IsStill p a b (requiring s) fits gone h =
    if_split {A = Turn} (IsStill p b.auto_next_gen) (is_auto_next_current b s)
      (λ _.
        if_split {A = Turn} (IsStill p b.auto_next_gen) a.worker
          (λ _. still p b (starting s ∷ []) [] gone (record {}, record {}) (record {}))
          (λ _.
            still p b (failing s another_stream ∷ []) [] gone (record {}, record {}) (record {})))
      (λ _. still p b [] [] gone (record {}) (record {}))
turn-IsStill p a b (starting s) fits gone h = if_current-IsStill p s b (launching s) gone (λ e. e)
turn-IsStill p a b (launching s) fits gone h = launched-IsStill p s b a.outside h gone
turn-IsStill p a b (played s) fits gone h =
    shrunk p b (clear_auto_next_state b s.guild_id) [] (delete_auto_next_message s)
      (clear-Shrinks b s.guild_id) gone (record {}) (delete-IsQuiet p s)
turn-IsStill p a b (failing s why) fits gone h =
    shrunk p b (clear_auto_next_state b s.guild_id) [] (disables_prompt s why ∷ [])
      (clear-Shrinks b s.guild_id) gone (record {}) (record {}, record {})
