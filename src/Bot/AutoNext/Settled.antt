-- ===== src/Bot/AutoNext/Settled.antt =====
-- What becomes of a prompt that nothing interrupts.
use streamly.Prelude.{
  ℕ, zero, suc, ◌≡◌, refl, sym, ap, ◌∙◌, Bool, true, false, ◌||◌, none, some, List, [], ◌∷◌, ◌++◌,
  inl, inr, if◌then◌else◌, Bool-cases, append-nil, ==_iff, arith,
}
use streamly.Bot.AutoNext.Start.{Started, started, failed, start_episode}
use streamly.Bot.AutoNext.World.{
  Goroutine, counting, trying, waiting, refused, granted, requiring, starting, launching, played,
  failing, Answers, turn, launched, World, Event, moves, turn_at, step, run,
}
use streamly.Bot.AutoNext.Own.{clear-none}
use streamly.Bot.AutoNext.{
  AutoNextState, Bot, Failure, slot_busy, Effect, disables_prompt, is_auto_next_current,
  clear_auto_next_state, delete_auto_next_message, fail_auto_next,
}

-- The first goroutine's steps, all with the same answers.
abbrev pub moves_times : ℕ → Answers → List Event
moves_times zero a = []
moves_times (suc n) a = moves 0 a ∷ moves_times n a

abbrev pub alone : Bot → Goroutine → World
alone b g = record { bot = b; goroutines = g ∷ [] }

abbrev pub over : Bot → World
over b = record { bot = b; goroutines = [] }

-- What the attempt comes to: the prompt is deleted behind an episode that started, and says why
-- one did not.
abbrev pub outcome : AutoNextState → Started → List Effect
outcome s (started es) = es ++ delete_auto_next_message s
outcome s (failed es why) = es ++ (disables_prompt s why ∷ [])

abbrev pub settled : Answers → AutoNextState → List Effect
settled a s =
    if a.expired then disables_prompt s slot_busy ∷ [] else outcome s (start_episode a.outside s)

pending-current :
    (b : Bot) (s : AutoNextState)
    → b.auto_next s.guild_id ≡ some s
    → is_auto_next_current b s ≡ true
unfolding is_auto_next_current
pending-current b s e = rw (e, is_auto_next_current) ((==_iff s.generation s.generation).1 refl)

idle-run : (n : ℕ) (a : Answers) (b : Bot) → run (over b) (moves_times n a) ≡ (over b, [])
unfolding run step turn_at
idle-run zero a b = refl
idle-run (suc n) a b = rw (idle-run n a b) refl

-- One step of a goroutine that is alone and goes on as another one.
moves-on :
    (n : ℕ) (a : Answers) (b : Bot) (g g' : Goroutine) (es : List Effect)
    → turn a b g ≡ (b, g' ∷ [], es)
    → run (alone b g) (moves_times (suc n) a)
      ≡ ((run (alone b g') (moves_times n a)).0, es ++ (run (alone b g') (moves_times n a)).1)
unfolding run step turn_at
moves-on n a b g g' es e = rw e refl

moves-off :
    (n : ℕ) (a : Answers) (b b' : Bot) (g : Goroutine) (es : List Effect)
    → turn a b g ≡ (b', [], es)
    → run (alone b g) (moves_times (suc n) a) ≡ (over b', es)
unfolding run step turn_at
moves-off n a b b' g es e = rw (e, idle-run n a b') (ap (λ x. (over b', x)) (append-nil es))

module _ (a : Answers) (b : Bot) (s : AutoNextState) where
  leads :
      (n : ℕ) (g g' : Goroutine)
      → turn a b g ≡ (b, g' ∷ [], [])
      → run (alone b g) (moves_times (suc n) a) ≡ run (alone b g') (moves_times n a)
  leads n g g' e = moves-on n a b g g' [] e

  counted : a.timer ≡ true → turn a b (counting s) ≡ (b, trying s ∷ [], [])
  unfolding turn
  counted e = rw e refl

  passes :
      (g g' : Goroutine)
      → turn a b g ≡ (if is_auto_next_current b s then (b, g' ∷ [], []) else (b, [], []))
      → is_auto_next_current b s ≡ true
      → turn a b g ≡ (b, g' ∷ [], [])
  passes g g' e c = e ∙ (rw c refl)

  module _ (current : is_auto_next_current b s ≡ true) where
    tried : turn a b (trying s) ≡ (b, waiting s ∷ [], [])
    unfolding turn
    tried = passes (trying s) (waiting s) refl current

    refusing : turn a b (refused s) ≡ (b, failing s slot_busy ∷ [], [])
    unfolding turn
    refusing = passes (refused s) (failing s slot_busy) refl current

    granting : turn a b (granted s) ≡ (b, requiring s ∷ [], [])
    unfolding turn
    granting = passes (granted s) (requiring s) refl current

    launching_next : turn a b (starting s) ≡ (b, launching s ∷ [], [])
    unfolding turn
    launching_next = passes (starting s) (launching s) refl current

    required : a.worker ≡ true → turn a b (requiring s) ≡ (b, starting s ∷ [], [])
    unfolding turn
    required w = rw (current, w) refl

  slot_refused : a.expired ≡ true → turn a b (waiting s) ≡ (b, refused s ∷ [], [])
  unfolding turn
  slot_refused e = rw e refl

  slot_granted :
      a.expired ≡ false → a.worker ≡ true → turn a b (waiting s) ≡ (b, granted s ∷ [], [])
  unfolding turn
  slot_granted e w = rw (e, w) refl

  failed_turn :
      (why : Failure)
      → turn a b (failing s why)
        ≡ (clear_auto_next_state b s.guild_id, [], disables_prompt s why ∷ [])
  unfolding turn fail_auto_next
  failed_turn why = refl

  played_turn :
      turn a b (played s) ≡ (clear_auto_next_state b s.guild_id, [], delete_auto_next_message s)
  unfolding turn
  played_turn = refl

  launched_run :
      (n : ℕ) (r : Started)
      → start_episode a.outside s ≡ r
      → run (alone b (launching s)) (moves_times (suc (suc n)) a)
        ≡ (over (clear_auto_next_state b s.guild_id), outcome s r)
  unfolding turn
  launched_run n (started es) e =
      moves-on (suc n) a b (launching s) (played s) es (ap (launched b s) e)
      ∙ (ap (λ (r : World × List Effect). (r.0, es ++ r.1))
          (moves-off n a b (clear_auto_next_state b s.guild_id) (played s)
            (delete_auto_next_message s) played_turn))
  launched_run n (failed es why) e =
      moves-on (suc n) a b (launching s) (failing s why) es (ap (launched b s) e)
      ∙ (ap (λ (r : World × List Effect). (r.0, es ++ r.1))
          (moves-off n a b (clear_auto_next_state b s.guild_id) (failing s why)
            (disables_prompt s why ∷ []) (failed_turn why)))

  waited_run :
      is_auto_next_current b s ≡ true
      → (a.expired || a.worker) ≡ true
      → run (alone b (waiting s)) (moves_times 6 a)
        ≡ (over (clear_auto_next_state b s.guild_id), settled a s)
  waited_run c free = elim (Bool-cases a.expired) [
    | inl e ↦
        leads 5 (waiting s) (refused s) (slot_refused e)
        ∙ (leads 4 (refused s) (failing s slot_busy) (refusing c)
            ∙ (moves-off 3 a b (clear_auto_next_state b s.guild_id) (failing s slot_busy)
                  (disables_prompt s slot_busy ∷ []) (failed_turn slot_busy)
                ∙ settles e))
    | inr e ↦
        let w : a.worker ≡ true = ground (arith, e, free) in
        leads 5 (waiting s) (granted s) (slot_granted e w)
        ∙ (leads 4 (granted s) (requiring s) (granting c)
            ∙ (leads 3 (requiring s) (starting s) (required c w)
                ∙ (leads 2 (starting s) (launching s) (launching_next c)
                    ∙ (launched_run 0 (start_episode a.outside s) refl ∙ settles e))))
  ]
    where
      ends : Bool → World × List Effect
      ends t = (
        over (clear_auto_next_state b s.guild_id),
        if t then disables_prompt s slot_busy ∷ [] else outcome s (start_episode a.outside s),
      )

      settles : {t : Bool} → a.expired ≡ t → ends t ≡ ends a.expired
      settles e = ap ends (sym e)

-- If the countdown of a pending prompt fires, nothing else happens, and the slot's wait has passed
-- or there is a worker, then eight steps end it: nothing is pending in the guild, and what was done
-- is the attempt at the episode with the prompt deleted, or saying why it failed.
pub counting-Settles :
    (a : Answers) (b : Bot) (s : AutoNextState)
    → b.auto_next s.guild_id ≡ some s
    → a.timer ≡ true
    → (a.expired || a.worker) ≡ true
    → let r = run (alone b (counting s)) (moves_times 8 a) in
      (r.0.goroutines ≡ []) × ((r.0.bot.auto_next s.guild_id ≡ none) × (r.1 ≡ settled a s))
counting-Settles a b s pending timer free =
    let c : is_auto_next_current b s ≡ true = pending-current b s pending in
    let ends : run (alone b (counting s)) (moves_times 8 a)
        ≡ (over (clear_auto_next_state b s.guild_id), settled a s) =
      leads a b s 7 (counting s) (trying s) (counted a b s timer)
      ∙ (leads a b s 6 (trying s) (waiting s) (tried a b s c) ∙ waited_run a b s c free) in
    (
      ap (λ (r : World × List Effect). r.0.goroutines) ends,
      (
        ap (λ (r : World × List Effect). r.0.bot.auto_next s.guild_id) ends
            ∙ clear-none b s.guild_id,
        ap (λ (r : World × List Effect). r.1) ends,
      ),
    )
