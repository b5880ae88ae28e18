-- ===== src/Streamer/Tests.antt =====
-- Runs of the sender and its clock.
use streamly.Prelude.{ℕ, zero, suc, ◌+◌, ◌≡◌, refl, true, false, some, List, [], ◌∷◌, length, arith}
use streamly.Prelude.Signed.{pos, ◌-ℤ◌, wrap64}
use streamly.Pool.Session.{saturate}
use streamly.Streamer.Clock.{MediaClock, wait}
use streamly.Prelude.Text.{codes}
use streamly.Streamer.Key.{parse_stream_key, generate_stream_key}
use streamly.Streamer.Key.RoundTrip.{stream_key, generate-parse}
use streamly.Streamer.Waiting.{
  start, Fired, timer_fires, deadline_fires, gives_up, fire, next_packet,
}
use streamly.Streamer.Waiting.Starved.{last_moment, IsTimely, next_packet-IsTimely}
use streamly.Streamer.Sender.{Sender}
use streamly.Streamer.Sender.Aligned.{IsAligned}
use streamly.Streamer.Sender.Run.{
  Event, segment, pause_card, loading_card, pause_end, waits, video_packet, audio_packet, run,
  audio_total, video_total, new_sender, new_sender-IsAligned, run-IsAligned,
}
use streamly.Streamer.Sender.Drops.{Packet, pump_videos, kept, sent_on, pump_videos-frames}

abbrev clock : MediaClock
clock = record { wall_start = pos 1_000; pts_start = pos 40; anchored = true }

sleeps : (wait clock (pos 90) (pos 0) (pos 1_010)).0 ≡ some (pos 40)
unfolding wait wrap64 ◌-ℤ◌ saturate
sleeps = refl

-- A pause of 1.2 seconds after the first packets, with two cards, and one card for a stall.
abbrev events : List Event
events =
    segment
    ∷ (waits (pos 0) (pos 10)
        ∷ (video_packet (0x65 ∷ []) (pos 0) (pos 10)
            ∷ (audio_packet (pos 0) (pos 0) (pos 11)
                ∷ (pause_card (some (0x65 ∷ [])) (pos 500)
                    ∷ (pause_card (some (0x65 ∷ [])) (pos 600)
                        ∷ (pause_end (pos 1_200_000_000) 1 (pos 700)
                            ∷ (loading_card (some (0x65 ∷ [])) (pos 800)
                                ∷ (video_packet (0x41 ∷ []) (pos 33) (pos 900) ∷ []))))))))

run-IsAligned_example :
    IsAligned
      (0 + length events)
      (audio_total (pos 0) events)
      (video_total 30 (pos 0) events)
      (run 30 new_sender events)
run-IsAligned_example =
    run-IsAligned 30 0 (pos 0) (pos 0) new_sender events (omega arith)
      (
        record {},
        (
          record {},
          (
            record {},
            (
              record {},
              (
                record {},
                (record {}, ((omega arith, omega arith), (record {}, (record {}, record {})))),
              ),
            ),
          ),
        ),
      )
      new_sender-IsAligned

abbrev packets : List Packet
packets =
    (0x41 ∷ [], pos 0, pos 5)
    ∷ ((0 ∷ (0 ∷ (1 ∷ (0x65 ∷ []))), pos 33, pos 6) ∷ ((0x41 ∷ [], pos 66, pos 7) ∷ []))

abbrev after_card : Sender
after_card = record new_sender { drop_to_idr = true }

pump_videos-frames_example :
    (pump_videos 30 after_card packets).peer.frames ≡ sent_on (kept true packets) []
pump_videos-frames_example = pump_videos-frames 30 after_card packets refl

generate-parse_example :
    parse_stream_key (generate_stream_key false (codes "a") (codes "b") (codes "c"))
    ≡ some (stream_key false (codes "a") (codes "b") (codes "c"))
generate-parse_example =
    generate-parse false (codes "a") (codes "b") (codes "c") ((λ e. omega (arith, e)), record {})
      ((λ e. omega (arith, e)), record {}) ((λ e. omega (arith, e)), record {})

-- A live stream that is starved: 51 cards, and then the deadline.
abbrev timers : ℕ → List Fired
timers zero = deadline_fires ∷ []
timers (suc n) = timer_fires ∷ timers n

starved : next_packet (start true) (timers 51) ≡ gives_up last_moment
unfolding fire
starved = refl

next_packet-IsTimely_example : IsTimely (length (timers 51)) (next_packet (start true) (timers 51))
next_packet-IsTimely_example = next_packet-IsTimely (timers 51)
