-- ===== src/Sse/Tests.antt =====
-- Runs of the SSE registry.
use stophammer.Common.{ℕ, ◌≡◌, refl, [], ◌∷◌, arith}
use stophammer.Common.Keyed.{find}
use stophammer.Sse.Registry.{
  SseFrame, new, try_acquire_connection, release_connection, publish, recent_events,
}
use stophammer.Sse.Bounds.{
  starts, steps, acquires, releases, publishes, IsBounded, Reachable-IsBounded,
}
use stophammer.Sse.Replay.{publish_all, last_frames, recent_events-last}

abbrev frame : ℕ → SseFrame
frame n = record { event_type = "track_upserted"; subject_guid = "t"; payload = "{}"; seq = n }

Reachable-IsBounded_example :
    IsBounded (publish (release_connection (try_acquire_connection new).0) "g" (frame 1))
unfolding try_acquire_connection
Reachable-IsBounded_example =
    Reachable-IsBounded (publish (release_connection (try_acquire_connection new).0) "g" (frame 1))
      (steps (steps (steps starts acquires) (releases (omega arith))) (publishes "g" (frame 1)))

recent_events-last_example :
    recent_events (publish_all new "g" (frame 1 ∷ frame 2 ∷ [])) "g"
    ≡ last_frames (frame 1 ∷ frame 2 ∷ [])
unfolding find
recent_events-last_example =
    recent_events-last new "g" (frame 1 ∷ frame 2 ∷ []) refl (omega arith) (omega arith)
