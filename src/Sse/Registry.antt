-- ===== src/Sse/Registry.antt =====
-- The operations of `SseRegistry` (src/api.rs). A channel is the list of the frames sent on it; the
-- capacity and the receivers of a broadcast channel belong to tokio. No lock is poisoned.
use stophammer.Common.{
  ℕ, ◌+◌, ◌-◌, ◌^◌, ◌%◌, Bool, true, false, not, ◌&&◌, ◌||◌, Option, none, some, List, [], ◌∷◌,
  ◌++◌, String, length, drop, is_some, ltb, leb, if◌then◌else◌,
}
use stophammer.Common.Keyed.{find, put}

pub record SseFrame : Type 0 where
  pub event_type : String
  pub subject_guid : String
  pub payload : String
  pub seq : ℕ

pub record SseRegistry : Type 0 where
  pub senders : List (String × List SseFrame)
  pub ring_buffers : List (String × List SseFrame)
  pub active_connections : ℕ

abbrev pub max_sse_connections : ℕ
max_sse_connections = 1000

abbrev pub max_sse_registry_feeds : ℕ
max_sse_registry_feeds = 10000

abbrev pub sse_ring_buffer_size : ℕ
sse_ring_buffer_size = 100

abbrev pub new : SseRegistry
new = record { senders = []; ring_buffers = []; active_connections = 0 }

abbrev with_connections : SseRegistry → ℕ → SseRegistry
with_connections r n = record {
  senders = r.senders;
  ring_buffers = r.ring_buffers;
  active_connections = n;
}

unfoldable pub try_acquire_connection : SseRegistry → SseRegistry × Bool
try_acquire_connection r =
    if ltb r.active_connections max_sse_connections
    then (with_connections r (r.active_connections + 1), true)
    else (r, false)

-- `fetch_sub` on a 64-bit counter.
unfoldable pub release_connection : SseRegistry → SseRegistry
release_connection r = with_connections r ((r.active_connections + (2 ^ 64 - 1)) % 2 ^ 64)

abbrev with_senders : SseRegistry → List (String × List SseFrame) → SseRegistry
with_senders r senders = record {
  senders = senders;
  ring_buffers = r.ring_buffers;
  active_connections = r.active_connections;
}

-- True where the caller gets a receiver.
unfoldable pub subscribe : SseRegistry → String → SseRegistry × Bool
subscribe r feed_guid =
    if is_some (find feed_guid r.senders)
    then (r, true)
    else if leb max_sse_registry_feeds (length r.senders)
    then (r, false)
    else (with_senders r (put feed_guid [] r.senders), true)

abbrev pub frames_of : Option (List SseFrame) → List SseFrame
frames_of none = []
frames_of (some frames) = frames

-- The frame goes on the channel, which is made if there is room for it.
unfoldable pub send : SseRegistry → String → SseFrame → Option (List (String × List SseFrame))
send r feed_guid frame =
    if is_some (find feed_guid r.senders) || ltb (length r.senders) max_sse_registry_feeds
    then some (put feed_guid (frames_of (find feed_guid r.senders) ++ (frame ∷ [])) r.senders)
    else none

abbrev pub push_frame : List SseFrame → SseFrame → List SseFrame
push_frame buf frame =
    if leb sse_ring_buffer_size (length buf)
    then drop 1 buf ++ (frame ∷ [])
    else buf ++ (frame ∷ [])

unfoldable pub append_ring :
    List (String × List SseFrame) → String → SseFrame → List (String × List SseFrame)
append_ring rings feed_guid frame =
    if not (is_some (find feed_guid rings)) && leb max_sse_registry_feeds (length rings)
    then rings
    else put feed_guid (push_frame (frames_of (find feed_guid rings)) frame) rings

abbrev pub after_send :
    SseRegistry → String → SseFrame → Option (List (String × List SseFrame)) → SseRegistry
after_send r feed_guid frame none = r
after_send r feed_guid frame (some senders) = record {
  senders = senders;
  ring_buffers = append_ring r.ring_buffers feed_guid frame;
  active_connections = r.active_connections;
}

unfoldable pub publish : SseRegistry → String → SseFrame → SseRegistry
unfolding send append_ring
publish r feed_guid frame = after_send r feed_guid frame (send r feed_guid frame)

unfoldable pub recent_events : SseRegistry → String → List SseFrame
recent_events r feed_guid = frames_of (find feed_guid r.ring_buffers)
