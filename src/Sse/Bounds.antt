-- ===== src/Sse/Bounds.antt =====
-- The bounds that every run of `SseRegistry` (src/api.rs) keeps.
use stophammer.Common.{
  ◌≤◌, ◌<◌, ◌≡◌, refl, sym, subst, Bool, true, false, not, ◌&&◌, ◌||◌, some, List, [], ◌∷◌, ◌++◌,
  String, str_eq, length, length-append, is_some, ltb, leb, ltb→lt, Bool-cases, ◌⊎◌, inl, inr,
  arith, if◌then◌else◌,
}
use stophammer.Common.Keyed.{find, put, find-put, length-put}
use stophammer.Sse.Registry.{
  SseFrame, SseRegistry, max_sse_connections, max_sse_registry_feeds, new, try_acquire_connection,
  release_connection, subscribe, frames_of, send, push_frame, append_ring, publish,
}

-- One call on the registry. A connection is released only while one is held.
pub data Step : SseRegistry → SseRegistry → Type 0 where
  acquires : {r : SseRegistry} → Step r (try_acquire_connection r).0
  releases : {r : SseRegistry} → 0 < r.active_connections → Step r (release_connection r)
  subscribes : {r : SseRegistry} (feed_guid : String) → Step r (subscribe r feed_guid).0
  publishes :
      {r : SseRegistry} (feed_guid : String) (frame : SseFrame) → Step r (publish r feed_guid frame)

pub data Reachable : SseRegistry → Type 0 where
  starts : Reachable new
  steps : {r s : SseRegistry} → Reachable r → Step r s → Reachable s

pub record IsBounded (r : SseRegistry) : Type 0 where
  pub connections : r.active_connections ≤ 1000
  pub channels : length r.senders ≤ 10000
  pub rings : length r.ring_buffers ≤ 10000
  pub frames : (feed_guid : String) → length (frames_of (find feed_guid r.ring_buffers)) ≤ 100

length-put-le :
    (k : String) (v : List SseFrame) (m : List (String × List SseFrame))
    → (is_some (find k m) ≡ true) ⊎ (length m < 10000)
    → length m ≤ 10000
    → length (put k v m) ≤ 10000
length-put-le k v m (inl known) h = ground (arith, length-put k v m, known, h)
length-put-le k v m (inr room) h = ground (arith, length-put k v m, room, h)

push_frame-le :
    (buf : List SseFrame) (frame : SseFrame)
    → length buf ≤ 100
    → length (push_frame buf frame) ≤ 100
push_frame-le [] frame h = omega arith
push_frame-le (f ∷ buf) frame h =
    ground (arith, h, length-append buf (frame ∷ []), length-append (f ∷ buf) (frame ∷ []))

append_ring-bounds :
    (m : List (String × List SseFrame)) (k : String) (frame : SseFrame)
    → length m ≤ 10000
    → ((j : String) → length (frames_of (find j m)) ≤ 100)
    → (length (append_ring m k frame) ≤ 10000)
      × ((j : String) → length (frames_of (find j (append_ring m k frame))) ≤ 100)
unfolding append_ring
append_ring-bounds m k frame h few =
    by_room (not (is_some (find k m)) && leb max_sse_registry_feeds (length m)) refl
  where
    added : List (String × List SseFrame)
    added = put k (push_frame (frames_of (find k m)) frame) m

    short : (j : String) → length (frames_of (find j added)) ≤ 100
    short j =
        subst (λ o. length (frames_of o) ≤ 100)
          (sym (find-put k j (push_frame (frames_of (find k m)) frame) m)) (by_key (str_eq k j))
      where
        by_key :
            (b : Bool)
            → length
                (frames_of (if b then some (push_frame (frames_of (find k m)) frame) else find j m))
              ≤ 100
        by_key true = push_frame-le (frames_of (find k m)) frame (few k)
        by_key false = few j

    by_room :
        (b : Bool)
        → (not (is_some (find k m)) && leb max_sse_registry_feeds (length m)) ≡ b
        → (length (if b then m else added) ≤ 10000)
          × ((j : String) → length (frames_of (find j (if b then m else added))) ≤ 100)
    by_room true e = (h, few)
    by_room false e = (
      length-put-le k (push_frame (frames_of (find k m)) frame) m
          (room (Bool-cases (is_some (find k m)))) h,
      short,
    )
      where
        room :
            (is_some (find k m) ≡ true) ⊎ (is_some (find k m) ≡ false)
            → (is_some (find k m) ≡ true) ⊎ (length m < 10000)
        room (inl known) = inl known
        room (inr unknown) = inr (ground (arith, e, unknown))

subscribe-IsBounded : (r : SseRegistry) (k : String) → IsBounded r → IsBounded (subscribe r k).0
unfolding subscribe
subscribe-IsBounded r k b = elim (Bool-cases (is_some (find k r.senders))) [
  | inl e ↦ rw e b
  | inr e ↦ elim (Bool-cases (leb max_sse_registry_feeds (length r.senders))) [
    | inl f ↦ rw (e, f) b
    | inr f ↦
        rw (e, f)
          (record {
            connections = b.connections;
            channels = length-put-le k [] r.senders (inr (ground arith)) b.channels;
            rings = b.rings;
            frames = b.frames;
          })
  ]
]

publish-IsBounded :
    (r : SseRegistry) (k : String) (frame : SseFrame) → IsBounded r → IsBounded (publish r k frame)
unfolding publish send
publish-IsBounded r k frame b =
    elim (Bool-cases
      (is_some (find k r.senders) || ltb (length r.senders) max_sse_registry_feeds)) [
        | inr e ↦ rw e b
        | inl e ↦
            let (rings, frames) = append_ring-bounds r.ring_buffers k frame b.rings b.frames in
            rw e (record {
              connections = b.connections;
              channels =
                  length-put-le k (frames_of (find k r.senders) ++ (frame ∷ [])) r.senders
                    (room e (Bool-cases (is_some (find k r.senders)))) b.channels;
              rings = rings;
              frames = frames;
            })
      ]
  where
    room :
        (is_some (find k r.senders) || ltb (length r.senders) max_sse_registry_feeds) ≡ true
        → (is_some (find k r.senders) ≡ true) ⊎ (is_some (find k r.senders) ≡ false)
        → (is_some (find k r.senders) ≡ true) ⊎ (length r.senders < 10000)
    room e (inl known) = inl known
    room e (inr unknown) = inr (ground (arith, e, unknown))

Step-IsBounded : (r s : SseRegistry) → Step r s → IsBounded r → IsBounded s
unfolding try_acquire_connection release_connection
Step-IsBounded r s acquires b = elim (Bool-cases (ltb r.active_connections max_sse_connections)) [
  | inl e ↦ rw e (record {
    connections = omega (arith, ltb→lt r.active_connections 1000 e);
    channels = b.channels;
    rings = b.rings;
    frames = b.frames;
  })
  | inr e ↦ rw e b
]
Step-IsBounded r s (releases held) b = record {
  connections = ground (arith, held, b.connections);
  channels = b.channels;
  rings = b.rings;
  frames = b.frames;
}
Step-IsBounded r s (subscribes k) b = subscribe-IsBounded r k b
Step-IsBounded r s (publishes k frame) b = publish-IsBounded r k frame b

-- Whatever the order of the calls, as long as each release has its connection, the registry holds at
-- most 1,000 connections, 10,000 channels, 10,000 buffers, and 100 frames in each buffer.
pub Reachable-IsBounded : (r : SseRegistry) → Reachable r → IsBounded r
unfolding find
Reachable-IsBounded r starts = record {
  connections = omega arith;
  channels = omega arith;
  rings = omega arith;
  frames = λ k. omega arith;
}
Reachable-IsBounded r (steps {r = q} before step) =
    Step-IsBounded q r step (Reachable-IsBounded q before)
