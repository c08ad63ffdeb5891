-- ===== src/Sse/Replay.antt =====
-- What `recent_events` of src/api.rs returns.
use stophammer.Common.{
  ℕ, zero, suc, ◌+◌, ◌-◌, ◌≤◌, ◌<◌, ◌≡◌, refl, sym, ap, ◌∙◌, Bool, true, false, not, ◌&&◌, ◌||◌,
  Option, none, some, List, [], ◌∷◌, ◌++◌, String, eq_iff, length, length-append, drop, is_some,
  ltb, leb, arith, if◌then◌else◌,
}
use stophammer.Common.Keyed.{find, put, find-put}
use stophammer.Sse.Registry.{
  SseFrame, SseRegistry, sse_ring_buffer_size, frames_of, send, push_frame, append_ring, publish,
  recent_events,
}

drop-append : (n : ℕ) (l m : List SseFrame) → n ≤ length l → drop n (l ++ m) ≡ drop n l ++ m
drop-append zero l m h = refl
drop-append (suc n) [] m h = absurd (omega (arith, h))
drop-append (suc n) (f ∷ l) m h = drop-append n l m (omega (arith, h))

drop-drop : (a b : ℕ) (l : List SseFrame) → drop a (drop b l) ≡ drop (a + b) l
drop-drop a zero l = let same : a ≡ a + 0 = omega arith in ap (λ n. drop n l) same
drop-drop zero (suc b) l = let same : suc b ≡ 0 + suc b = omega arith in ap (λ n. drop n l) same
drop-drop (suc a) (suc b) [] =
    let same : suc (suc (a + b)) ≡ suc a + suc b = omega arith in ap (λ n. drop n []) same
drop-drop (suc a) (suc b) (f ∷ l) =
    let same : suc (suc a + b) ≡ suc a + suc b = omega arith in
    drop-drop (suc a) b l ∙ ap (λ n. drop n (f ∷ l)) same

length-drop : (n : ℕ) (l : List SseFrame) → length (drop n l) ≡ length l - n
length-drop zero l = omega arith
length-drop (suc n) [] = omega arith
length-drop (suc n) (f ∷ l) = omega (arith, length-drop n l)

-- The last frames, as many as a buffer holds.
abbrev pub last_frames : List SseFrame → List SseFrame
last_frames l = drop (length l - sse_ring_buffer_size) l

push_frame-last :
    (l : List SseFrame) (frame : SseFrame)
    → push_frame (last_frames l) frame ≡ last_frames (l ++ (frame ∷ []))
push_frame-last l frame = by_size (leb sse_ring_buffer_size (length (last_frames l))) refl
  where
    by_size :
        (b : Bool)
        → leb sse_ring_buffer_size (length (last_frames l)) ≡ b
        → (if b then drop 1 (last_frames l) ++ (frame ∷ []) else last_frames l ++ (frame ∷ []))
          ≡ last_frames (l ++ (frame ∷ []))
    by_size true e =
        let full : 100 ≤ length l =
          ground (arith, e, length-drop (length l - sse_ring_buffer_size) l) in
        ap (λ m. m ++ (frame ∷ [])) (drop-drop 1 (length l - 100) l)
        ∙ sym (drop-append (1 + (length l - 100)) l (frame ∷ []) (omega (arith, full)))
        ∙ ap (λ n. drop n (l ++ (frame ∷ []))) (omega (arith, full, length-append l (frame ∷ [])))
    by_size false e =
        let short : length l < 100 =
          ground (arith, e, length-drop (length l - sse_ring_buffer_size) l) in
        sym (drop-append (length l - 100) l (frame ∷ []) (omega arith))
        ∙ ap (λ n. drop n (l ++ (frame ∷ []))) (omega (arith, short, length-append l (frame ∷ [])))

-- The frames of one feed, published one after the other.
unfoldable pub publish_all : SseRegistry → String → List SseFrame → SseRegistry
unfolding publish
publish_all r feed_guid [] = r
publish_all r feed_guid (frame ∷ rest) = publish_all (publish r feed_guid frame) feed_guid rest

-- A feed that the registry tracks, and whose buffer holds the last of these frames.
record Holds (k : String) (sent : List SseFrame) (r : SseRegistry) : Type 0 where
  tracked : is_some (find k r.senders) || ltb (length r.senders) 10000 ≡ true
  buffered : is_some (find k r.ring_buffers) || ltb (length r.ring_buffers) 10000 ≡ true
  recent : frames_of (find k r.ring_buffers) ≡ last_frames sent

is_some-put :
    (k : String) (v : List SseFrame) (m : List (String × List SseFrame))
    → find k (put k v m) ≡ some v
is_some-put k v m =
    find-put k k v m ∙ ap (λ b. if b then some v else find k m) ((eq_iff k k).1 refl)

publish-Holds :
    (k : String) (sent : List SseFrame) (r : SseRegistry) (frame : SseFrame)
    → Holds k sent r
    → Holds k (sent ++ (frame ∷ [])) (publish r k frame)
unfolding publish send append_ring
publish-Holds k sent r frame h =
    let room : (not (is_some (find k r.ring_buffers)) && leb 10000 (length r.ring_buffers))
        ≡ false =
      ground (arith, h.buffered) in
    rw (h.tracked, room)
      (record {
        tracked = rw (is_some-put k (frames_of (find k r.senders) ++ (frame ∷ [])) r.senders) refl;
        buffered =
            rw (is_some-put k (push_frame (frames_of (find k r.ring_buffers)) frame) r.ring_buffers)
              refl;
        recent =
            ap frames_of
              (is_some-put k (push_frame (frames_of (find k r.ring_buffers)) frame) r.ring_buffers)
            ∙ ap (λ l. push_frame l frame) h.recent
            ∙ push_frame-last sent frame;
      })

append_nil : (l : List SseFrame) → l ++ [] ≡ l
append_nil [] = refl
append_nil (x ∷ l) = ap (λ m. x ∷ m) (append_nil l)

append_assoc : (l m n : List SseFrame) → (l ++ m) ++ n ≡ l ++ (m ++ n)
append_assoc [] m n = refl
append_assoc (x ∷ l) m n = ap (λ k. x ∷ k) (append_assoc l m n)

publish_all-Holds :
    (k : String) (sent frames : List SseFrame) (r : SseRegistry)
    → Holds k sent r
    → frames_of (find k (publish_all r k frames).ring_buffers) ≡ last_frames (sent ++ frames)
unfolding publish_all
publish_all-Holds k sent [] r h = h.recent ∙ ap last_frames (sym (append_nil sent))
publish_all-Holds k sent (f ∷ rest) r h =
    publish_all-Holds k (sent ++ (f ∷ [])) rest (publish r k f) (publish-Holds k sent r f h)
    ∙ ap last_frames (append_assoc sent (f ∷ []) rest)

-- `recent_events` returns the last 100 frames that were published for a feed, in the order they were
-- published, where the feed had no buffer before and the registry has room for its channel and its buffer.
pub recent_events-last :
    (r : SseRegistry) (feed_guid : String) (frames : List SseFrame)
    → is_some (find feed_guid r.ring_buffers) ≡ false
    → length r.senders < 10000
    → length r.ring_buffers < 10000
    → recent_events (publish_all r feed_guid frames) feed_guid ≡ last_frames frames
unfolding recent_events
recent_events-last r k frames fresh channels rings = publish_all-Holds k [] frames r (record {
  tracked = ground (arith, channels);
  buffered = ground (arith, rings);
  recent = none_there (find k r.ring_buffers) fresh;
})
  where
    none_there : (o : Option (List SseFrame)) → is_some o ≡ false → frames_of o ≡ []
    none_there none e = refl
    none_there (some l) e = cc
