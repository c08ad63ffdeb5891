-- ===== src/Verify/Rules.antt =====
-- The checks of src/verifiers and the readings of `podcast:medium` in src/medium.rs.
-- `is_uuid` is `uuid::Uuid::parse_str(guid).is_ok()`, `digest` is SHA-256.
use text.Mathlib.Text.{starts_with}
use stophammer.Common.{
  Bool, true, false, not, ◌&&◌, ◌||◌, Option, none, some, List, [], ◌∷◌, String, str_eq, contains,
  any, if◌then◌else◌,
}
use stophammer.Common.Int.{ℤ, pos, add_i64, ltb_ℤ}
use stophammer.Common.Text.{is_empty, eq_ignore_ascii_case}
use stophammer.Verify.Request.{
  PaymentRoute, TrackData, RemoteItem, FeedData, IngestContext, no_change, bad_guid, invalid_uuid,
  no_music_child, medium_absent, wrong_medium, invalid_feed_block, no_block_no_tracks,
  no_block_to_fall_back_to, invalid_track_block, wrong_sum, video_enclosure, VerifyResult, pass,
  warn, fail,
}

abbrev pub names_medium : Option String → String → Bool
names_medium none name = false
names_medium (some medium) name = eq_ignore_ascii_case medium name

unfoldable pub is_music : Option String → Bool
is_music raw_medium = names_medium raw_medium "music"

unfoldable pub is_publisher : Option String → Bool
is_publisher raw_medium = names_medium raw_medium "publisher"

unfoldable pub is_musicl : Option String → Bool
is_musicl raw_medium = names_medium raw_medium "musicL"

unfoldable pub payment_exempt : Option String → Bool
unfolding is_publisher is_musicl
payment_exempt raw_medium = is_publisher raw_medium || is_musicl raw_medium

abbrev pub is_publisher_feed : Option FeedData → Bool
is_publisher_feed none = false
is_publisher_feed (some feed) = is_publisher feed.raw_medium

abbrev pub same_hash : String → Option String → VerifyResult
same_hash content_hash none = pass
same_hash content_hash (some h) = if str_eq h content_hash then fail no_change else pass

unfoldable pub content_hash : IngestContext → VerifyResult
unfolding is_publisher
content_hash ctx =
    if ctx.request.force_reingest
    then pass
    else if is_publisher_feed ctx.request.feed_data
    then pass
    else same_hash ctx.request.content_hash (ctx.crawl_cache ctx.request.canonical_url)

abbrev pub is_video : Option String → Bool
is_video none = false
is_video (some mime) = starts_with mime "video/"

abbrev text_or_empty : Option String → String
text_or_empty none = ""
text_or_empty (some s) = s

unfoldable pub first_video : List TrackData → VerifyResult
first_video [] = pass
first_video (track ∷ rest) =
    let later = first_video rest in
    if is_video track.enclosure_type
    then warn (video_enclosure track.track_guid (text_or_empty track.enclosure_type))
    else later

abbrev with_feed : (FeedData → VerifyResult) → Option FeedData → VerifyResult
with_feed check none = pass
with_feed check (some feed_data) = check feed_data

unfoldable pub enclosure_type : IngestContext → VerifyResult
unfolding first_video
enclosure_type ctx = with_feed (λ feed. first_video feed.tracks) ctx.request.feed_data

abbrev pub bad_guids : List String
bad_guids = "c9c7bad3-4712-514e-9ebd-d1e208fa1b76" ∷ []

unfoldable pub feed_guid : (String → Bool) → IngestContext → VerifyResult
feed_guid is_uuid ctx =
    with_feed
      (λ feed.
        if contains feed.feed_guid bad_guids
        then fail (bad_guid feed.feed_guid)
        else if not (is_uuid feed.feed_guid)
        then fail (invalid_uuid feed.feed_guid)
        else pass)
      ctx.request.feed_data

abbrev medium_of : List RemoteItem → Option String → VerifyResult
medium_of remote_items none = fail medium_absent
medium_of remote_items (some raw_medium) =
    if is_music (some raw_medium)
    then pass
    else if is_publisher (some raw_medium)
    then (if any (λ ri. is_music ri.medium) remote_items then pass else fail no_music_child)
    else if is_musicl (some raw_medium)
    then pass
    else fail (wrong_medium raw_medium)

abbrev medium_of_feed : Option FeedData → VerifyResult
medium_of_feed none = fail medium_absent
medium_of_feed (some feed) = medium_of feed.remote_items feed.raw_medium

unfoldable pub medium_music : IngestContext → VerifyResult
unfolding is_music is_publisher is_musicl
medium_music ctx = medium_of_feed ctx.request.feed_data

-- `iter().map(|r| r.split).sum()`, from the left.
unfoldable pub sum_splits : ℤ → List PaymentRoute → ℤ
sum_splits total [] = total
sum_splits total (r ∷ rest) = sum_splits (add_i64 total r.split) rest

abbrev pub has_no_routes : List PaymentRoute → Bool
has_no_routes [] = true
has_no_routes (r ∷ rest) = false

abbrev is_hundred : ℤ → Bool
is_hundred sum = not (ltb_ℤ sum (pos 100)) && not (ltb_ℤ (pos 100) sum)

unfoldable pub check_sums : List TrackData → VerifyResult
unfolding sum_splits
check_sums [] = pass
check_sums (track ∷ rest) =
    let later = check_sums rest in
    let sum = sum_splits (pos 0) track.payment_routes in
    if has_no_routes track.payment_routes
    then later
    else if not (is_hundred sum)
    then fail (wrong_sum track.track_guid sum)
    else later

unfoldable pub payment_route_sum : IngestContext → VerifyResult
unfolding check_sums
payment_route_sum ctx = with_feed (λ feed. check_sums feed.tracks) ctx.request.feed_data

abbrev pub is_payable : PaymentRoute → Bool
is_payable r = not (is_empty r.address) && ltb_ℤ (pos 0) r.split

-- `validate_routes(..).is_ok()`.
unfoldable pub validate_routes : List PaymentRoute → Bool
validate_routes routes = any is_payable routes

unfoldable pub check_tracks : Bool → List TrackData → VerifyResult
unfolding validate_routes
check_tracks feed_routes_valid [] = pass
check_tracks feed_routes_valid (track ∷ rest) =
    let later = check_tracks feed_routes_valid rest in
    if has_no_routes track.payment_routes
    then (if feed_routes_valid then later else fail (no_block_to_fall_back_to track.track_guid))
    else if not (validate_routes track.payment_routes)
    then fail (invalid_track_block track.track_guid)
    else later

abbrev pub has_no_tracks : List TrackData → Bool
has_no_tracks [] = true
has_no_tracks (t ∷ rest) = false

unfoldable pub check_payment : FeedData → VerifyResult
unfolding check_tracks payment_exempt
check_payment feed =
    let declared = not (has_no_routes feed.feed_payment_routes) in
    if payment_exempt feed.raw_medium
    then pass
    else if declared && not (validate_routes feed.feed_payment_routes)
    then fail invalid_feed_block
    else if has_no_tracks feed.tracks && not declared
    then fail no_block_no_tracks
    else check_tracks declared feed.tracks

unfoldable pub v4v_payment : IngestContext → VerifyResult
unfolding check_payment
v4v_payment ctx = with_feed check_payment ctx.request.feed_data

-- `ct_eq` on the digests is equality; its running time is not modelled.
unfoldable pub token_matches : (String → String) → String → String → Bool
token_matches digest provided expected = str_eq (digest provided) (digest expected)
