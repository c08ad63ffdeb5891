-- ===== src/Index/Sample.antt =====
-- A node with one feed of two tracks, and a submission that renames the feed, changes the first track,
-- adds one, and leaves the second out: the data of the tests.
use stophammer.Common.{str_eq, Bool-cases, inl, inr, refl, false, none, some, List, [], ◌∷◌, String}
use stophammer.Common.Int.{ℤ, pos}
use stophammer.Index.Rows.{Feed, Track, PaymentRoute, TrackRemoteItemRaw, LiveEvent, node}
use stophammer.Index.Claims.{SourceContributorClaim}
use stophammer.Index.Tracks.{
  get_track_for_feed, get_feed_by_guid, get_track_remote_items_for_feed_track,
}
use stophammer.Index.Tables.{IndexDb, dedupe_live_events, dedupe_and_sort_live_events}
use stophammer.Common.Sorting.{sort_by}
use stophammer.Common.Cells.{cells_eq}
use stophammer.Common.{select, arith, any}
use stophammer.Index.ClaimStore.{
  dedupe_source_contributor_claims, dedupe_source_entity_ids, dedupe_source_entity_links,
  dedupe_source_release_claims, dedupe_source_item_enclosures, dedupe_source_item_transcripts,
}
use stophammer.Index.Events.{TrackIngestBundle, Submission}
use stophammer.Index.Follow.Agree.{IsProper, HasNoStray}
use stophammer.Index.Follow.OneTrack.{HasNoOrphan}
use stophammer.Index.Follow.SameRows.{Agree}

abbrev pub feed_of : String → ℤ → Feed
feed_of title updated_at = record {
  feed_guid = "f";
  feed_url = "https://a.example/feed";
  title = title;
  title_lower = title;
  description = none;
  image_url = none;
  publisher = none;
  language = some "en";
  explicit = false;
  itunes_type = none;
  release_artist = none;
  release_artist_sort = none;
  release_date = none;
  release_kind = none;
  episode_count = pos 2;
  newest_item_at = none;
  oldest_item_at = none;
  created_at = pos 1;
  updated_at = updated_at;
  raw_medium = some "music";
  last_build_date = none;
  release_artist_source = none;
}

abbrev pub track_of : String → String → Track
track_of guid title = record {
  track_guid = guid;
  feed_guid = "f";
  title = title;
  title_lower = title;
  pub_date = none;
  duration_secs = some (pos 180);
  enclosure_url = none;
  enclosure_type = none;
  enclosure_bytes = none;
  track_number = none;
  season = none;
  image_url = none;
  publisher = none;
  language = none;
  explicit = false;
  description = none;
  track_artist = none;
  track_artist_sort = none;
  created_at = pos 1;
  updated_at = pos 1;
}

abbrev pub item_of : String → TrackRemoteItemRaw
item_of guid = record {
  feed_guid = "f";
  track_guid = guid;
  position = pos 0;
  medium = none;
  remote_feed_guid = "r";
  remote_feed_url = none;
  rel = none;
  source = "podcast_remote_item";
}

abbrev pub claim : SourceContributorClaim
claim = record {
  feed_guid = "f";
  entity_type = "feed";
  entity_id = "f";
  position = pos 0;
  name = "Ann";
  role = none;
  role_norm = none;
  group_name = none;
  href = none;
  img = none;
  npub = none;
  source = "podcast_person";
  extraction_path = "feed.person";
  observed_at = pos 1;
}

abbrev pub live_of : String → LiveEvent
live_of guid = record {
  live_item_guid = guid;
  feed_guid = "f";
  title = guid;
  content_link = none;
  status = "pending";
  scheduled_start = none;
  scheduled_end = none;
  created_at = pos 1;
  updated_at = pos 1;
  live_value_uri = none;
  live_value_protocol = none;
}

abbrev pub route_to : String → PaymentRoute
route_to address = record {
  track_guid = "t1";
  feed_guid = "f";
  recipient_name = none;
  route_type = node;
  address = address;
  custom_key = none;
  custom_value = none;
  split = pos 100;
  fee = false;
}

abbrev pub stored_tables : IndexDb
stored_tables = record {
  feeds = feed_of "old" (pos 1) ∷ [];
  tracks = track_of "t1" "one" ∷ track_of "t2" "two" ∷ [];
  payment_routes = route_to "a" ∷ [];
  splits = [];
  track_items = (some "f", item_of "t2") ∷ [];
  live_events = live_of "b" ∷ [];
  feed_routes = [];
  list_values = [];
  remote_items = [];
  contributor_claims = [];
  entity_ids = [];
  entity_links = [];
  release_claims = [];
  item_enclosures = [];
  item_transcripts = [];
  platform_claims = [];
}

abbrev pub bundle : String → String → List TrackRemoteItemRaw → TrackIngestBundle
bundle guid title items = record {
  track = track_of guid title;
  routes = [];
  splits = [];
  remote_items = items;
}

abbrev pub submitted : Submission
submitted = record {
  feed = feed_of "new" (pos 9);
  feed_routes = [];
  list_values = [];
  remote_items = [];
  contributor_claims = claim ∷ [];
  entity_ids = [];
  entity_links = [];
  release_claims = [];
  item_enclosures = [];
  item_transcripts = [];
  platform_claims = [];
  live_events = live_of "c" ∷ live_of "a" ∷ live_of "c" ∷ [];
  tracks = bundle "t1" "one (remix)" [] ∷ bundle "t3" "three" (item_of "t3" ∷ []) ∷ [];
}

pub submitted-IsProper : IsProper submitted
unfolding dedupe_source_contributor_claims dedupe_source_entity_ids dedupe_source_entity_links
    dedupe_source_release_claims dedupe_source_item_enclosures dedupe_source_item_transcripts
    dedupe_live_events dedupe_and_sort_live_events sort_by any cells_eq
submitted-IsProper = record {
  own_feed_routes = tt;
  own_list_values = tt;
  own_remote_items = tt;
  own_contributor_claims = (refl, tt);
  distinct_contributor_claims = refl;
  own_entity_ids = tt;
  distinct_entity_ids = refl;
  own_entity_links = tt;
  distinct_entity_links = refl;
  own_release_claims = tt;
  distinct_release_claims = refl;
  own_item_enclosures = tt;
  distinct_item_enclosures = refl;
  own_item_transcripts = tt;
  distinct_item_transcripts = refl;
  own_platform_claims = tt;
  own_live_events = (refl, (refl, tt));
  own_sorted_live_events = (refl, (refl, tt));
  own_tracks = ((refl, tt), ((refl, (refl, tt)), tt));
  distinct_tracks = ((refl, tt), (tt, tt));
}

pub stored_tables-HasNoStray : HasNoStray "f" stored_tables
unfolding get_feed_by_guid
stored_tables-HasNoStray = record {
  no_feed_routes = λ h. cc;
  no_list_values = λ h. cc;
  no_remote_items = λ h. cc;
  no_contributor_claims = λ h. cc;
  no_entity_ids = λ h. cc;
  no_entity_links = λ h. cc;
  no_release_claims = λ h. cc;
  no_item_enclosures = λ h. cc;
  no_item_transcripts = λ h. cc;
  no_platform_claims = λ h. cc;
  no_live_events = λ h. cc;
  no_tracks = λ h t. cc;
}

pub stored_tables-HasNoOrphan : HasNoOrphan "f" stored_tables
unfolding get_track_for_feed get_track_remote_items_for_feed_track select sort_by
stored_tables-HasNoOrphan t h = ground arith

-- A replica with other times and an old count in the row of the feed.
abbrev pub replica_tables : IndexDb
replica_tables = record stored_tables {
  feeds = record (feed_of "old" (pos 4)) { created_at = pos 3; episode_count = pos 1 } ∷ [];
}

pub same_tables : Agree "f" stored_tables replica_tables
unfolding get_feed_by_guid
same_tables = record {
  same_feeds = λ k. elim (Bool-cases (str_eq "f" k)) [ inl e ↦ rw e refl | inr e ↦ rw e refl ];
  same_tracks = λ k. refl;
  same_track_items = λ k. refl;
  same_live_events = λ k. refl;
  same_feed_routes = λ k. refl;
  same_list_values = λ k. refl;
  same_remote_items = λ k. refl;
  same_contributor_claims = λ k. refl;
  same_entity_ids = λ k. refl;
  same_entity_links = λ k. refl;
  same_release_claims = λ k. refl;
  same_item_enclosures = λ k. refl;
  same_item_transcripts = λ k. refl;
  same_platform_claims = λ k. refl;
}
