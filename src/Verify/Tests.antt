-- ===== src/Verify/Tests.antt =====
-- Runs of the verifier chain of src/verify.rs on a concrete submission.
use stophammer.Common.{
  ◌≡◌, ◌↔◌, refl, Bool, true, false, none, some, List, [], ◌∷◌, String, select, any,
}
use stophammer.Common.Int.{ℤ, pos}
use stophammer.Common.Text.{eq_ignore_ascii_case}
use stophammer.Verify.Request.{
  PaymentRoute, TrackData, FeedData, FeedRequest, IngestContext, Labelled, no_change, pass,
}
use stophammer.Verify.Rules.{
  content_hash, is_publisher, is_publisher_feed, payment_exempt, check_payment, validate_routes,
}
use stophammer.Verify.Chain.{VerifierChain, run, build_chain, is_no_change_reason}
use stophammer.Verify.Run.{Decides, run-Decides}
use stophammer.Verify.Config.{names_in, default_chain, from_env}
use stophammer.Verify.NoChange.{no_change-hash}
use stophammer.Verify.Coverage.{IsCovered, check_payment_iff}

runs : Unit {0}
unfolding run build_chain content_hash is_publisher payment_exempt is_no_change_reason from_env
    names_in check_payment validate_routes select any eq_ignore_ascii_case
runs = tt

abbrev is_uuid : String → Bool
is_uuid s = true

abbrev route : String → ℤ → PaymentRoute
route address split = record { address = address; split = split }

abbrev track : String → List PaymentRoute → TrackData
track guid routes = record { track_guid = guid; enclosure_type = none; payment_routes = routes }

abbrev feed : FeedData
feed = record {
  feed_guid = "g";
  raw_medium = some "Music";
  remote_items = [];
  feed_payment_routes = [];
  tracks = track "t" (route "02ab" (pos 100) ∷ []) ∷ [];
}

abbrev request : FeedRequest
request = record {
  canonical_url = "https://example.com/f";
  crawl_token = "secret";
  content_hash = "h1";
  feed_data = some feed;
  force_reingest = false;
}

abbrev ctx : IngestContext
ctx = record { request = request; crawl_cache = λ url. some "h1" }

abbrev names : List String
names = "feed_blocklist" ∷ "content_hash" ∷ []

abbrev chain : VerifierChain
chain = record {
  crawl_token = "secret";
  verifiers = record { name = "content_hash"; verify = content_hash } ∷ [];
}

abbrev unchanged : Labelled
unchanged = record { name = "content_hash"; message = no_change }

run-Decides_example : Decides chain.verifiers ctx (run chain.verifiers ctx)
run-Decides_example = run-Decides chain.verifiers ctx

from_env_test : from_env " , " ≡ names_in default_chain
unfolding runs
from_env_test = refl

no_change-hash_example :
    (request.force_reingest ≡ false)
    × (is_publisher_feed request.feed_data ≡ false)
    × (ctx.crawl_cache request.canonical_url ≡ some request.content_hash)
unfolding runs
no_change-hash_example = no_change-hash is_uuid names "secret" chain ctx unchanged refl refl refl

check_payment_iff_example : (check_payment feed ≡ pass) ↔ IsCovered feed
unfolding runs
check_payment_iff_example = check_payment_iff feed refl

check_payment_test : check_payment feed ≡ pass
unfolding runs
check_payment_test = refl
