-- ===== src/Verify/Chain.antt =====
-- `VerifierChain` of src/verify.rs and `is_no_change_reason` of src/api.rs.
use stophammer.Common.{Bool, true, false, not, ◌&&◌, List, [], ◌∷◌, String, str_eq, if◌then◌else◌}
use stophammer.Common.Text.{trim, is_empty}
use stophammer.Verify.Request.{
  FeedRequest, IngestContext, Message, no_change, invalid_crawl_token, VerifyResult, pass, warn,
  fail, Labelled, RunResult, ok, err,
}
use stophammer.Verify.Rules.{
  content_hash, medium_music, feed_guid, v4v_payment, payment_route_sum, enclosure_type,
  token_matches,
}

pub record Verifier : Type 0 where
  pub name : String
  pub verify : IngestContext → VerifyResult

pub record VerifierChain : Type 0 where
  pub crawl_token : String
  pub verifiers : List Verifier

-- The value of a computation that may panic.
pub data Startup {ℓ} (A : Type ℓ) : Type ℓ where
  started : A → Startup A
  panicked : Startup A

unfoldable pub new : String → List Verifier → Startup VerifierChain
unfolding trim
new crawl_token verifiers =
    if is_empty (trim crawl_token)
    then panicked
    else started (record { crawl_token = crawl_token; verifiers = verifiers })

unfoldable pub require_crawl_token : String → Bool
unfolding trim
require_crawl_token value = not (is_empty (trim value))

unfoldable pub authenticate : (String → String) → VerifierChain → FeedRequest → RunResult
unfolding token_matches
authenticate digest chain req =
    if token_matches digest req.crawl_token chain.crawl_token
    then ok []
    else err (record { name = "crawl_token"; message = invalid_crawl_token })

abbrev label : Verifier → Message → Labelled
label v msg = record { name = v.name; message = msg }

abbrev pub add_warning : Labelled → RunResult → RunResult
add_warning w (ok warnings) = ok (w ∷ warnings)
add_warning w (err e) = err e

abbrev pub step : Verifier → VerifyResult → RunResult → RunResult
step v pass later = later
step v (warn msg) later = add_warning (label v msg) later
step v (fail msg) later = err (label v msg)

-- The loop of `run`: `later` is what the rest of the chain gives.
unfoldable pub run : List Verifier → IngestContext → RunResult
run [] ctx = ok []
run (v ∷ rest) ctx = step v (v.verify ctx) (run rest ctx)

-- The arms of `build_chain`: a verifier, a name to skip, or a panic.
pub data Arm : Type 0 where
  built : Verifier → Arm
  skipped : Arm
  unknown : Arm

abbrev built_as : String → (IngestContext → VerifyResult) → Arm
built_as name verify = built (record { name = name; verify = verify })

unfoldable pub arm : (String → Bool) → String → Arm
unfolding content_hash medium_music feed_guid v4v_payment payment_route_sum enclosure_type
arm is_uuid name =
    if str_eq name "crawl_token"
    then unknown
    else if str_eq name "feed_blocklist"
    then skipped
    else if str_eq name "content_hash"
    then built_as "content_hash" content_hash
    else if str_eq name "medium_music"
    then built_as "medium_music" medium_music
    else if str_eq name "feed_guid"
    then built_as "feed_guid" (feed_guid is_uuid)
    else if str_eq name "v4v_payment"
    then built_as "v4v_payment" v4v_payment
    else if str_eq name "payment_route_sum"
    then built_as "payment_route_sum" payment_route_sum
    else if str_eq name "enclosure_type"
    then built_as "enclosure_type" enclosure_type
    else unknown

abbrev pub push : Arm → Startup (List Verifier) → Startup (List Verifier)
push (built v) (started vs) = started (v ∷ vs)
push (built v) panicked = panicked
push skipped rest = rest
push unknown rest = panicked

-- The loop of `build_chain`.
unfoldable pub verifiers_for : (String → Bool) → List String → Startup (List Verifier)
unfolding arm
verifiers_for is_uuid [] = started []
verifiers_for is_uuid (name ∷ rest) = push (arm is_uuid name) (verifiers_for is_uuid rest)

abbrev pub new_with : String → Startup (List Verifier) → Startup VerifierChain
new_with crawl_token (started vs) = new crawl_token vs
new_with crawl_token panicked = panicked

unfoldable pub build_chain : (String → Bool) → List String → String → Startup VerifierChain
unfolding verifiers_for new
build_chain is_uuid names crawl_token = new_with crawl_token (verifiers_for is_uuid names)

abbrev is_sentinel : Message → Bool
is_sentinel no_change = true
is_sentinel _ = false

unfoldable pub is_no_change_reason : Labelled → Bool
is_no_change_reason reason = str_eq reason.name "content_hash" && is_sentinel reason.message
