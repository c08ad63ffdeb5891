-- ===== src/Verify/Coverage.antt =====
-- Which feeds the payment check of src/verifiers/v4v_payment.rs accepts.
use stophammer.Common.{
  ◌≡◌, ◌≢◌, ◌↔◌, ◌⊎◌, inl, inr, refl, Bool, true, false, List, [], ◌∷◌, String, any, All, Any, here,
  there, Bool-cases, arith, if◌then◌else◌,
}
use stophammer.Common.Int.{pos, ltb_ℤ, ◌<ℤ◌, ltb_ℤ→lt, lt→ltb_ℤ}
use stophammer.Common.Text.{is_empty}
use stophammer.Verify.Request.{PaymentRoute, TrackData, FeedData, VerifyResult, pass, warn, fail}
use stophammer.Verify.Rules.{
  payment_exempt, is_payable, has_no_routes, has_no_tracks, validate_routes, check_tracks,
  check_payment,
}

-- A recipient that can be paid: an address and a positive split.
abbrev pub IsRecipient : PaymentRoute → Type 0
IsRecipient r = (r.address ≢ "") × (pos 0 <ℤ r.split)

abbrev pub IsPayable : List PaymentRoute → Type 0
IsPayable routes = Any IsRecipient routes

-- The routes that a play of the track pays: its own, or those of the feed where it declares none.
abbrev pub routes_of : List PaymentRoute → TrackData → List PaymentRoute
routes_of feed_routes track =
    if has_no_routes track.payment_routes then feed_routes else track.payment_routes

abbrev pub IsCovered : FeedData → Type 0
IsCovered feed =
    ((has_no_routes feed.feed_payment_routes ≡ true) ⊎ IsPayable feed.feed_payment_routes)
    × ((has_no_tracks feed.tracks ≡ false) ⊎ IsPayable feed.feed_payment_routes)
    × All (λ t. IsPayable (routes_of feed.feed_payment_routes t)) feed.tracks

empty_iff : (s : String) → (is_empty s ≡ false) ↔ (s ≢ "")
empty_iff String.[] = (λ h. cc, λ h. absurd (h refl))
empty_iff (String.◌∷◌ c s) = (λ h e. cc, λ h. refl)

is_payable_iff : (r : PaymentRoute) → (is_payable r ≡ true) ↔ IsRecipient r
is_payable_iff r = (
  λ h. ((empty_iff r.address).0 (ground arith), ltb_ℤ→lt (pos 0) r.split (ground arith)),
  λ (a, p).
      let filled : is_empty r.address ≡ false = (empty_iff r.address).1 a in
      let positive : ltb_ℤ (pos 0) r.split ≡ true = lt→ltb_ℤ (pos 0) r.split p in ground arith,
)

validate_routes_sound :
    (routes : List PaymentRoute) → validate_routes routes ≡ true → IsPayable routes
unfolding validate_routes any
validate_routes_sound [] h = cc
validate_routes_sound (r ∷ rest) h = elim (Bool-cases (is_payable r)) [
  | inl e ↦ here ((is_payable_iff r).0 e)
  | inr e ↦ there (validate_routes_sound rest (ground arith))
]

validate_routes_complete :
    (routes : List PaymentRoute) → IsPayable routes → validate_routes routes ≡ true
unfolding validate_routes any
validate_routes_complete [] m = elim m [ ]
validate_routes_complete (r ∷ rest) (here p) = ground (arith, (is_payable_iff r).1 p)
validate_routes_complete (r ∷ rest) (there m) = ground (arith, validate_routes_complete rest m)

no_payable : (routes : List PaymentRoute) → has_no_routes routes ≡ true → IsPayable routes → ⊥
no_payable [] h m = elim m [ ]
no_payable (r ∷ rest) h m = cc

abbrev is_pass : VerifyResult → Bool
is_pass pass = true
is_pass (warn m) = false
is_pass (fail m) = false

is_pass_iff : (r : VerifyResult) → (is_pass r ≡ true) ↔ (r ≡ pass)
is_pass_iff pass = (λ h. refl, λ h. refl)
is_pass_iff (warn m) = (λ h. cc, λ h. cc)
is_pass_iff (fail m) = (λ h. cc, λ h. cc)

-- The Boolean reading of `routes_of`: the track is covered.
abbrev covers : List PaymentRoute → TrackData → Bool
covers feed_routes track = validate_routes (routes_of feed_routes track)

check_tracks_sound :
    (feed_routes : List PaymentRoute) (valid : Bool) (tracks : List TrackData)
    → (valid ≡ true → IsPayable feed_routes)
    → is_pass (check_tracks valid tracks) ≡ true
    → All (λ t. IsPayable (routes_of feed_routes t)) tracks
unfolding check_tracks
check_tracks_sound fr valid [] v h = tt
check_tracks_sound fr valid (t ∷ rest) v h = elim (Bool-cases (has_no_routes t.payment_routes)) [
  | inl e ↦ rw e (v (ground arith), check_tracks_sound fr valid rest v (ground arith))
  | inr e ↦ rw e (
    validate_routes_sound t.payment_routes (ground arith),
    check_tracks_sound fr valid rest v (ground arith),
  )
]

check_tracks_complete :
    (feed_routes : List PaymentRoute) (valid : Bool) (tracks : List TrackData)
    → (IsPayable feed_routes → valid ≡ true)
    → All (λ t. IsPayable (routes_of feed_routes t)) tracks
    → is_pass (check_tracks valid tracks) ≡ true
unfolding check_tracks
check_tracks_complete fr valid [] v h = refl
check_tracks_complete fr valid (t ∷ rest) v (p, ps) =
    by_cases (has_no_routes t.payment_routes) refl p (check_tracks_complete fr valid rest v ps)
  where
    by_cases :
        (b : Bool)
        → has_no_routes t.payment_routes ≡ b
        → IsPayable (if b then fr else t.payment_routes)
        → is_pass (check_tracks valid rest) ≡ true
        → is_pass (check_tracks valid (t ∷ rest)) ≡ true
    by_cases true e q later = let c : valid ≡ true = v q in ground (arith, e)
    by_cases false e q later = ground (arith, e, validate_routes_complete t.payment_routes q)

-- A feed that is no publisher feed and no playlist passes exactly when it is covered: a feed block
-- that is declared has a recipient that can be paid, a feed with no tracks has such a block, and
-- every track has one in the routes that its play pays.
pub check_payment_iff :
    (feed : FeedData)
    → payment_exempt feed.raw_medium ≡ false
    → (check_payment feed ≡ pass) ↔ IsCovered feed
unfolding check_payment
check_payment_iff feed obliged = (sound, complete)
  where
    sound : check_payment feed ≡ pass → IsCovered feed
    sound h =
        let p : is_pass (check_payment feed) ≡ true = (is_pass_iff (check_payment feed)).1 h in
        elim (Bool-cases (has_no_routes feed.feed_payment_routes)) [
          | inl e ↦ (
            inl e,
            inl (ground arith),
            check_tracks_sound feed.feed_payment_routes false feed.tracks (λ q. cc) (ground arith),
          )
          | inr e ↦
              let payable : IsPayable feed.feed_payment_routes =
                validate_routes_sound feed.feed_payment_routes (ground arith) in
              (
                inr payable,
                inr payable,
                check_tracks_sound feed.feed_payment_routes true feed.tracks (λ q. payable)
                    (ground arith),
              )
        ]

    complete : IsCovered feed → check_payment feed ≡ pass
    complete (block, some_track, tracks) =
        (is_pass_iff (check_payment feed)).0
          (elim (Bool-cases (has_no_routes feed.feed_payment_routes)) [
            | inl e ↦ elim some_track [
              | inl t ↦
                  rw (obliged, e, t)
                    (check_tracks_complete feed.feed_payment_routes false feed.tracks
                      (λ q. absurd (no_payable feed.feed_payment_routes e q)) tracks)
              | inr q ↦ absurd (no_payable feed.feed_payment_routes e q)
            ]
            | inr e ↦ elim block [
              | inl d ↦ absurd (ground arith)
              | inr q ↦
                  let later =
                    check_tracks_complete feed.feed_payment_routes true feed.tracks (λ r. refl)
                      tracks in
                  ground (arith, e, later, validate_routes_complete feed.feed_payment_routes q)
            ]
          ])
