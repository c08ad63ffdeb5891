-- ===== src/Moves/Justified.antt =====
-- What each answer of `move_target` in src/api.rs rests on.
use stophammer.Common.{
  ◌≡◌, ◌≢◌, ◌⊎◌, inl, inr, refl, sym, ◌∙◌, Bool, true, false, Option, none, some, List, String,
  str_eq, opt_eq, opt_eq_iff, eq_iff, contains, Bool-cases, arith, if◌then◌else◌,
}
use stophammer.Common.Int.{ℤ}
use stophammer.Moves.State.{
  FeedRow, MoveState, MoveDb, SubmissionClass, record_conflict, guid_change, update, mirror,
  new_feed, has_guid, first_row, classify_submission, get_left_urls, get_move_state,
}
use stophammer.Moves.Decide.{
  RedirectHop, Trigger, new_feed_url, self_link, permanent_redirect, MoveTarget, MoveDecision,
  no_trigger, move, refused, waiting_redirect, next_return_values, is_waiting, is_new_feed_url, own,
  mirror_move, mirror_trigger, is_no_redirect, permanent_move, redirect_move, decide, move_target,
}

module _ (db : MoveDb) (feed_guid source_url canonical_url : String) (redirects : List RedirectHop)
    (body_new_feed_url : Option String) (now : ℤ) where
  abbrev IsLeft : String → Type 0
  IsLeft url = contains url (get_left_urls db.left_urls feed_guid) ≡ true

  abbrev held : MoveState
  held = get_move_state db.move_states feed_guid

  -- The record goes back to a URL that it left.
  abbrev pub IsReturn : MoveTarget → Type 0
  IsReturn t =
      IsLeft t.new_feed_url
      × (is_waiting held now ≡ false)
      × (t.return_values ≡ some (next_return_values held now))
      × ((t.trigger ≡ permanent_redirect)
          ⊎ ((t.trigger ≡ new_feed_url)
              × (body_new_feed_url ≡ some t.new_feed_url)
              × (held.arrival_tag ≢ some t.new_feed_url)))

  abbrev pub IsFirst : MoveTarget → Type 0
  IsFirst t =
      (contains t.new_feed_url (get_left_urls db.left_urls feed_guid) ≡ false)
      × (t.return_values ≡ none)

  abbrev pub IsJustified : MoveDecision → Type 0
  IsJustified no_trigger = Unit
  IsJustified (move t) =
      ((t.new_feed_url ≡ source_url) ⊎ (t.new_feed_url ≡ canonical_url)) × (IsFirst t ⊎ IsReturn t)
  IsJustified (refused url) = IsLeft url
  IsJustified (waiting_redirect url) =
      (url ≡ canonical_url) × IsLeft url × (is_waiting held now ≡ true)

  abbrev the_move : String → Trigger → MoveDecision
  the_move = mirror_move db feed_guid source_url canonical_url redirects body_new_feed_url now

  own-url :
      (o : Option String) (url : String)
      → own source_url canonical_url o ≡ some url
      → (url ≡ source_url) ⊎ (url ≡ canonical_url)
  own-url none url h = cc
  own-url (some u) url h = elim (Bool-cases (str_eq u source_url)) [
    | inl e ↦ let same : u ≡ url = ground arith in inl (sym same ∙ (eq_iff u source_url).0 e)
    | inr e ↦
        let q : str_eq u canonical_url ≡ true = ground arith in
        let same : u ≡ url = ground arith in inr (sym same ∙ (eq_iff u canonical_url).0 q)
  ]

  new_trigger : (trigger : Trigger) → is_new_feed_url trigger ≡ true → trigger ≡ new_feed_url
  new_trigger new_feed_url h = refl
  new_trigger self_link h = cc
  new_trigger permanent_redirect h = cc

  mirror_move-IsJustified :
      (url : String) (trigger : Trigger)
      → ((url ≡ source_url) ⊎ (url ≡ canonical_url))
      → IsJustified (the_move url trigger)
  mirror_move-IsJustified url trigger own =
      elim (Bool-cases (contains url (get_left_urls db.left_urls feed_guid))) [
        | inr e ↦ rw e (own, inl (e, refl))
        | inl e ↦
            by_cases (is_new_feed_url trigger) (opt_eq body_new_feed_url (some url))
              (opt_eq held.arrival_tag (some url)) (is_waiting held now) refl refl refl refl e
      ]
    where
      by_cases :
          (a b c d : Bool)
          → is_new_feed_url trigger ≡ a
          → opt_eq body_new_feed_url (some url) ≡ b
          → opt_eq held.arrival_tag (some url) ≡ c
          → is_waiting held now ≡ d
          → IsLeft url
          → IsJustified (the_move url trigger)
      by_cases true true false false ea eb ec ed e =
          rw (e, ea, eb, ec, ed)
            (
              own,
              inr (
                e,
                ed,
                refl,
                inr (
                  new_trigger trigger ea,
                  (opt_eq_iff body_new_feed_url (some url)).0 eb,
                  λ p. let q = (opt_eq_iff held.arrival_tag (some url)).1 p in cc,
                ),
              ),
            )
      by_cases false b c d ea eb ec ed e = rw (e, ea) e
      by_cases true false c d ea eb ec ed e = rw (e, ea, eb) e
      by_cases true true true d ea eb ec ed e = rw (e, ea, eb, ec) e
      by_cases true true false true ea eb ec ed e = rw (e, ea, eb, ec, ed) e

  mirror_trigger-IsJustified :
      (o p : Option String)
      → ((u : String) → o ≡ some u → (u ≡ source_url) ⊎ (u ≡ canonical_url))
      → ((u : String) → p ≡ some u → (u ≡ source_url) ⊎ (u ≡ canonical_url))
      → IsJustified
          (mirror_trigger db feed_guid source_url canonical_url redirects body_new_feed_url now o p)
  mirror_trigger-IsJustified (some url) p h k =
      mirror_move-IsJustified url new_feed_url (h url refl)
  mirror_trigger-IsJustified none (some url) h k =
      mirror_move-IsJustified url self_link (k url refl)
  mirror_trigger-IsJustified none none h k = tt

  guarded :
      (b : Bool) (d : MoveDecision) → IsJustified d → IsJustified (if b then no_trigger else d)
  guarded true d h = tt
  guarded false d h = h

  redirect_move-IsJustified :
      (feed : Option FeedRow)
      → IsJustified
          (redirect_move db feed_guid source_url canonical_url redirects body_new_feed_url now feed)
  redirect_move-IsJustified none = tt
  redirect_move-IsJustified (some feed) =
      guarded
        (is_no_redirect db feed_guid source_url canonical_url redirects body_new_feed_url now feed)
        (permanent_move db feed_guid source_url canonical_url redirects body_new_feed_url now)
        (elim (Bool-cases (contains canonical_url (get_left_urls db.left_urls feed_guid))) [
          | inr e ↦ rw e (inr refl, inl (e, refl))
          | inl e ↦ elim (Bool-cases (is_waiting held now)) [
            | inl w ↦ rw (e, w) (refl, e, w)
            | inr w ↦ rw (e, w) (inr refl, inr (e, w, refl, inl refl))
          ]
        ])

  -- Each answer of `move_target` has its reason. A record moves to one of the two URLs of the
  -- submission. It never left that URL, and the move is no return; or it left it, no wait is active, the
  -- next count is stored, and the trigger is a permanent redirect or a `new-feed-url` tag that the body
  -- at that URL repeats and that is not the arrival tag. A refusal and a waiting redirect name a URL
  -- that the record left, and during a waiting redirect a wait is active.
  pub move_target-IsJustified :
      IsJustified
        (move_target db feed_guid source_url canonical_url redirects body_new_feed_url now)
  unfolding move_target
  move_target-IsJustified =
      by_class (first_row (has_guid feed_guid) db.feeds)
        (classify_submission db.feeds feed_guid source_url canonical_url)
    where
      by_class :
          (feed : Option FeedRow) (c : SubmissionClass)
          → IsJustified
              (decide db feed_guid source_url canonical_url redirects body_new_feed_url now feed c)
      by_class feed (mirror url) =
          mirror_trigger-IsJustified _ _ (λ u. own-url _ u) (λ u. own-url _ u)
      by_class feed update = redirect_move-IsJustified feed
      by_class feed record_conflict = tt
      by_class feed (guid_change other) = tt
      by_class feed new_feed = tt
