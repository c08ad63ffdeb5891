-- ===== src/Verify/Config.antt =====
-- `ChainSpec::from_env` of src/verify.rs and the chain that `build_chain` makes of the names.
-- `env` is the value of VERIFIER_CHAIN, empty where the variable is absent.
use stophammer.Common.{
  ◌≡◌, refl, ap, ◌∙◌, Bool, true, false, not, List, [], ◌∷◌, String, str_eq, select, map, arith,
  All, Any, here, there, ◌⊎◌, Bool-cases, inl, inr, any, eq_iff, ◌||◌,
}
use stophammer.Common.Text.{is_empty, trim, split}
use stophammer.Verify.Chain.{
  Verifier, VerifierChain, Startup, started, panicked, new, require_crawl_token, Arm, built,
  skipped, unknown, arm, push, verifiers_for, new_with, build_chain,
}

abbrev pub default_chain : String
default_chain = "content_hash,medium_music,feed_guid,v4v_payment,enclosure_type"

unfoldable pub names_in : String → List String
unfolding split trim
names_in raw = select (λ s. not (is_empty s)) (map trim (split b',' raw))

abbrev or_default : List String → List String
or_default [] = names_in default_chain
or_default (n ∷ ns) = n ∷ ns

unfoldable pub from_env : String → List String
unfolding names_in
from_env env = or_default (names_in env)

abbrev pub valid_names : List String
valid_names =
    "content_hash" ∷ "medium_music" ∷ "feed_guid" ∷ "v4v_payment" ∷ "payment_route_sum"
    ∷ "enclosure_type" ∷ []

abbrev is_built : Arm → Bool
is_built (built v) = true
is_built skipped = false
is_built unknown = false

abbrev is_skipped : Arm → Bool
is_skipped (built v) = false
is_skipped skipped = true
is_skipped unknown = false

abbrev name_of : Arm → String → String
name_of (built v) n = v.name
name_of skipped n = n
name_of unknown n = n

abbrev pub is_valid_name : String → Bool
is_valid_name n = any (str_eq n) valid_names

module _ (is_uuid : String → Bool) (n : String) where
  arm-is_skipped : is_skipped (arm is_uuid n) ≡ str_eq n "feed_blocklist"
  unfolding arm
  arm-is_skipped = elim (Bool-cases (str_eq n "feed_blocklist")) [
    | inl e ↦ rw ((eq_iff n "feed_blocklist").0 e) refl
    | inr e ↦ ground arith
  ]

  arm-is_built : is_built (arm is_uuid n) ≡ is_valid_name n
  unfolding arm any
  arm-is_built = elim (Bool-cases (str_eq n "feed_blocklist")) [
    | inl e ↦ rw ((eq_iff n "feed_blocklist").0 e) refl
    | inr e ↦ elim (Bool-cases (str_eq n "crawl_token")) [
      | inl d ↦ rw ((eq_iff n "crawl_token").0 d) refl
      | inr d ↦ ground arith
    ]
  ]

  arm-name_of : name_of (arm is_uuid n) n ≡ n
  unfolding arm
  arm-name_of = ground (
    arith,
    eq_iff n "content_hash",
    eq_iff n "medium_music",
    eq_iff n "feed_guid",
    eq_iff n "v4v_payment",
    eq_iff n "payment_route_sum",
    eq_iff n "enclosure_type",
  )

abbrev pub is_accepted : String → Bool
is_accepted n = is_valid_name n || str_eq n "feed_blocklist"

abbrev pub is_verifier : String → Bool
is_verifier n = not (str_eq n "feed_blocklist")

module _ (is_uuid : String → Bool) where
  -- Each check of the chain is the one of its name.
  abbrev pub IsMadeBy : Verifier → Type 0
  IsMadeBy v = arm is_uuid v.name ≡ built v

  abbrev pub MadeOf : List String → Startup (List Verifier) → Type 0
  MadeOf names (started vs) =
      All (λ n. is_accepted n ≡ true) names
      × (map (λ v. v.name) vs ≡ select is_verifier names)
      × All IsMadeBy vs
  MadeOf names panicked = Any (λ n. is_accepted n ≡ false) names

  push-MadeOf :
      (n : String) (names : List String) (a : Arm) (r : Startup (List Verifier))
      → arm is_uuid n ≡ a
      → MadeOf names r
      → MadeOf (n ∷ names) (push a r)
  unfolding select
  push-MadeOf n names (built v) (started vs) e (valid, same, made) =
      let named : v.name ≡ n = ground (arith, e, arm-name_of is_uuid n) in
      let accepted : is_accepted n ≡ true = ground (arith, e, arm-is_built is_uuid n) in
      let kept : str_eq n "feed_blocklist" ≡ false = ground (arith, e, arm-is_skipped is_uuid n) in
      (
        (accepted, valid),
        rw (kept, named) (ap (λ l. n ∷ l) same),
        (ap (arm is_uuid) named ∙ e, made),
      )
  push-MadeOf n names (built v) panicked e later = there later
  push-MadeOf n names skipped (started vs) e (valid, same, made) =
      let is_list : str_eq n "feed_blocklist" ≡ true =
        ground (arith, e, arm-is_skipped is_uuid n) in
      ((ground (arith, is_list), valid), rw is_list same, made)
  push-MadeOf n names skipped panicked e later = there later
  push-MadeOf n names unknown r e later =
      here (ground (arith, e, arm-is_skipped is_uuid n, arm-is_built is_uuid n))

  verifiers_for-MadeOf : (names : List String) → MadeOf names (verifiers_for is_uuid names)
  unfolding verifiers_for select
  verifiers_for-MadeOf [] = (tt, refl, tt)
  verifiers_for-MadeOf (n ∷ names) =
      push-MadeOf n names (arm is_uuid n) (verifiers_for is_uuid names) refl
        (verifiers_for-MadeOf names)

  abbrev pub Builds : List String → String → Startup VerifierChain → Type 0
  Builds names crawl_token (started chain) =
      MadeOf names (started chain.verifiers)
      × (chain.crawl_token ≡ crawl_token)
      × (require_crawl_token crawl_token ≡ true)
  Builds names crawl_token panicked =
      Any (λ n. is_accepted n ≡ false) names ⊎ (require_crawl_token crawl_token ≡ false)

  new_with-Builds :
      (names : List String) (crawl_token : String) (r : Startup (List Verifier))
      → MadeOf names r
      → Builds names crawl_token (new_with crawl_token r)
  unfolding new require_crawl_token
  new_with-Builds names crawl_token panicked m = inl m
  new_with-Builds names crawl_token (started vs) m =
      elim (Bool-cases (is_empty (trim crawl_token))) [
        | inl e ↦ rw e (inr (ground (arith, e)))
        | inr e ↦ rw e (m, refl, ground (arith, e))
      ]

  pub build_chain-Builds :
      (names : List String) (crawl_token : String)
      → Builds names crawl_token (build_chain is_uuid names crawl_token)
  unfolding build_chain
  build_chain-Builds names crawl_token =
      new_with-Builds names crawl_token (verifiers_for is_uuid names) (verifiers_for-MadeOf names)
