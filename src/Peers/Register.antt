-- ===== src/Peers/Register.antt =====
-- `handle_sync_register` of src/api.rs. The check of the sync token comes before and is not modelled.
-- `verify` is the check of the signature over the payload, and `answers` says that the target, asked
-- for its node info, shows the same key.
use stophammer.Common.{Bool, not, Option, none, some, String, if◌then◌else◌}
use stophammer.Common.Int.{ℤ, pos, negsuc, sub_i64, ltb_ℤ}
use stophammer.Common.Keyed.{put}
use stophammer.FetchGuard.Guard.{Net, Checked, ok, err, validate_node_url}
use stophammer.Peers.State.{PushState, upsert_peer_node, reset_peer_failures}

pub record RegisterRequest : Type 0 where
  pub node_pubkey : String
  pub node_url : String
  pub signed_at : Option ℤ
  pub signature : Option String

pub data Registered : Type 0 where
  bad_request forbidden unprocessable bad_target : Registered
  registered : Registered

abbrev pub sync_register_max_skew_secs : ℤ
sync_register_max_skew_secs = pos 600

-- `i64::abs` in a release build: the smallest i64 stays as it is.
abbrev pub abs_i64 : ℤ → ℤ
abs_i64 (pos n) = pos n
abs_i64 (negsuc n) = sub_i64 (pos 0) (negsuc n)

module _ (net : Net) (verify : String → String → ℤ → String → Bool)
    (answers : String → String → Bool) (now : ℤ) where
  abbrev pub stored : PushState → RegisterRequest → PushState
  stored s req = record {
    peers =
        reset_peer_failures (upsert_peer_node s.peers req.node_pubkey req.node_url now)
          req.node_pubkey;
    push_subscribers = put req.node_pubkey req.node_url s.push_subscribers;
  }

  abbrev pub after_url : PushState → RegisterRequest → Checked (Unit {0}) → PushState × Registered
  after_url s req (err e) = (s, unprocessable)
  after_url s req (ok u) =
      if answers req.node_url req.node_pubkey then (stored s req, registered) else (s, bad_target)

  abbrev pub with_signature :
      PushState → RegisterRequest → Option ℤ → Option String → PushState × Registered
  with_signature s req none _ = (s, bad_request)
  with_signature s req (some signed_at) none = (s, bad_request)
  with_signature s req (some signed_at) (some signature) =
      if ltb_ℤ sync_register_max_skew_secs (abs_i64 (sub_i64 now signed_at))
      then (s, bad_request)
      else if not (verify req.node_pubkey req.node_url signed_at signature)
      then (s, forbidden)
      else after_url s req (validate_node_url net req.node_url)

  unfoldable pub handle_sync_register : PushState → RegisterRequest → PushState × Registered
  unfolding upsert_peer_node reset_peer_failures validate_node_url
  handle_sync_register s req = with_signature s req req.signed_at req.signature
