-- ===== src/Peers/Push.antt =====
-- The push of one batch to one peer, the body of `fan_out_push_inner` in src/api.rs. `answers k` is
-- the answer to attempt k. The waits between the attempts are not modelled.
use stophammer.Common.{
  ℕ, zero, suc, ◌+◌, Bool, false, Option, none, some, String, ltb, if◌then◌else◌,
}
use stophammer.Common.Int.{ℤ, pos, leb_ℤ}
use stophammer.Common.Keyed.{find, remove}
use stophammer.Peers.State.{
  PeerNode, PushState, max_peer_failures, record_push_success, increment_peer_failures,
}

-- A 2xx answer has the number of rejected events, or no body that can be read.
pub data Answer : Type 0 where
  success_status : Option ℕ → Answer
  other_status : Answer
  no_answer : Answer

pub data Delivery : Type 0 where
  delivered : Delivery
  with_rejections : Delivery
  gave_up : Delivery

abbrev pub push_max_attempts : ℕ
push_max_attempts = 3

abbrev pub push_eviction_threshold : ℤ
push_eviction_threshold = max_peer_failures

abbrev pub failures_of : Option PeerNode → ℤ
failures_of none = pos 0
failures_of (some p) = p.consecutive_failures

unfoldable pub handle_push_failure : PushState → String → PushState
unfolding increment_peer_failures
handle_push_failure s pubkey =
    let peers = increment_peer_failures s.peers pubkey in
    record {
      peers = peers;
      push_subscribers =
          if leb_ℤ push_eviction_threshold (failures_of (find pubkey peers))
          then remove pubkey s.push_subscribers
          else s.push_subscribers;
    }

abbrev pub reported_rejections : Option ℕ → Bool
reported_rejections none = false
reported_rejections (some rejected) = ltb 0 rejected

-- The attempts, with those that are left.
unfoldable pub attempts : ℕ → ℕ → (ℕ → Answer) → Delivery
attempts zero attempt answers = gave_up
attempts (suc left) attempt answers = next (answers attempt) (attempts left (attempt + 1) answers)
  where
    next : Answer → Delivery → Delivery
    next (success_status body) later =
        if reported_rejections body then with_rejections else delivered
    next other_status later = later
    next no_answer later = later

-- `check_push_response_rejections` counts the failure of an answer with rejections; the code after the
-- loop counts it again, since the push was no success.
abbrev pub settle : ℤ → String → PushState → Delivery → PushState
settle now pubkey s delivered = record {
  peers = record_push_success s.peers pubkey now;
  push_subscribers = s.push_subscribers;
}
settle now pubkey s with_rejections = handle_push_failure (handle_push_failure s pubkey) pubkey
settle now pubkey s gave_up = handle_push_failure s pubkey

-- `url_ok` says that the push URL parses and is safe.
unfoldable pub push_to_peer : ℤ → Bool → (ℕ → Answer) → PushState → String → PushState
unfolding attempts handle_push_failure record_push_success
push_to_peer now url_ok answers s pubkey =
    if url_ok then settle now pubkey s (attempts push_max_attempts 0 answers) else s
