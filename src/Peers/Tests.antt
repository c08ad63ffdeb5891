-- ===== src/Peers/Tests.antt =====
-- Runs of the push and of the registration on one peer.
use stophammer.Common.{
  ℕ, ◌≡◌, refl, true, false, none, some, [], ◌∷◌, str_eq, Bool-cases, ◌⊎◌, inl, inr, arith,
  if◌then◌else◌,
}
use stophammer.Common.Int.{pos, ◌+ℤ◌, sub_i64}
use stophammer.Common.Keyed.{find, put, update, remove}
use stophammer.FetchGuard.Guard.{Net, Url, validate_node_url, is_url_ssrf_safe}
use stophammer.FetchGuard.Address.{
  Ipv4Addr, v4, is_private_ip, is_public_ip, is_public_ipv4, is_loopback, is_private, is_link_local,
  is_broadcast, is_unspecified, is_multicast, documentation, benchmark, cgnat,
}
use stophammer.Peers.State.{
  PeerNode, PushState, increment_peer_failures, upsert_peer_node, reset_peer_failures,
}
use stophammer.Peers.Push.{
  Answer, success_status, failures_of, handle_push_failure, attempts, push_to_peer,
}
use stophammer.Peers.Register.{RegisterRequest, registered, handle_sync_register}
use stophammer.Peers.Cache.{
  Agrees, IsCached, IsInOrder, push_to_peer-IsCached, handle_sync_register-IsCached,
}
use stophammer.Peers.Failures.{push_to_peer-counts_twice, IsChecked, handle_sync_register-IsChecked}

abbrev peer : PeerNode
peer = record {
  node_url = "https://peer.example";
  discovered_at = pos 1;
  last_push_at = none;
  consecutive_failures = pos 8;
}

abbrev state : PushState
state = record { peers = ("k", peer) ∷ []; push_subscribers = ("k", "https://peer.example") ∷ [] }

abbrev nobody : PushState
nobody = record { peers = []; push_subscribers = [] }

abbrev rejecting : ℕ → Answer
rejecting n = success_status (some 3)

runs : Unit {0}
unfolding push_to_peer attempts handle_push_failure increment_peer_failures find put update remove
    ◌+ℤ◌
runs = tt

-- One push with rejections takes a peer from eight failures to ten, and out of the cache.
push_test : push_to_peer (pos 5) true rejecting state "k" ≡ record {
  peers =
      (
        "k",
        record {
          node_url = "https://peer.example";
          discovered_at = pos 1;
          last_push_at = none;
          consecutive_failures = pos 10;
        },
      )
      ∷ [];
  push_subscribers = [];
}
unfolding runs
push_test = refl

push_to_peer-counts_twice_example :
    failures_of (find "k" (push_to_peer (pos 5) true rejecting state "k").peers)
    ≡ ((pos 8 +ℤ pos 1) +ℤ pos 1)
unfolding runs
push_to_peer-counts_twice_example =
    push_to_peer-counts_twice (pos 5) rejecting state "k" peer 2 refl refl

-- The state agrees with its table.
state-IsCached : IsCached state
unfolding find
state-IsCached k = by_key (Bool-cases (str_eq "k" k))
  where
    by_key :
        (str_eq "k" k ≡ true) ⊎ (str_eq "k" k ≡ false)
        → Agrees
            (if str_eq "k" k then some "https://peer.example" else none)
            (if str_eq "k" k then some peer else none)
    by_key (inl e) = rw e (refl, omega arith)
    by_key (inr e) = rw e tt

push_to_peer-IsCached_example : IsCached (push_to_peer (pos 5) true rejecting state "k")
push_to_peer-IsCached_example =
    push_to_peer-IsCached (pos 5) true rejecting state "k" state-IsCached

abbrev peer_url : Url
peer_url = record {
  scheme = "https";
  username = "";
  password = none;
  host_str = some "new.example";
  port_or_known_default = some 443;
  text = "https://new.example";
}

abbrev public_ip : Ipv4Addr
public_ip = record { o0 = 93; o1 = 184; o2 = 216; o3 = 34 }

abbrev net : Net
net = record {
  parse = λ s. some peer_url;
  join = λ u s. none;
  parse_ip = λ s. none;
  to_socket_addrs = λ h p. some (record { ip = v4 public_ip; port = p } ∷ []);
}

abbrev request : RegisterRequest
request = record {
  node_pubkey = "k";
  node_url = "https://new.example";
  signed_at = some (pos 100);
  signature = some "sig";
}

checks : Unit {0}
unfolding runs handle_sync_register validate_node_url is_url_ssrf_safe is_private_ip is_public_ip
    is_public_ipv4 is_loopback is_private is_link_local is_broadcast is_unspecified is_multicast
    documentation benchmark cgnat sub_i64 reset_peer_failures upsert_peer_node
checks = tt

-- The request is accepted, takes the place of the old URL and clears the eight failures.
accepted : handle_sync_register net (λ k u a s. true) (λ u k. true) (pos 130) state request ≡ (
  record {
    peers =
        (
          "k",
          record {
            node_url = "https://new.example";
            discovered_at = pos 1;
            last_push_at = none;
            consecutive_failures = pos 0;
          },
        )
        ∷ [];
    push_subscribers = ("k", "https://new.example") ∷ [];
  },
  registered,
)
unfolding checks
accepted = refl

handle_sync_register-IsCached_example :
    IsInOrder request
      (handle_sync_register net (λ k u a s. true) (λ u k. true) (pos 130) state request)
handle_sync_register-IsCached_example =
    handle_sync_register-IsCached net (λ k u a s. true) (λ u k. true) (pos 130) state request
      state-IsCached

handle_sync_register-IsChecked_example :
    IsChecked net
      (λ k u a s. true)
      (λ u k. true)
      (pos 130)
      state
      request
      (handle_sync_register net (λ k u a s. true) (λ u k. true) (pos 130) state request)
handle_sync_register-IsChecked_example =
    handle_sync_register-IsChecked net (λ k u a s. true) (λ u k. true) (pos 130) state request
