-- ===== src/Agent/Tests.antt =====
-- A machine of peers and routes, a reconciliation on it, and the theorems at it.
use rv_tx.Base.{
  ◌≡◌, refl, String, true, not, ◌&&◌, ◌||◌, some, List, [], ◌∷◌, All, contains, false, ◌==◌,
  ne_of_eq-false,
}
use rv_tx.Base.Dict.{Dict, insert}
use rv_tx.Base.Text.{split, cut_prefix}
use rv_tx.Protocol.{PeerInfo}
use rv_tx.Base.Trim.{trim_space}
use rv_tx.Agent.Shown.{solid, IsWord, IsPeer, shown, assigned}
use rv_tx.Agent.Shown.Reads.{parse_peers-shown}
use rv_tx.Agent.Output.{parse_peers, fields, contains_text}
use rv_tx.Agent.{
  current_peers, has_route, delete_routes, wanted, remove_stale, add_routes, set_peers, reconcile,
}
use rv_tx.Agent.Sample.{Machine, without, machine, has_peer, machine-IsWireguard}
use rv_tx.Agent.Peers.{is_key, reconcile-peers}
use rv_tx.Agent.Client.{first_backoff, Round, passes, done_waiting, next_backoff, run_delays}

-- The output of `wg show wg0 allowed-ips`: a tab after the key, blanks between the networks.
parsed :
    parse_peers "k1\t10.8.0.1/32 192.168.7.0/24\nk2\t(none)\n"
    ≡ ("k1", "10.8.0.1/32" ∷ "192.168.7.0/24" ∷ []) ∷ ("k2", []) ∷ []
unfolding parse_peers split fields insert
parsed = refl

-- The address is searched in the whole text, so that a longer one passes for it.
passes_for : contains_text "inet 110.0.0.5/32 scope global wg0" "10.0.0.5/32" ≡ true
unfolding contains_text cut_prefix
passes_for = refl

abbrev k1 : PeerInfo
k1 = record {
  public_key = "k1";
  mesh_ip = "10.8.0.1";
  endpoint = "203.0.113.7:51820";
  advertised_subnets = "192.168.7.0/24" ∷ [];
}

abbrev before : Machine
before = ("stale" ∷ "k1" ∷ [], "10.8.0.9/32" ∷ "10.8.0.1/32" ∷ [])

abbrev after : Machine
after = ("k1" ∷ "k1" ∷ [], "192.168.7.0/24" ∷ "10.8.0.1/32" ∷ [])

abbrev current : Dict (List String)
current = ("stale", "10.8.0.9/32" ∷ []) ∷ ("k1", "10.8.0.1/32" ∷ []) ∷ []

shows_both : current_peers machine "wg0" before ≡ some current
unfolding current_peers parse_peers split fields insert
shows_both = refl

reconciles : reconcile machine "wg0" (λ m. m) (k1 ∷ []) before ≡ (after, true)
unfolding reconcile current_peers parse_peers split fields insert remove_stale wanted delete_routes
    without set_peers add_routes has_route contains trim_space
reconciles = refl

reconcile-peers_example : has_peer after "stale" ≡ (
    wanted machine "wg0" (k1 ∷ []) "stale"
    || (has_peer before "stale" && not (is_key "stale" current)))
reconcile-peers_example =
    reconcile-peers machine "wg0" has_peer machine-IsWireguard "stale" (λ m. m) (k1 ∷ []) before
      (λ m. refl) shows_both reconciles

abbrev rounds : List Round
rounds = passes ∷ passes ∷ passes ∷ passes ∷ passes ∷ done_waiting ∷ []

delays :
    run_delays first_backoff rounds
    ≡ 2000000000 ∷ 4000000000 ∷ 8000000000 ∷ 16000000000 ∷ 30000000000 ∷ 30000000000 ∷ []
unfolding run_delays next_backoff
delays = refl

-- A relay of two networks and a peer without any.
abbrev relay : String × List String
relay = ("k1=", "10.8.0.2/32" ∷ "192.168.7.0/24" ∷ [])

word : (w : String) → (w == "") ≡ false → solid w ≡ true → IsWord w
word w some_text h = (ne_of_eq-false w "" some_text, h)

relay-IsPeer : All IsPeer (relay ∷ ("k2=", []) ∷ [])
unfolding solid
relay-IsPeer = (
  (
    word "k1=" refl refl,
    (
      (word "10.8.0.2/32" refl refl, ne_of_eq-false _ "(none)" refl),
      ((word "192.168.7.0/24" refl refl, ne_of_eq-false _ "(none)" refl), tt),
    ),
  ),
  ((word "k2=" refl refl, tt), tt),
)

parse_peers-shown_example :
    parse_peers (shown (relay ∷ ("k2=", []) ∷ [])) ≡ assigned (relay ∷ ("k2=", []) ∷ []) []
parse_peers-shown_example = parse_peers-shown (relay ∷ ("k2=", []) ∷ []) relay-IsPeer
