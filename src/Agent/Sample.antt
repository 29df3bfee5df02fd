-- ===== src/Agent/Sample.antt =====
-- A machine whose state is its peers and its routes, for the tests.
use rv_tx.Base.{
  ◌≡◌, refl, String, Bool, true, false, not, List, [], ◌∷◌, contains, if◌then◌else◌, ◌==◌, arith,
  eq_iff,
}
use rv_tx.Base.Trim.{trim_space}
use rv_tx.Agent.{System}
use rv_tx.Agent.Peers.{IsWireguard}
use rv_tx.Agent.Routes.{IsRouting}

abbrev pub Machine : Type 0
Machine = List String × List String

unfoldable pub without : String → List String → List String
without x [] = []
without x (y ∷ ys) = let rest = without x ys in if y == x then rest else y ∷ rest

contains-without :
    (x z : String) (ys : List String)
    → contains (without x ys) z ≡ (if x == z then false else contains ys z)
unfolding without contains
contains-without x z [] = ground arith
contains-without x z (y ∷ ys) =
    ground (arith, eq_iff y x, eq_iff y z, eq_iff x z, contains-without x z ys)

contains-cons :
    (x z : String) (ys : List String)
    → contains (x ∷ ys) z ≡ (if x == z then true else contains ys z)
unfolding contains
contains-cons x z ys = ground arith

abbrev pub command : String → String → String → String → List String → Machine → Machine
command name x y z rest (peers, routes) =
    if name == "wg"
    then (elim rest [
      | [] ↦ (peers, routes)
      | w ∷ ws ↦ (if w == "remove" then without z peers else z ∷ peers, routes)
    ])
    else (peers, if x == "add" then y ∷ routes else without y routes)

abbrev pub execute : List String → Machine → Machine × Bool
execute (name ∷ verb ∷ x ∷ y ∷ z ∷ rest) s = (command name x y z rest s, true)
execute _ s = (s, false)

abbrev pub listing : List String → String
listing [] = ""
listing (p ∷ ps) = "stale\t10.8.0.9/32\nk1\t10.8.0.1/32\n"

abbrev pub print : List String → Machine → String × Bool
print (name ∷ verb ∷ x ∷ y ∷ rest) s =
    (if name == "wg" then listing s.0 else (if contains s.1 y then "route" else ""), true)
print _ s = ("", false)

abbrev pub machine : System Machine
machine = record { run = execute; run_with_stdin = λ input args s. execute args s; output = print }

abbrev pub has_peer : Machine → String → Bool
has_peer s key = contains s.0 key

abbrev pub routed : Machine → String → Bool
routed s cidr = contains s.1 cidr

pub machine-IsWireguard : IsWireguard machine "wg0" has_peer
machine-IsWireguard = record {
  removes = λ key other s _. contains-without key other s.0;
  sets = λ p other s _. contains-cons p.public_key other s.0;
  routes = λ verb cidr other s. refl;
}

abbrev pub shown_route : Bool → String
shown_route b = if b then "route" else ""

route_shown : (b : Bool) → (trim_space (shown_route b) == "") ≡ not b
unfolding trim_space
route_shown true = refl
route_shown false = refl

pub machine-IsRouting : IsRouting machine "wg0" routed
machine-IsRouting = record {
  adds = λ cidr other s _. contains-cons cidr other s.1;
  sets = λ p other s. refl;
  shows = λ cidr s. route_shown (contains s.1 cidr);
}
