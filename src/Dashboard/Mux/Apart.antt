-- ===== src/Dashboard/Mux/Apart.antt =====
-- No two routes take the same request, so that their order does not matter.
use rv_tx.Base.{
  ◌≡◌, ◌≤◌, refl, inl, inr, String, Bool, true, false, not, ◌&&◌, ◌||◌, Option, none, some, List,
  [], ◌∷◌, keep, all, length, arith, Bool-cases, eq_iff, ◌==◌,
}
use rv_tx.Dashboard.Mux.{
  HttpRequest, Decoders, Segment, lit, wild, match_path, match_method, Route, routes,
}

-- Whether some path fits both patterns, by their literals and lengths.
overlap : List Segment → List Segment → Bool
overlap [] [] = true
overlap [] (q ∷ qs) = false
overlap (p ∷ ps) [] = false
overlap (lit a ∷ ps) (lit b ∷ qs) = a == b && overlap ps qs
overlap (lit a ∷ ps) (wild ∷ qs) = overlap ps qs
overlap (wild ∷ ps) (lit b ∷ qs) = overlap ps qs
overlap (wild ∷ ps) (wild ∷ qs) = overlap ps qs

abbrev is_some : {A : Type 0} → Option A → Bool
is_some none = false
is_some (some a) = true

abbrev fits : List Segment → List String → Bool
fits pattern path = is_some (match_path pattern path)

fits-lit :
    (name s : String) (pattern : List Segment) (path : List String)
    → fits (lit name ∷ pattern) (s ∷ path) ≡ true
    → (name ≡ s) × (fits pattern path ≡ true)
unfolding match_path
fits-lit name s pattern path h = ground (arith, eq_iff name s)

fits-wild :
    (s : String) (pattern : List Segment) (path : List String)
    → fits (wild ∷ pattern) (s ∷ path) ≡ true
    → fits pattern path ≡ true
unfolding match_path
fits-wild s pattern path h = ground arith

overlap-fits :
    (ps qs : List Segment) (path : List String)
    → fits ps path ≡ true
    → fits qs path ≡ true
    → overlap ps qs ≡ true
unfolding overlap match_path
overlap-fits [] [] path h k = refl
overlap-fits [] (q ∷ qs) [] h k = cc
overlap-fits [] (q ∷ qs) (s ∷ path) h k = cc
overlap-fits (p ∷ ps) [] [] h k = cc
overlap-fits (p ∷ ps) [] (s ∷ path) h k = cc
overlap-fits (p ∷ ps) (q ∷ qs) [] h k = cc
overlap-fits (lit a ∷ ps) (lit b ∷ qs) (s ∷ path) h k =
    let (is_a, rest) = fits-lit a s ps path h in
    let (is_b, rest') = fits-lit b s qs path k in
    ground (arith, eq_iff a b, overlap-fits ps qs path rest rest')
overlap-fits (lit a ∷ ps) (wild ∷ qs) (s ∷ path) h k =
    overlap-fits ps qs path (fits-lit a s ps path h).1 (fits-wild s qs path k)
overlap-fits (wild ∷ ps) (lit b ∷ qs) (s ∷ path) h k =
    overlap-fits ps qs path (fits-wild s ps path h) (fits-lit b s qs path k).1
overlap-fits (wild ∷ ps) (wild ∷ qs) (s ∷ path) h k =
    overlap-fits ps qs path (fits-wild s ps path h) (fits-wild s qs path k)

-- Whether some method fits both routes.
share : Option String → Option String → Bool
share none m = true
share (some a) none = true
share (some a) (some b) = a == b || (a == "GET" && b == "HEAD") || (a == "HEAD" && b == "GET")

share-match :
    (a b : Option String) (method : String)
    → match_method a method ≡ true
    → match_method b method ≡ true
    → share a b ≡ true
unfolding share match_method
share-match none b method h k = refl
share-match (some a) none method h k = refl
share-match (some a) (some b) method h k = ground (
  arith,
  eq_iff a b,
  eq_iff a method,
  eq_iff b method,
  eq_iff a "GET",
  eq_iff b "GET",
  eq_iff method "HEAD",
  eq_iff a "HEAD",
  eq_iff b "HEAD",
)

-- Whether the route takes the request.
abbrev pub takes : HttpRequest → Route → Bool
takes r route = fits route.pattern r.path && match_method route.method r.method

abbrev clash : Route → Route → Bool
clash a b = overlap a.pattern b.pattern && share a.method b.method

clash-takes :
    (r : HttpRequest) (a b : Route) → takes r a ≡ true → clash a b ≡ false → takes r b ≡ false
clash-takes r a b h c = elim (Bool-cases (takes r b)) [
  | inl both ↦
      let path = overlap-fits a.pattern b.pattern r.path (ground arith) (ground arith) in
      let method = share-match a.method b.method r.method (ground arith) (ground arith) in
      absurd (ground arith)
  | inr alone ↦ alone
]

apart : List Route → Bool
apart [] = true
apart (a ∷ routes) = all (λ b. not (clash a b)) routes && apart routes

both : (a b : Bool) → (a && b) ≡ true → (a ≡ true) × (b ≡ true)
both a b h = ground arith

cleared : (a b : Bool) → (not a && b) ≡ true → (a ≡ false) × (b ≡ true)
cleared a b h = ground arith

none_left :
    (r : HttpRequest) (a : Route) (rest : List Route)
    → takes r a ≡ true
    → all (λ b. not (clash a b)) rest ≡ true
    → length (keep (takes r) rest) ≡ 0
none_left r a [] h c = refl
none_left r a (b ∷ rest) h c =
    let (apart_b, others) = cleared (clash a b) _ c in
    rw (clash-takes r a b h apart_b, keep) (none_left r a rest h others)

at_most_one :
    (r : HttpRequest) (rest : List Route) → apart rest ≡ true → length (keep (takes r) rest) ≤ 1
unfolding apart
at_most_one r [] h = omega arith
at_most_one r (a ∷ rest) h = elim (Bool-cases (takes r a)) [
  | inl taken ↦
      let no_other = none_left r a rest taken (both _ _ h).0 in rw (taken, keep) (omega arith)
  | inr other ↦ rw (other, keep) (at_most_one r rest (both _ _ h).1)
]

routes_apart : (d : Decoders) → apart (routes d) ≡ true
unfolding apart routes overlap share
routes_apart d = refl

-- Whatever the request, at most one of the routes of main takes it.
pub routes-exclusive : (d : Decoders) (r : HttpRequest) → length (keep (takes r) (routes d)) ≤ 1
routes-exclusive d r = at_most_one r (routes d) (routes_apart d)
