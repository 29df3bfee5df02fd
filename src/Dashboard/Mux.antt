-- ===== src/Dashboard/Mux.antt =====
-- cmd/controlplane/main.go: the routes that main registers, and the requests of http that they serve. A
-- path is the list of its segments, unescaped; ServeMux answers a path that is not clean by a redirect to
-- the clean one, and only clean ones are modelled. What JSON bodies decode to is a Decoders.
pub mod Apart
pub mod Tests
use rv_tx.Base.{
  ℕ, String, Bool, true, false, ◌&&◌, ◌||◌, Option, none, some, List, [], ◌∷◌, ◌++◌, not,
  if◌then◌else◌, ◌==◌,
}
use rv_tx.Db.Resource.{ResourceSpec}
use rv_tx.Dashboard.{
  Site, Outside, Response, Request, login, logout, traefik_config, whoami, list_nodes,
  list_resources, invite_info, accept_invite, forgot_password, reset_password, create_resource,
  update_resource, delete_resource, list_users, invite_user, delete_user, set_user_role,
}
use rv_tx.Dashboard.Handlers.{handle}

pub record HttpRequest : Type 0 where
  pub method : String
  pub path : List String
  -- `r.URL.Query().Get("token")`
  pub query_token : String
  pub cookie : Option String
  pub content : String

-- `json.NewDecoder(r.Body).Decode`, for each of the request types.
pub record Decoders : Type 0 where
  pub credentials : String → Option (String × String)
  pub token_password : String → Option (String × String)
  pub email : String → Option String
  pub email_role : String → Option (String × String)
  pub role : String → Option String
  pub resource : String → Option ResourceSpec

pub data Segment : Type 0 where
  lit : String → Segment
  wild : Segment

-- The segments that wildcards take, if the path fits.
unfoldable pub match_path : List Segment → List String → Option (List String)
match_path [] [] = some []
match_path [] (s ∷ path) = none
match_path (p ∷ pattern) [] = none
match_path (lit name ∷ pattern) (s ∷ path) =
    let rest = match_path pattern path in if name == s then rest else none
match_path (wild ∷ pattern) (s ∷ path) = elim (match_path pattern path) [
  | none ↦ none
  | some taken ↦ if s == "" then none else some (s ∷ taken)
]

-- A pattern's method: none is all of them, and GET is also HEAD.
unfoldable pub match_method : Option String → String → Bool
match_method none method = true
match_method (some wanted) method = wanted == method || (wanted == "GET" && method == "HEAD")

-- What a route leads to.
pub data Target : Type 0 where
  agent_socket : Target
  health : Target
  api : Request → Target

pub record Route : Type 0 where
  pub method : Option String
  pub pattern : List Segment
  pub target : HttpRequest → List String → Target

abbrev first : List String → String
first [] = ""
first (s ∷ taken) = s

abbrev route : String → List Segment → (HttpRequest → List String → Request) → Route
route method pattern request = record {
  method = some method;
  pattern = lit "api" ∷ pattern;
  target = λ r taken. api (request r taken);
}

-- The routes of `main`; no two of them take the same request.
unfoldable pub routes : Decoders → List Route
routes d =
    record {
      method = none;
      pattern = lit "ws" ∷ lit "agent" ∷ [];
      target = λ r taken. agent_socket;
    }
    ∷ record { method = none; pattern = lit "healthz" ∷ []; target = λ r taken. health }
    ∷ record {
      method = none;
      pattern = lit "traefik" ∷ lit "config" ∷ [];
      target = λ r taken. api traefik_config;
    }
    ∷ route "POST" (lit "login" ∷ []) (λ r taken. login (d.credentials r.content))
    ∷ route "POST" (lit "logout" ∷ []) (λ r taken. logout)
    ∷ route "GET" (lit "invite-info" ∷ []) (λ r taken. invite_info r.query_token)
    ∷ route "POST" (lit "accept-invite" ∷ [])
        (λ r taken. accept_invite (d.token_password r.content))
    ∷ route "POST" (lit "forgot-password" ∷ []) (λ r taken. forgot_password (d.email r.content))
    ∷ route "POST" (lit "reset-password" ∷ [])
        (λ r taken. reset_password (d.token_password r.content))
    ∷ route "GET" (lit "whoami" ∷ []) (λ r taken. whoami)
    ∷ route "GET" (lit "nodes" ∷ []) (λ r taken. list_nodes)
    ∷ route "GET" (lit "resources" ∷ []) (λ r taken. list_resources)
    ∷ route "POST" (lit "resources" ∷ []) (λ r taken. create_resource (d.resource r.content))
    ∷ route "PUT" (lit "resources" ∷ wild ∷ [])
        (λ r taken. update_resource (first taken) (d.resource r.content))
    ∷ route "DELETE" (lit "resources" ∷ wild ∷ []) (λ r taken. delete_resource (first taken))
    ∷ route "GET" (lit "users" ∷ []) (λ r taken. list_users)
    ∷ route "POST" (lit "users" ∷ []) (λ r taken. invite_user (d.email_role r.content))
    ∷ route "DELETE" (lit "users" ∷ wild ∷ []) (λ r taken. delete_user (first taken))
    ∷ route "PUT" (lit "users" ∷ wild ∷ lit "role" ∷ [])
        (λ r taken. set_user_role (first taken) (d.role r.content))
    ∷ []

abbrev taken_by : Route → HttpRequest → Option (List String) → Option Target
taken_by route r none = none
taken_by route r (some taken) =
    if match_method route.method r.method then some (route.target r taken) else none

-- The target of the route that takes the request.
unfoldable pub find_route : List Route → HttpRequest → Option Target
find_route [] r = none
find_route (route ∷ rest) r = elim (taken_by route r (match_path route.pattern r.path)) [
  | some target ↦ some target
  | none ↦ find_route rest r
]

-- `spaHandler`: a file of the embedded dashboard, or the bytes of index.html.
pub data Page : Type 0 where
  index : Page
  file : List String → Page

abbrev pub stat_path : List String → List String
stat_path [] = "index.html" ∷ []
stat_path (s ∷ rest) = s ∷ rest

unfoldable pub spa_handler : (List String → Bool) → List String → Page
spa_handler exists path = if exists (stat_path path) then file path else index

pub data Reply : Type 0 where
  upgraded : Reply
  healthy : Reply
  answered : Response → Reply
  page : Page → Reply

abbrev pub reply :
    Outside → (List String → Bool) → HttpRequest → Site → Option Target → Reply × Site
reply o exists r site none = (page (spa_handler exists r.path), site)
reply o exists r site (some agent_socket) = (upgraded, site)
reply o exists r site (some health) = (healthy, site)
reply o exists r site (some (api request)) =
    let (response, site') = handle o r.cookie request site in (answered response, site')

-- The mux: every request that no route takes goes to the dashboard, also one with another method.
unfoldable pub serve_http :
    Outside → Decoders → (List String → Bool) → HttpRequest → Site → Reply × Site
unfolding routes find_route match_path match_method
serve_http o d exists r site = reply o exists r site (find_route (routes d) r)
