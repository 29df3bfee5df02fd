-- ===== src/Dashboard/Mux/Tests.antt =====
-- Requests with their methods and paths, and the theorems at them.
use Prim.Native.String.{◌++◌ as append}
use rv_tx.Base.{ℕ, ◌≡◌, refl, String, true, false, none, some, List, [], ◌∷◌}
use rv_tx.Base.Text.{split, cut}
use rv_tx.Base.Pieces.{lacks}
use rv_tx.Mail.{message}
use rv_tx.Mail.Message.{line}
use rv_tx.Dashboard.{delete_user, list_nodes}
use rv_tx.Dashboard.Email.{is_email_address, all_plain, is_domain, has_dot_before_more}
use rv_tx.Dashboard.Letters.{invite_letter}
use rv_tx.Dashboard.Headers.{invite_letter-lines}
use rv_tx.Dashboard.Mux.{
  HttpRequest, Decoders, api, routes, find_route, match_path, match_method, spa_handler, index,
}

abbrev decoders : Decoders
decoders = record {
  credentials = λ s. none;
  token_password = λ s. some (s, "long enough");
  email = λ s. some s;
  email_role = λ s. none;
  role = λ s. some s;
  resource = λ s. none;
}

abbrev request : String → List String → HttpRequest
request method path = record {
  method = method;
  path = path;
  query_token = "";
  cookie = none;
  content = "viewer";
}

abbrev delete_v : HttpRequest
delete_v = request "DELETE" ("api" ∷ "users" ∷ "v@b.c" ∷ [])

deletes : find_route (routes decoders) delete_v ≡ some (api (delete_user "v@b.c"))
unfolding find_route routes match_path match_method
deletes = refl

-- HEAD is served as GET.
head : find_route (routes decoders) (request "HEAD" ("api" ∷ "nodes" ∷ [])) ≡ some (api list_nodes)
unfolding find_route routes match_path match_method
head = refl

-- A request with a method that no route has goes to the dashboard.
other_method : find_route (routes decoders) (request "GET" ("api" ∷ "login" ∷ [])) ≡ none
unfolding find_route routes match_path match_method
other_method = refl

-- A trailing slash is a last segment that is empty, which a wildcard does not take.
trailing : find_route (routes decoders) (request "DELETE" ("api" ∷ "users" ∷ "" ∷ [])) ≡ none
unfolding find_route routes match_path match_method
trailing = refl

falls_back : spa_handler (λ path. false) ("accept-invite" ∷ []) ≡ index
unfolding spa_handler
falls_back = refl

abbrev bytes : List ℕ
bytes = 222 ∷ 173 ∷ []

one_line : lacks 10 "rv@b.c" ≡ true
unfolding lacks
one_line = refl

address : is_email_address "x@b.c" ≡ true
unfolding is_email_address cut all_plain is_domain has_dot_before_more
address = refl

abbrev Lines : Type 0
Lines =
    let letter = invite_letter "https://dash.b.c" "x@b.c" "viewer" "dead" in
    split 10 (message "rv@b.c" letter.to letter.subject letter.body)
    ≡ line "From: " "rv@b.c"
      ∷ line "To: " "x@b.c"
      ∷ line "Subject: " "rv-tx dashboard invite"
      ∷ "\r"
      ∷ split 10 (append letter.body "\r\n")

invite_letter-lines_example : Lines
invite_letter-lines_example =
    invite_letter-lines "rv@b.c" "https://dash.b.c" "x@b.c" "viewer" "dead" one_line address
