-- ===== src/ControlPlane/Tests.antt =====
-- A life of the control plane: an agent registers, the administrator invites a viewer twice and makes a resource
-- on the agent's node, and a stranger tries to delete the viewer.
use mathlib.Core.List.Perm
use rv_tx.Base.{◌≡◌, refl, String, true, false, none, some, List, [], ◌∷◌, map, contains}
use rv_tx.Base.Text.{pos, cut, decimal, itoa}
use rv_tx.Base.Dict.{insert}
use rv_tx.Protocol.{RegisterPayload, register}
use rv_tx.Net.{parse_cidr, ip_string, apply_mask, net_contains}
use rv_tx.Mesh.{allocate_ip, alloc_in, alloc_loop, inc_ip, last_addr, ip_equal}
use rv_tx.Db.Node.{NodeTable, used_mesh_ips, upsert_node, find_node, key_taken, ip_taken}
use rv_tx.Db.Node.Unique.{IsUnique}
use rv_tx.Db.Target.{TargetRow, validate_targets, validate_backends, insert_targets, target_row}
use rv_tx.Db.Resource.{normalize_target_scheme, insert_resource, find_resource}
use rv_tx.Db.Resource
use rv_tx.Db.Listing.{ResourceWithTargets, list_resources_with_targets}
use rv_tx.Db.User.{count_users, create_admin_with_password, create_invite, insert_user}
use rv_tx.Db.User.Rows.{emails}
use rv_tx.Traefik.{generate}
use rv_tx.Auth.{valid_session, verify_value, verify_parts}
use rv_tx.Auth.Sample.{same}
use rv_tx.Mail.{send, is_configured, call, authenticate, deliver}
use rv_tx.WsServer
use rv_tx.WsServer.{
  Env, opens, reads, runs, step, open_conn, receive, on_read, advance, act, broadcast, upsert_of,
  endpoint_for,
}
use rv_tx.Dashboard.{Site, require_admin, traefik_config, config, with_body}
use rv_tx.Dashboard.Email.{is_email_address, all_plain, is_domain, has_dot_before_more}
use rv_tx.Dashboard.Bootstrap.{bootstrap_admin}
use rv_tx.Dashboard.Handlers.{handle, invite_user_handler, create_resource_handler}
use rv_tx.Dashboard.Letters.{send_error, after_sending}
use rv_tx.Dashboard.Mux.{
  HttpRequest, Decoders, routes, find_route, match_path, match_method, serve_http,
}
use rv_tx.Dashboard.Sample.{outside}
use rv_tx.Dashboard.History.{new_site}
use rv_tx.ControlPlane.{Happening, request, agent, State, happens}
use rv_tx.ControlPlane.Serving.{IsRunning, happens-IsRunning, traefik_config-answered}

abbrev decoders : Decoders
decoders = record {
  credentials = λ s. none;
  token_password = λ s. none;
  email = λ s. none;
  email_role = λ s. some (s, "viewer");
  role = λ s. none;
  resource = λ s. some (record {
    name = s;
    protocol = "http";
    domain = some "app.b.c";
    entry_point = "websecure";
    cert_resolver = none;
    target_scheme = "";
    target_skip_verify = false;
    sticky = false;
    targets = record { node_name = "edge"; address = ""; port = pos 8080; role = "" } ∷ [];
  });
}

abbrev inviting : HttpRequest
inviting = record {
  method = "POST";
  path = "api" ∷ "users" ∷ [];
  query_token = "";
  cookie = some "payload.mac";
  content = "v@b.c";
}

abbrev deleting : HttpRequest
deleting = record {
  method = "DELETE";
  path = "api" ∷ "users" ∷ "v@b.c" ∷ [];
  query_token = "";
  cookie = none;
  content = "";
}

abbrev creating : HttpRequest
creating = record {
  method = "POST";
  path = "api" ∷ "resources" ∷ [];
  query_token = "";
  cookie = some "payload.mac";
  content = "app";
}

abbrev cidr : String
cidr = "10.8.0.0/24"

abbrev env : Env
env = record { now = 1; db_ok = true; write_ok = λ _. true }

abbrev edge : RegisterPayload
edge = record {
  name = "edge";
  public_key = "KA";
  port = pos 51820;
  endpoint = "";
  advertised_subnets = [];
}

abbrev nodes : NodeTable
nodes = record { rows = []; next_id = 0 }

abbrev life : List Happening
life =
    agent (opens 1 "1.2.3.4")
    ∷ agent (reads 1 (some (register edge)))
    ∷ request outside inviting
    ∷ agent (runs 1 env)
    ∷ agent (runs 1 env)
    ∷ request outside inviting
    ∷ request outside creating
    ∷ agent (runs 1 env)
    ∷ request outside deleting
    ∷ []

abbrev first_admin : Site
first_admin = record (new_site nodes) {
  users = record {
    rows =
        record {
          id = 0;
          email = "root@b.c";
          password_hash = some "h4sh";
          role = "admin";
          invite_token = none;
          invite_token_expires = none;
          reset_token = none;
          reset_token_expires = none;
          created_at = outside.db_now;
        }
        ∷ [];
    next_id = 1;
  };
}

made : bootstrap_admin outside "root@b.c" "h4sh" (new_site nodes) ≡ some first_admin
unfolding bootstrap_admin count_users create_admin_with_password insert_user
made = refl

abbrev lived : State
lived = happens cidr decoders (λ path. true) life (first_admin, rv_tx.WsServer.start nodes)

-- The second invitation and the deletion are refused; the resource is on the node of the agent.
abbrev Lived : Type 0
Lived =
    (emails lived.0.users.rows ≡ "root@b.c" ∷ "v@b.c" ∷ [])
    × (map (λ (x : TargetRow). x.node_id) lived.0.resources.targets ≡ some 0 ∷ [])

two_accounts : Lived
unfolding happens rv_tx.WsServer.start step open_conn receive on_read advance act upsert_node
    find_node key_taken ip_taken used_mesh_ips allocate_ip alloc_in alloc_loop inc_ip last_addr
    ip_equal parse_cidr ip_string decimal apply_mask net_contains contains endpoint_for itoa insert
    serve_http routes find_route match_path match_method handle require_admin valid_session
    verify_value verify_parts cut same invite_user_handler is_email_address all_plain is_domain
    has_dot_before_more create_invite insert_user after_sending send_error send is_configured call
    authenticate deliver create_resource_handler rv_tx.Db.Resource.create_resource validate_targets
    validate_backends normalize_target_scheme insert_resource find_resource insert_targets
    target_row
two_accounts = (refl, refl)

nodes-IsUnique : IsUnique nodes.rows
nodes-IsUnique = record { names_distinct = tt; keys_distinct = tt; ips_distinct = tt }

happens-IsRunning_example : IsRunning cidr lived
happens-IsRunning_example =
    happens-IsRunning cidr decoders (λ path. true) outside "root@b.c" "h4sh" nodes made
      nodes-IsUnique tt life

traefik_config-answered_example :
    (rs : List ResourceWithTargets) × (list_resources_with_targets outside.order_joined
        lived.0.nodes lived.0.resources
      ≡ some rs)
    × (handle outside none traefik_config lived.0
        ≡ (with_body (config (generate outside.now rs)), lived.0))
traefik_config-answered_example =
    traefik_config-answered cidr decoders (λ path. true) outside "root@b.c" "h4sh" nodes made
      nodes-IsUnique tt life outside none refl (λ rows. Perm.refl rows)
