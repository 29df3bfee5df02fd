-- ===== src/Lib.antt =====
-- Verification library of rv-tx, the control plane of a WireGuard mesh with a generator of Traefik
-- configuration, and of the agent that runs on each node.
--
-- The program's parts and how they interact. Agents connect to the control plane over WebSockets
-- (internal/controlplane/wsserver), register under a name and a public key, and send heartbeats. A
-- register message takes an address of the mesh network (internal/controlplane/mesh, AllocateIP),
-- writes the row of the name in the nodes table (internal/controlplane/db/db.go, UpsertNode),
-- stores the connection under the key, replies with the address and the other nodes (PeerListFor),
-- and broadcasts a peer list to every stored connection. The agent (internal/agent/wsclient) hands
-- each peer list to internal/agent/wgmanager, which brings the WireGuard interface in line with it.
-- The dashboard's handlers (cmd/controlplane/main.go) change resources (db/resources.go) and
-- accounts (db/users.go) behind a signed session cookie (internal/controlplane/auth); Traefik polls
-- the configuration that internal/controlplane/traefikconfig makes of the listed resources.
--
-- The files.
--   Base.antt and its children: shared names, lists, maps with text keys, and Go's strings and
--     strconv: decimal texts (Base.Text, Base.Atoi), trimming (Base.Trim), cutting and splitting
--     (Base.Pieces, Base.Dots).
--   Environ.antt: the readings of the environment in both programs; requireEnv is require_env,
--     envOrList is env_or_list.
--   Protocol.antt: internal/protocol/protocol.go, the messages. Payloads are typed, as
--     DecodePayload restores them.
--   Net.antt and its children: Go's net package over IPv4, which is what the agents use (they
--     append /32 to every mesh address). An address is the list of its four bytes. Net.Bits has the
--     masks of a byte by tables, Net.Range a byte of a network as a range, Net.Parse and Net.Print
--     the texts.
--   Mesh.antt: internal/controlplane/mesh/mesh.go. AllocateIP is allocate_ip, its loop alloc_loop
--     with fuel 2^32, which no IPv4 network exceeds; incIP is inc_ip, lastAddr is last_addr,
--     PeerListFor is peer_list_for. Mesh.Inc, Mesh.Range, Mesh.Allocate, Mesh.Outcome and
--     Mesh.Peers are the proofs.
--   Db/Node.antt: the nodes table of migrations/0001_nodes.sql and its queries: UsedMeshIPs,
--     UpsertNode (none where a unique column but the name conflicts), TouchLastSeen and ListNodes.
--     Row order is the order of insertion. Db.Node.Unique and Db.Node.Address are the proofs.
--   Db/Target.antt and Db/Resource.antt: internal/controlplane/db/resources.go. validateTargets is
--     validate_targets, insertTargets is insert_targets; CreateResource, UpdateResource and
--     DeleteResource are transactions that give the new tables or an error, with which the old
--     tables stay. run_ops is a history of them. Db.Target.Validate, Db.Target.Rows and the
--     children of Db.Resource are the proofs. Db.Resource.Catalogue is the abstract view: what is
--     under a name, without the ids that join the tables.
--   Db/Listing.antt: ListResourcesWithTargets, the join and the grouping; the ORDER BY is an
--     argument. Db.Listing.Links, Total and Groups are the proofs.
--   Db/Migrate.antt: internal/controlplane/db/migrate.go, over files and SQL that are parameters.
--   Db/User.antt: internal/controlplane/db/users.go, the users table and its queries;
--     Db.User.Tokens has the proofs on invitations and resets.
--   Traefik.antt and Traefik/Model.antt: internal/controlplane/traefikconfig/traefikconfig.go.
--     Generate is generate, hostRule is host_rule, selectMasterBackupTarget is
--     select_master_backup_target.
--   Auth.antt: internal/controlplane/auth/auth.go; Auth.Token is RandomToken. The packages for
--     MACs, base64, JSON and bcrypt are the record Crypto; what a proof needs of them is IsCrypto,
--     for the one cookie that it is about.
--   Mail.antt and its children: internal/controlplane/mail/mail.go. Send is send, the calls that it
--     makes and its error; the mail server is a Relay.
--   Dashboard.antt and its children: the handlers of cmd/controlplane/main.go. A Request is a route
--     with its body, a Site is the tables and the sent mails, an Outside is what the request meets;
--     handle is the routes with the guards requireAuth and requireAdmin. Dashboard.Letters has the
--     mails of an invitation and of a reset, Dashboard.Mux the routes that main registers, the mux
--     of net/http and spaHandler, Dashboard.Bootstrap bootstrapAdmin, and Dashboard.Start is main
--     up to the server that listens. Dashboard.Effects takes the handlers apart: a request is at
--     most one statement (a UserOp of Db.User.Statements or a ResourceOp of Db.Resource). On it
--     stand Strangers, OwnRole, History and Serving. Guards, Down, Login, Logout, Headers, Links,
--     Mux.Apart and Start.Again are the other proofs.
--   ControlPlane.antt: the handlers and the goroutines of the agents over one nodes table; a life
--     of the program is a list of requests and of steps of the goroutines.
--   Agent.antt and its children: internal/agent/wgmanager/wgmanager.go over a System, the machine
--     that the commands wg and ip act on; Agent/Shown.antt is what wg prints. Agent/Client.antt and
--     Agent/Connect.antt are internal/agent/wsclient/wsclient.go: Run is run, connectOnce is
--     connect_once, its reads and the ticks of heartbeatLoop are one list of events, in the order
--     in which they happen. Agent/Main.antt is cmd/agent/main.go with the keys of wgmanager.go,
--     over a Disk. Agent.Main.Keys and Restart are its proofs. Agent/Converge.antt joins a
--     broadcast of the control plane with the reconciliation of an agent.
--   WsServer.antt: internal/controlplane/wsserver/wsserver.go. A World is the nodes table, the map
--     conns, a Session for each goroutine of HandleWS and the written messages. A handler is cut
--     into phases where it calls the database, locks the mutex or writes, and a list of events says
--     which goroutine runs next, what its query and its writes meet, and what is read; so every
--     interleaving is a list of events. handleRegister is the phases allocating to broadcasting,
--     handleHeartbeat touching to broadcasting. WsServer.Invariant, its Steps, Ids, Addresses,
--     Handlers and Register are the proofs.
--
-- What is not modelled: logs, the Upgrade of a connection, JSON encoding (what a body decodes to is
-- a parameter), IPv6 mesh networks, the files of the dashboard and http.FileServer, the redirect of
-- the mux for a path that is not clean, and the panic of NewTicker at an interval that is not
-- positive. The SQL of migrations/ is a parameter of the runner; the columns, unique keys and
-- foreign keys that it makes are in the models of the tables. Times are numbers that an event or a
-- request carries, in nanoseconds where the program compares them.
pub mod Base
pub mod Protocol
pub mod Db
pub mod Net
pub mod Mesh
pub mod WsServer
pub mod Traefik
pub mod Auth
pub mod Dashboard
pub mod ControlPlane
pub mod Environ
pub mod Mail
pub mod Agent
