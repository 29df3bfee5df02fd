-- ===== src/Agent/Main.antt =====
-- cmd/agent/main.go, with the keys of internal/agent/wgmanager/wgmanager.go: the settings of an agent, its
-- key pair on disk, and the client that it starts. The disk and the commands `wg genkey` and `wg pubkey` are
-- a Disk: what they do to the machine and what they yield is a parameter, `none` an error.
pub mod Keys
pub mod Restart
mod Tests
use Prim.Native.Char.{code}
use rv_tx.Base.{
  ℕ, suc, ◌+◌, ◌-◌, ◌*◌, ◌^◌, ◌%◌, String, Bool, true, false, Option, none, some, List, eqb, ltb,
  if◌then◌else◌,
}
use rv_tx.Base.Text.{ℤ, pos, negsuc}
use rv_tx.Base.Trim.{trim_space}
use rv_tx.Environ.{Environ, require_env, env_or, env_or_list, env_or_int}
use rv_tx.Agent.Client.{Client}

pub record Disk (K : Type 0) : Type 0 where
  pub read_file : String → K → Option String
  pub mkdir_all : String → K → K × Bool
  pub write_file : String → String → K → K × Bool
  -- The outputs of `wg genkey`, and of `wg pubkey` on a private key.
  pub genkey : K → Option String
  pub pubkey : String → K → Option String

-- The text before the last slash, if there is one.
unfoldable pub before_last_slash : String → Option String
before_last_slash String.[] = none
before_last_slash (String.◌∷◌ c s) = elim (before_last_slash s) [
  | some dir ↦ some (String.◌∷◌ c dir)
  | none ↦ if eqb (code c) b'/' then some "" else none
]

abbrev or_dot : Option String → String
or_dot (some dir) = dir
or_dot none = "."

-- `dirOf`
unfoldable pub dir_of : String → String
unfolding before_last_slash
dir_of path = or_dot (before_last_slash path)

module _ {K : Type 0} (disk : Disk K) where
  -- The private key and its trimmed public key.
  abbrev pub paired : String → Option String → Option (String × String)
  paired priv none = none
  paired priv (some out) = some (priv, trim_space out)

  abbrev pub with_public : K → Option String → Option (String × String)
  with_public s none = none
  with_public s (some out) = paired (trim_space out) (disk.pubkey (trim_space out) s)

  -- `GenerateKeypair`
  unfoldable pub generate_keypair : K → Option (String × String)
  generate_keypair s = with_public s (disk.genkey s)

  -- `PubKeyFor`, with the private key.
  unfoldable pub pub_key_for : String → K → Option (String × String)
  pub_key_for private_key s = paired private_key (disk.pubkey private_key s)

  abbrev pub written : (String × String) → K × Bool → K × Option (String × String)
  written pair (s, true) = (s, some pair)
  written pair (s, false) = (s, none)

  abbrev pub in_dir : String → (String × String) → K × Bool → K × Option (String × String)
  in_dir path pair (s, true) = written pair (disk.write_file path pair.0 s)
  in_dir path pair (s, false) = (s, none)

  abbrev pub saved : String → K → Option (String × String) → K × Option (String × String)
  saved path s none = (s, none)
  saved path s (some pair) = in_dir path pair (disk.mkdir_all (dir_of path) s)

  abbrev pub loaded : String → K → Option String → K × Option (String × String)
  loaded path s (some contents) = (s, pub_key_for contents s)
  loaded path s none = saved path s (generate_keypair s)

  -- `loadOrCreateKeypair`: the private and the public key.
  unfoldable pub load_or_create_keypair : String → K → K × Option (String × String)
  load_or_create_keypair path s = loaded path s (disk.read_file path s)

-- An `int64` times a second, as a Duration: the product modulo 2^64, between -2^63 and 2^63 - 1.
abbrev pub signed64 : ℕ → ℤ
signed64 w = if ltb w (2 ^ 63) then pos w else negsuc (2 ^ 64 - w - 1)

unfoldable pub seconds : ℤ → ℤ
seconds (pos n) = signed64 (n * 1000000000 % 2 ^ 64)
seconds (negsuc n) = signed64 ((2 ^ 64 - suc n * 1000000000 % 2 ^ 64) % 2 ^ 64)

-- The variables that `main` reads.
pub record Settings : Type 0 where
  pub url : String
  pub name : String
  pub endpoint_override : String
  pub iface : String
  pub key_path : String
  pub listen_port : ℤ
  pub heartbeat_seconds : ℤ
  pub advertised_subnets : List String

infixl 5 ◌>>=◌
abbrev ◌>>=◌ : {A B : Type 0} → Option A → (A → Option B) → Option B
none >>= f = none
some a >>= f = f a

unfoldable pub settings : Environ → Option Settings
settings env = do
  url ← require_env env "RVTX_CONTROLPLANE_URL"
  name ← require_env env "RVTX_NODE_NAME"
  listen_port ← env_or_int env "RVTX_LISTEN_PORT" (pos 51820)
  heartbeat_seconds ← env_or_int env "RVTX_HEARTBEAT_SECONDS" (pos 15)
  some (record {
    url = url;
    name = name;
    endpoint_override = env_or env "RVTX_ENDPOINT_OVERRIDE" "";
    iface = env_or env "RVTX_INTERFACE" "rvtx0";
    key_path = env_or env "RVTX_KEY_PATH" "/etc/rvtx/private.key";
    listen_port = listen_port;
    heartbeat_seconds = heartbeat_seconds;
    advertised_subnets = env_or_list env "RVTX_ADVERTISE_SUBNETS";
  })

abbrev pub client_of : Settings → String × String → Client
client_of st (private_key, public_key) = record {
  url = st.url;
  name = st.name;
  private_key = private_key;
  public_key = public_key;
  listen_port = st.listen_port;
  heartbeat_interval = seconds st.heartbeat_seconds;
  endpoint_override = st.endpoint_override;
  iface = st.iface;
  advertised_subnets = st.advertised_subnets;
}

module _ {K : Type 0} (disk : Disk K) where
  abbrev pub with_keys : Settings → K × Option (String × String) → K × Option Client
  with_keys st (s, none) = (s, none)
  with_keys st (s, some pair) = (s, some (client_of st pair))

  abbrev pub configured : K → Option Settings → K × Option Client
  configured s none = (s, none)
  configured s (some st) = with_keys st (load_or_create_keypair disk st.key_path s)

  -- `main`: the machine when the client starts, and the client; `none` ends the program.
  unfoldable pub main : Environ → K → K × Option Client
  main env s = configured s (settings env)
