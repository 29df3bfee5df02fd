-- ===== src/Agent/Main/Tests.antt =====
-- A machine with one file, and a restart of its agent.
use rv_tx.Base.{◌≡◌, refl, String, true, none, some, [], if◌then◌else◌, ◌==◌, eq_refl}
use rv_tx.Base.Text.{pos, negsuc}
use rv_tx.Base.Trim.{trim_space}
use rv_tx.Agent.Main.{
  Disk, load_or_create_keypair, generate_keypair, pub_key_for, dir_of, before_last_slash, seconds,
  settings, main,
}
use rv_tx.Agent.Main.Keys.{IsDisk}
use rv_tx.Agent.Main.Restart.{main-keeps}
use rv_tx.Agent.Client.{Client}
use rv_tx.Environ.{Environ, require_env, env_or, env_or_list, env_or_int}

-- The name and the contents of the only file.
abbrev Files : Type 0
Files = String × String

abbrev disk : Disk Files
disk = record {
  read_file = λ path s. if s.0 == path then some s.1 else none;
  mkdir_all = λ path s. (s, true);
  write_file = λ path contents s. ((path, contents), true);
  genkey = λ s. some "private\n";
  pubkey = λ priv s. some "public\n";
}

is_disk : IsDisk disk
is_disk = record {
  keeps = λ path contents s e. rw (eq_refl path) refl;
  derives = λ priv s t a b p q. cc;
}

abbrev path : String
path = "/etc/rvtx/private.key"

abbrev saved : Files
saved = (path, "private")

created : load_or_create_keypair disk path ("", "") ≡ (saved, some ("private", "public"))
unfolding load_or_create_keypair generate_keypair dir_of before_last_slash trim_space
created = refl

again : load_or_create_keypair disk path saved ≡ (saved, some ("private", "public"))
unfolding load_or_create_keypair pub_key_for trim_space
again = refl

abbrev env : Environ
env key =
    if key == "RVTX_CONTROLPLANE_URL"
    then "wss://rv.b.c/ws/agent"
    else (if key == "RVTX_NODE_NAME" then "edge" else "")

abbrev client : Client
client = record {
  url = "wss://rv.b.c/ws/agent";
  name = "edge";
  private_key = "private";
  public_key = "public";
  listen_port = pos 51820;
  heartbeat_interval = pos 15000000000;
  endpoint_override = "";
  iface = "rvtx0";
  advertised_subnets = [];
}

starts : main disk env ("", "") ≡ (saved, some client)
unfolding main settings require_env env_or env_or_list env_or_int seconds load_or_create_keypair
    generate_keypair dir_of before_last_slash trim_space
starts = refl

starts_again : main disk env saved ≡ (saved, some client)
unfolding main settings require_env env_or env_or_list env_or_int seconds load_or_create_keypair
    pub_key_for trim_space
starts_again = refl

-- Without a name the program ends before it touches the disk.
unnamed : main disk (λ key. "") ("", "") ≡ (("", ""), none)
unfolding main settings require_env
unnamed = refl

main-keeps_example : (saved ≡ saved) × (client ≡ client)
main-keeps_example = main-keeps disk is_disk env ("", "") saved starts (λ path. refl) starts_again

directory : dir_of path ≡ "/etc/rvtx"
unfolding dir_of before_last_slash
directory = refl

no_slash : dir_of "private.key" ≡ "."
unfolding dir_of before_last_slash
no_slash = refl

-- For a file in the root the directory is the empty text, which os.MkdirAll refuses.
root : dir_of "/private.key" ≡ ""
unfolding dir_of before_last_slash
root = refl

-- The product with a second wraps around.
overflow : seconds (pos 9223372037) ≡ negsuc 9223372036709551615
unfolding seconds
overflow = refl
