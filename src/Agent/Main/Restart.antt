-- ===== src/Agent/Main/Restart.antt =====
-- A start of the agent after another.
use rv_tx.Base.{◌≡◌, sym, ◌∙◌, ap, String, Option, none, some}
use mathlib.Core.Option.{some-injective}
use rv_tx.Environ.{Environ}
use rv_tx.Agent.Client.{Client}
use rv_tx.Agent.Main.{
  Disk, Settings, settings, client_of, with_keys, configured, load_or_create_keypair, main,
}
use rv_tx.Agent.Main.Keys.{IsDisk, load_or_create_keypair-keeps}

module _ {K : Type 0} (disk : Disk K) (d : IsDisk disk) where
  -- A client that starts has its keys.
  started :
      (st : Settings) (r : K × Option (String × String)) {s' : K} {c : Client}
      → with_keys disk st r ≡ (s', some c)
      → (pair : String × String) × (r ≡ (s', some pair)) × (client_of st pair ≡ c)
  started st (s, none) e = let no_client = ap (λ (q : K × Option Client). q.1) e in cc
  started st (s, some pair) e = (
    pair,
    ap (λ (t : K). (t, some pair)) (ap (λ (q : K × Option Client). q.0) e),
    some-injective _ _ (ap (λ (q : K × Option Client). q.1) e),
  )

  -- If a written file reads as what was written and the public key of a private key does not change: once
  -- the agent has started, every later start with its environment, at which the files are as they were
  -- left, and that gets as far, leaves the machine as it is and starts the same client, with the same
  -- name and keys.
  pub main-keeps :
      (env : Environ) (s t : K) {s' t' : K} {c c' : Client}
      → main disk env s ≡ (s', some c)
      → ((path : String) → disk.read_file path t ≡ disk.read_file path s')
      → main disk env t ≡ (t', some c')
      → (t' ≡ t) × (c' ≡ c)
  unfolding main
  main-keeps env s t {s'} {t'} {c} {c'} first unchanged again = at (settings env) first again
    where
      at :
          (o : Option Settings)
          → configured disk s o ≡ (s', some c)
          → configured disk t o ≡ (t', some c')
          → (t' ≡ t) × (c' ≡ c)
      at none e f = let no_client = ap (λ (q : K × Option Client). q.1) e in cc
      at (some st) e f =
          let (pair, keys, is_c) = started st (load_or_create_keypair disk st.key_path s) e in
          let (pair', keys', is_c') = started st (load_or_create_keypair disk st.key_path t) f in
          let (stays, same) =
            load_or_create_keypair-keeps disk d st.key_path s t keys (unchanged st.key_path)
              keys' in
          (stays, sym is_c' ∙ ap (client_of st) same ∙ is_c)
