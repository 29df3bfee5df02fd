-- ===== src/Agent/Main/Keys.antt =====
-- The key pair of a node over the starts of its agent.
use rv_tx.Base.{◌≡◌, refl, sym, ap, ◌∙◌, String, Bool, true, false, Option, none, some}
use mathlib.Core.Option.{some-injective}
use rv_tx.Base.Trim.{trim_space}
use rv_tx.Agent.Main.{
  Disk, load_or_create_keypair, generate_keypair, pub_key_for, paired, with_public, saved, in_dir,
  written, loaded, dir_of,
}

-- What is documented of the disk and of wg: a file that was written reads as what was written, and the public
-- key that belongs to a private key does not change.
pub record IsDisk {K : Type 0} (disk : Disk K) : Type 0 where
  pub keeps :
      (path contents : String) (s : K)
      → (disk.write_file path contents s).1 ≡ true
      → disk.read_file path (disk.write_file path contents s).0 ≡ some contents
  pub derives :
      (private_key : String) (s t : K) (a b : String)
      → disk.pubkey private_key s ≡ some a
      → disk.pubkey private_key t ≡ some b
      → a ≡ b

-- A private key with its public key at some state of the machine.
abbrev pub IsPair : {K : Type 0} → Disk K → K → String × String → Type 0
IsPair disk s pair = (out : String) × (disk.pubkey pair.0 s ≡ some out) × (pair.1 ≡ trim_space out)

module _ {K : Type 0} (disk : Disk K) where
  paired-IsPair :
      (s : K) (priv : String) (out : Option String) {pair : String × String}
      → disk.pubkey priv s ≡ out
      → paired disk priv out ≡ some pair
      → (pair.0 ≡ priv) × IsPair disk s pair
  paired-IsPair s priv none h e = cc
  paired-IsPair s priv (some out) {pair} h e =
      let same = some-injective _ _ e in
      let is_priv : pair.0 ≡ priv = ap (λ (p : String × String). p.0) (sym same) in
      (
        is_priv,
        (out, ap (λ p. disk.pubkey p s) is_priv ∙ h, ap (λ (p : String × String). p.1) (sym same)),
      )

  generated-IsPair :
      (s : K) (out : Option String) {pair : String × String}
      → with_public disk s out ≡ some pair
      → IsPair disk s pair
  generated-IsPair s none e = cc
  generated-IsPair s (some out) e = (paired-IsPair s (trim_space out) _ refl e).1

module _ {K : Type 0} (disk : Disk K) (d : IsDisk disk) (path : String) where
  wrote :
      (made : String × String) (s : K) {s' : K} {pair : String × String}
      → written disk made (disk.write_file path made.0 s) ≡ (s', some pair)
      → (made ≡ pair) × (disk.read_file path s' ≡ some made.0)
  wrote made s {s'} {pair} e = at_write (disk.write_file path made.0 s) (d.keeps path made.0 s) e
    where
      at_write :
          (r : K × Bool)
          → ((r.1 ≡ true) → disk.read_file path r.0 ≡ some made.0)
          → written disk made r ≡ (s', some pair)
          → (made ≡ pair) × (disk.read_file path s' ≡ some made.0)
      at_write (t, true) keeps e = (
        some-injective _ _ (ap (λ (q : K × Option (String × String)). q.1) e),
        ap (disk.read_file path) (sym (ap (λ (q : K × Option (String × String)). q.0) e))
            ∙ keeps refl,
      )
      at_write (t, false) keeps e = cc

  in_dir_wrote :
      (made : String × String) (r : K × Bool) {s' : K} {pair : String × String}
      → in_dir disk path made r ≡ (s', some pair)
      → (made ≡ pair) × (disk.read_file path s' ≡ some made.0)
  in_dir_wrote made (s, true) e = wrote made s e
  in_dir_wrote made (s, false) e = cc

  -- After a successful call the file holds the private key, and the public key belongs to it.
  abbrev Stored : K → String × String → Type 0
  Stored s' pair = (disk.read_file path s' ≡ some pair.0) × ((s : K) × IsPair disk s pair)

  saved-Stored :
      (s : K) (made : Option (String × String)) {s' : K} {pair : String × String}
      → generate_keypair disk s ≡ made
      → saved disk path s made ≡ (s', some pair)
      → Stored s' pair
  unfolding generate_keypair
  saved-Stored s none g e = cc
  saved-Stored s (some made) {s'} {pair} g e =
      let (same, kept) = in_dir_wrote made (disk.mkdir_all (dir_of path) s) e in
      (
        kept ∙ ap (λ (p : String × String). some p.0) same,
        (s, generated-IsPair disk s (disk.genkey s) (g ∙ ap some same)),
      )

  loaded-Stored :
      (s : K) (contents : Option String) {s' : K} {pair : String × String}
      → disk.read_file path s ≡ contents
      → loaded disk path s contents ≡ (s', some pair)
      → Stored s' pair
  unfolding pub_key_for
  loaded-Stored s none r e = saved-Stored s (generate_keypair disk s) refl e
  loaded-Stored s (some contents) r e =
      let same = ap (λ (q : K × Option (String × String)). q.0) e in
      let (is_priv, is_pair) =
        paired-IsPair disk s contents (disk.pubkey contents s) refl
          (ap (λ (q : K × Option (String × String)). q.1) e) in
      (ap (disk.read_file path) (sym same) ∙ r ∙ ap some (sym is_priv), (s, is_pair))

  load_again :
      (priv : String) (t : K) {t' : K} {pair' : String × String}
      → disk.read_file path t ≡ some priv
      → load_or_create_keypair disk path t ≡ (t', some pair')
      → (t' ≡ t) × (pair'.0 ≡ priv) × IsPair disk t pair'
  unfolding load_or_create_keypair pub_key_for
  load_again priv t r e =
      let e' = rw (r, loaded) at e in
      let (is_priv, is_pair) =
        paired-IsPair disk t priv (disk.pubkey priv t) refl
          (ap (λ (q : K × Option (String × String)). q.1) e') in
      (ap (λ (q : K × Option (String × String)). q.0) (sym e'), is_priv, is_pair)

  -- If a written file reads as what was written and the public key of a private key does not change: once
  -- the agent has a key pair, read or generated, every later start at which the key file is as it was left
  -- and that gets a key pair gets the same one, and leaves the machine as it is.
  pub load_or_create_keypair-keeps :
      (s t : K) {s' t' : K} {pair pair' : String × String}
      → load_or_create_keypair disk path s ≡ (s', some pair)
      → disk.read_file path t ≡ disk.read_file path s'
      → load_or_create_keypair disk path t ≡ (t', some pair')
      → (t' ≡ t) × (pair' ≡ pair)
  unfolding load_or_create_keypair
  load_or_create_keypair-keeps s t {pair} {pair'} first unchanged again =
      let (kept, (u, (out, derived, is_public))) =
        loaded-Stored s (disk.read_file path s) refl first in
      let (stays, is_priv, (out', derived', is_public')) =
        load_again pair.0 t (unchanged ∙ kept) again in
      let same_out =
        d.derives pair.0 t u out' out (ap (λ k. disk.pubkey k t) (sym is_priv) ∙ derived')
          derived in
      (stays, same_pair is_priv (is_public' ∙ ap trim_space same_out ∙ sym is_public))
    where
      same_pair : {p q : String × String} → p.0 ≡ q.0 → p.1 ≡ q.1 → p ≡ q
      same_pair a b i = (a i, b i)
