-- ===== src/Mail/Session.antt =====
-- The calls of a session, whatever the relay answers.
use mathlib.Core.List.{map, append-nil, append_assoc}
use rv_tx.Base.{
  ◌≡◌, refl, sym, ap, ◌∙◌, String, Bool, true, false, none, some, List, [], ◌∷◌, ◌++◌, ◌⊎◌, inl,
  inr, if◌then◌else◌, ◌==◌, Bool-cases, Option-cases, subst,
}
use rv_tx.Mail.{
  Call, dial, new_client, start_tls, auth, mail_from, rcpt_to, open_data, write, close_data, quit,
  MailError, not_configured, dial_failed, client_failed, starttls_failed, auth_failed,
  mail_from_failed, rcpt_to_failed, data_failed, write_failed, close_failed, quit_failed, Config,
  Relay, is_configured, join_host_port, sender, message, Sent, call, authenticate, deliver, send,
}

-- A call with the error that is returned if it fails.
abbrev pub Step : Type 0
Step = Call × MailError

-- What follows the authentication.
abbrev pub session : Config → String → String → String → List Step
session cfg to subject body =
    (mail_from (sender cfg), mail_from_failed)
    ∷ (rcpt_to to, rcpt_to_failed)
    ∷ (open_data, data_failed)
    ∷ (write (message (sender cfg) to subject body), write_failed)
    ∷ (close_data, close_failed)
    ∷ (quit, quit_failed)
    ∷ []

abbrev pub login : Config → String → String → String → List Step
login cfg to subject body =
    (if cfg.user == "" then [] else (auth cfg.user cfg.password, auth_failed) ∷ [])
    ++ session cfg to subject body

-- The session in full: credentials only after STARTTLS, and only for a user.
abbrev pub script : Config → String → String → String → List Step
script cfg to subject body =
    (dial (join_host_port cfg.server cfg.port), dial_failed)
    ∷ (new_client cfg.server, client_failed)
    ∷ (start_tls cfg.server, starttls_failed)
    ∷ login cfg to subject body

-- The calls in order, up to the first one that the relay refuses.
abbrev pub follow : Relay → List Step → List Call → Sent
follow relay [] made = (made, none)
follow relay ((c, e) ∷ steps) made =
    let rest = follow relay steps (made ++ c ∷ []) in
    elim (relay made c) [ true ↦ rest | false ↦ (made ++ c ∷ [], some e) ]

-- The calls of a session in the sense of the protocol: `tls` is whether STARTTLS was among those before.
abbrev pub IsSecure : Bool → List Call → Type 0
IsSecure tls [] = Unit {0}
IsSecure tls (start_tls name ∷ calls) = IsSecure true calls
IsSecure tls (auth user password ∷ calls) = (tls ≡ true) × IsSecure tls calls
IsSecure tls (mail_from from ∷ calls) = (tls ≡ true) × IsSecure tls calls
IsSecure tls (rcpt_to to ∷ calls) = (tls ≡ true) × IsSecure tls calls
IsSecure tls (write text ∷ calls) = (tls ≡ true) × IsSecure tls calls
IsSecure tls (dial addr ∷ calls) = IsSecure tls calls
IsSecure tls (new_client name ∷ calls) = IsSecure tls calls
IsSecure tls (open_data ∷ calls) = IsSecure tls calls
IsSecure tls (close_data ∷ calls) = IsSecure tls calls
IsSecure tls (quit ∷ calls) = IsSecure tls calls

abbrev pub calls_of : List Step → List Call
calls_of = map (λ (s : Step). s.0)

IsSecure-prefix : (tls : Bool) (cs ds : List Call) → IsSecure tls (cs ++ ds) → IsSecure tls cs
IsSecure-prefix tls [] ds h = tt
IsSecure-prefix tls (start_tls name ∷ cs) ds h = IsSecure-prefix true cs ds h
IsSecure-prefix tls (auth user password ∷ cs) ds h = (h.0, IsSecure-prefix tls cs ds h.1)
IsSecure-prefix tls (mail_from from ∷ cs) ds h = (h.0, IsSecure-prefix tls cs ds h.1)
IsSecure-prefix tls (rcpt_to to ∷ cs) ds h = (h.0, IsSecure-prefix tls cs ds h.1)
IsSecure-prefix tls (write text ∷ cs) ds h = (h.0, IsSecure-prefix tls cs ds h.1)
IsSecure-prefix tls (dial addr ∷ cs) ds h = IsSecure-prefix tls cs ds h
IsSecure-prefix tls (new_client name ∷ cs) ds h = IsSecure-prefix tls cs ds h
IsSecure-prefix tls (open_data ∷ cs) ds h = IsSecure-prefix tls cs ds h
IsSecure-prefix tls (close_data ∷ cs) ds h = IsSecure-prefix tls cs ds h
IsSecure-prefix tls (quit ∷ cs) ds h = IsSecure-prefix tls cs ds h

script-IsSecure :
    (cfg : Config) (to subject body : String)
    → IsSecure false (calls_of (script cfg to subject body))
script-IsSecure cfg to subject body = elim (Bool-cases (cfg.user == "")) [
  | inl no_user ↦ rw no_user (refl, (refl, (refl, tt)))
  | inr user ↦ rw user (refl, (refl, (refl, (refl, tt))))
]

module _ (relay : Relay) where
  follow_step :
      (c : Call) (e : MailError) (steps : List Step) (rest : List Call → Sent)
      → ((made : List Call) → rest made ≡ follow relay steps made)
      → (made : List Call) → call relay c e rest made ≡ follow relay ((c, e) ∷ steps) made
  unfolding call
  follow_step c e steps rest h made = elim (Bool-cases (relay made c)) [
    | inl yes_answer ↦ rw (yes_answer, follow) (h (made ++ c ∷ []))
    | inr refused ↦ rw (refused, follow) refl
  ]

  -- The full session, with or without a user.
  follow_all :
      (cfg : Config) (to subject body : String) (made : List Call)
      → deliver relay cfg to subject body made ≡ follow relay (session cfg to subject body) made
  unfolding deliver
  follow_all cfg to subject body =
      follow_step _ _ (rcpt ∷ opening ∷ writing ∷ closing ∷ leaving ∷ []) _ (
        follow_step _ _ (opening ∷ writing ∷ closing ∷ leaving ∷ []) _ (
          follow_step _ _ (writing ∷ closing ∷ leaving ∷ []) _ (
            follow_step _ _ (closing ∷ leaving ∷ []) _
              (follow_step _ _ (leaving ∷ []) _ (follow_step _ _ [] _ (λ made. refl))))))
    where
      rcpt : Step
      rcpt = (rcpt_to to, rcpt_to_failed)

      opening : Step
      opening = (open_data, data_failed)

      writing : Step
      writing = (write (message (sender cfg) to subject body), write_failed)

      closing : Step
      closing = (close_data, close_failed)

      leaving : Step
      leaving = (quit, quit_failed)

  authenticate-follow :
      (cfg : Config) (steps : List Step) (rest : List Call → Sent)
      → ((made : List Call) → rest made ≡ follow relay steps made)
      → (made : List Call)
      → authenticate relay cfg rest made
        ≡ follow relay
            ((if cfg.user == "" then [] else (auth cfg.user cfg.password, auth_failed) ∷ [])
              ++ steps)
            made
  unfolding authenticate
  authenticate-follow cfg steps rest h made = elim (Bool-cases (cfg.user == "")) [
    | inl no_user ↦ rw (no_user) (h made)
    | inr user ↦ rw (user) (follow_step _ _ steps rest h made)
  ]

  send-follow :
      (cfg : Config) (to subject body : String)
      → is_configured cfg ≡ true
      → send relay cfg to subject body ≡ follow relay (script cfg to subject body) []
  unfolding send
  send-follow cfg to subject body set =
      let entered =
        authenticate-follow cfg (session cfg to subject body) _ (follow_all cfg to subject body) in
      let secured =
        follow_step (start_tls cfg.server) starttls_failed (login cfg to subject body) _ entered in
      let greeted =
        follow_step (new_client cfg.server) client_failed
          ((start_tls cfg.server, starttls_failed) ∷ login cfg to subject body) _ secured in
      rw (set, send)
        (follow_step (dial (join_host_port cfg.server cfg.port)) dial_failed
          ((new_client cfg.server, client_failed)
            ∷ (start_tls cfg.server, starttls_failed)
            ∷ login cfg to subject body)
          _ greeted [])

  -- A run of steps: the calls are the first ones of the steps, all of them if it returns nil.
  follow_prefix :
      (steps : List Step) (made : List Call)
      → (cs ds : List Call) × ((follow relay steps made).0 ≡ made ++ cs)
        × (cs ++ ds ≡ calls_of steps)
        × (((follow relay steps made).1 ≡ none) → ds ≡ [])
  follow_prefix [] made = ([], [], sym (append-nil made), refl, λ _. refl)
  follow_prefix ((c, e) ∷ steps) made = elim (Bool-cases (relay made c)) [
    | inl fine ↦
        let (cs, ds, start, full, ended) = follow_prefix steps (made ++ c ∷ []) in
        rw (fine, follow)
          (c ∷ cs, ds, start ∙ append_assoc made (c ∷ []) cs, ap (λ xs. c ∷ xs) full, ended)
    | inr refused ↦ rw (refused, follow) (c ∷ [], calls_of steps, refl, refl, λ e. cc)
  ]

  -- The calls of a session, and its error.
  abbrev pub Describes : List Call → Sent → Type 0
  Describes all sent =
      IsSecure false sent.0
      × ((left : List Call) × (sent.0 ++ left ≡ all)
          × (((sent.1 ≡ none) × (left ≡ [])) ⊎ ((e : MailError) × (sent.1 ≡ some e))))

  followed :
      (steps : List Step)
      → IsSecure false (calls_of steps)
      → Describes (calls_of steps) (follow relay steps [])
  followed steps h =
      let (cs, ds, start, full, ended) = follow_prefix steps [] in
      let sent = follow relay steps [] in
      let all : sent.0 ++ ds ≡ calls_of steps = ap (λ xs. xs ++ ds) start ∙ full in
      (
        IsSecure-prefix false sent.0 ds (subst (IsSecure false) (sym all) h),
        (
          ds,
          all,
          elim (Option-cases sent.1) [ inl nil ↦ inl (nil, ended nil) | inr failed ↦ inr failed ],
        ),
      )

  -- Whatever the mail server answers, the calls of `Send` are the first ones of the session in full, and all
  -- of them where it returns nil: STARTTLS comes before the credentials, which are sent only for a user that
  -- is set, before the addresses and before the message.
  pub send-IsSecure :
      (cfg : Config) (to subject body : String)
      → Describes (calls_of (script cfg to subject body)) (send relay cfg to subject body)
  unfolding send
  send-IsSecure cfg to subject body = elim (Bool-cases (is_configured cfg)) [
    | inl set ↦
        rw (send-follow cfg to subject body set)
          (followed (script cfg to subject body) (script-IsSecure cfg to subject body))
    | inr unset ↦ rw unset (tt, (_, refl, inr (not_configured, refl)))
  ]
