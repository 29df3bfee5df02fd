-- ===== src/Db/User/Tests.antt =====
-- The invitation of a user and a reset of the password, and the theorems at them.
use rv_tx.Base.{◌+◌, ◌*◌, ◌≡◌, refl, true, some, none, [], ◌∷◌, arith}
use rv_tx.Db.User.{
  UserRow, UserTable, hour, accepted, invited_row, resettable, reset, update_where, insert_user,
  create_invite, user_by_invite_token, accept_invite, user_by_email, create_reset_token,
  reset_password,
}
use rv_tx.Db.User.Tokens.{accept_invite-once, invite-accept}

abbrev no_users : UserTable
no_users = record { rows = []; next_id = 0 }

abbrev invited : UserRow
invited = invited_row "a@b.c" "viewer" "t0k3n" 100 101 0

abbrev one_invited : UserTable
one_invited = record { rows = invited ∷ []; next_id = 1 }

abbrev one_user : UserTable
one_user = record { rows = accepted "h4sh" invited ∷ []; next_id = 1 }

invites : create_invite "a@b.c" "viewer" "t0k3n" 100 101 no_users ≡ some one_invited
unfolding create_invite insert_user
invites = refl

-- The email is taken.
invites_again : create_invite "a@b.c" "admin" "0ther" 100 101 one_invited ≡ none
unfolding create_invite insert_user
invites_again = refl

accepts : accept_invite "t0k3n" "h4sh" (2 * hour) one_invited ≡ some one_user
unfolding accept_invite update_where
accepts = refl

-- A week and a minute later the invitation has lapsed.
too_late : accept_invite "t0k3n" "h4sh" (7 * 24 * hour + 60000000000) one_invited ≡ none
unfolding accept_invite
too_late = refl

accept_invite-once_example :
    (user_by_invite_token "t0k3n" (3 * hour) one_user ≡ none)
    × (accept_invite "t0k3n" "0ther" (3 * hour) one_user ≡ none)
accept_invite-once_example =
    accept_invite-once "t0k3n" "h4sh" (2 * hour) one_invited (3 * hour) "0ther" accepts
      (omega arith)

abbrev InviteResult : Type 0
InviteResult =
    (t2 : UserTable) × (accept_invite "t0k3n" "h4sh" (2 * hour) one_invited ≡ some t2)
    × (user_by_email "a@b.c" t2
        ≡ some (
          record {
            id = 0;
            email = "a@b.c";
            role = "viewer";
            has_set_password = true;
            created_at = 101;
          },
          "h4sh",
        ))
    × (t2.rows ≡ accepted "h4sh" invited ∷ [])

invite-accept_example : InviteResult
invite-accept_example =
    invite-accept "a@b.c" "viewer" "t0k3n" "h4sh" 100 101 (2 * hour) no_users invites (omega arith)

abbrev forgotten : UserTable
forgotten = record {
  rows = resettable "r3set" (4 * hour) (accepted "h4sh" invited) ∷ [];
  next_id = 1;
}

forgets : create_reset_token "a@b.c" "r3set" (4 * hour) one_user ≡ some (forgotten, true)
unfolding create_reset_token update_where
forgets = refl

abbrev renewed : UserTable
renewed = record {
  rows = reset "n3w" (resettable "r3set" (4 * hour) (accepted "h4sh" invited)) ∷ [];
  next_id = 1;
}

resets : reset_password "r3set" "n3w" (4 * hour + 60000000000) forgotten ≡ some renewed
unfolding reset_password update_where
resets = refl
