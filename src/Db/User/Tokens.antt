-- ===== src/Db/User/Tokens.antt =====
-- The life of the tokens: an accepted invitation or a reset sets the password once.
use rv_tx.Base.{
  ℕ, suc, ◌+◌, ◌*◌, ◌≤◌, ◌<◌, ◌≡◌, inl, inr, refl, sym, String, Bool, true, false, ◌&&◌, ◌||◌,
  Option, none, some, List, [], ◌∷◌, ◌++◌, any, arith, eq_iff, eq_refl, Bool-cases, unguarded,
  or-eq-false,
}
use mathlib.Core.Option
use mathlib.Core.Option.{some-injective}
use rv_tx.Db.User.{
  UserRow, UserTable, selected, holds, is_after, is_invited, is_resetting, is_email, find_where,
  update_where, insert_user, invited_row, create_invite, user_by_invite_token, affecting, accepted,
  accept_invite, user_by_email, reset, reset_password,
}

-- Rows that an update leaves outside a narrower condition are not found by it.
module _ (p q : UserRow → Bool) (f : UserRow → UserRow) where
  update_where-any :
      ((r : UserRow) → p r ≡ true → q (f r) ≡ false)
      → ((r : UserRow) → p r ≡ false → q r ≡ false)
      → (rows : List UserRow) → any q (update_where p f rows) ≡ false
  unfolding update_where
  update_where-any h k [] = refl
  update_where-any h k (r ∷ rows) =
      let rest = update_where-any h k rows in
      elim (Bool-cases (p r)) [ inl e ↦ rw e (rw (h r e) rest) | inr e ↦ rw e (rw (k r e) rest) ]

find_where-none :
    (p : UserRow → Bool) (rows : List UserRow) → any p rows ≡ false → find_where p rows ≡ none
unfolding find_where
find_where-none p [] e = refl
find_where-none p (r ∷ rows) e = ground (arith, find_where-none p rows)

update_where-none :
    (p : UserRow → Bool) (f : UserRow → UserRow) (rows : List UserRow)
    → any p rows ≡ false
    → update_where p f rows ≡ rows
unfolding update_where
update_where-none p f [] e = refl
update_where-none p f (r ∷ rows) e = ground (arith, update_where-none p f rows)

any-append :
    (p : UserRow → Bool) (rows : List UserRow) (r : UserRow)
    → any p (rows ++ r ∷ []) ≡ (any p rows || p r)
any-append p [] r = ground arith
any-append p (q ∷ rows) r = ground (arith, any-append p rows r)

find_where-append :
    (p : UserRow → Bool) (rows : List UserRow) (r : UserRow)
    → any p rows ≡ false
    → p r ≡ true
    → find_where p (rows ++ r ∷ []) ≡ some r
unfolding find_where
find_where-append p [] r e h = ground arith
find_where-append p (q ∷ rows) r e h = ground (arith, find_where-append p rows r)

update_where-append :
    (p : UserRow → Bool) (f : UserRow → UserRow) (rows : List UserRow) (r : UserRow)
    → any p rows ≡ false
    → p r ≡ true
    → update_where p f (rows ++ r ∷ []) ≡ rows ++ f r ∷ []
unfolding update_where
update_where-append p f [] r e h = ground arith
update_where-append p f (q ∷ rows) r e h = ground (arith, update_where-append p f rows r)

any-false_of :
    (p q : UserRow → Bool) (rows : List UserRow)
    → ((r : UserRow) → p r ≡ false → q r ≡ false)
    → any p rows ≡ false
    → any q rows ≡ false
any-false_of p q [] h e = refl
any-false_of p q (r ∷ rows) h e =
    let (a, b) = or-eq-false (p r) (any p rows) e in rw (h r a) (any-false_of p q rows h b)

pub affected :
    (b : Bool) (rows : List UserRow) (t : UserTable) {t' : UserTable}
    → affecting b rows t ≡ some t'
    → (b ≡ true) × (t' ≡ record t { rows = rows })
affected true rows t e = (refl, sym (some-injective _ _ e))
affected false rows t e = cc

refused : (b : Bool) (rows : List UserRow) (t : UserTable) → b ≡ false → affecting b rows t ≡ none
refused b rows t e = rw e refl

-- A condition that has lapsed stays so.
lapsed :
    {now later : ℕ} (b : Bool) (o : Option ℕ)
    → now ≤ later
    → (b && is_after o now) ≡ false
    → (b && is_after o later) ≡ false
lapsed b none le e = e
lapsed b (some t) le e = ground arith

module _ (token hash : String) (db_now : ℕ) (t : UserTable) {t' : UserTable} where
  -- An invitation is accepted once: after a success, nobody is found by the token and no password is
  -- set with it, then or later.
  pub accept_invite-once :
      (later : ℕ) (other : String)
      → accept_invite token hash db_now t ≡ some t'
      → db_now ≤ later
      → (user_by_invite_token token later t' ≡ none) × (accept_invite token other later t' ≡ none)
  unfolding accept_invite user_by_invite_token
  accept_invite-once later other e le =
      let (_, same) = affected _ _ t e in
      let spent : any (is_invited token later) t'.rows ≡ false = rw same (
        update_where-any (is_invited token db_now) (is_invited token later) (accepted hash)
          (λ r _. refl) (λ r p. lapsed (holds r.invite_token token) r.invite_token_expires le p)
          t.rows) in
      (rw (find_where-none _ _ spent) refl, refused _ _ t' spent)

  -- A reset token is used once: after a success, no password is set with it, then or later.
  pub reset_password-once :
      (later : ℕ) (other : String)
      → reset_password token hash db_now t ≡ some t'
      → db_now ≤ later
      → reset_password token other later t' ≡ none
  unfolding reset_password
  reset_password-once later other e le =
      let (_, same) = affected _ _ t e in
      let spent : any (is_resetting token later) t'.rows ≡ false = rw same (
        update_where-any (is_resetting token db_now) (is_resetting token later) (reset hash)
          (λ r _. refl) (λ r p. lapsed (holds r.reset_token token) r.reset_token_expires le p)
          t.rows) in
      refused _ _ t' spent

found :
    (email : String) (t : UserTable) {r : UserRow}
    → find_where (is_email email) t.rows ≡ some r
    → user_by_email email t ≡ some (selected r, Option.get_or r.password_hash "")
unfolding user_by_email
found email t e = rw (e, user_by_email) refl

fresh_conditions :
    (email role token : String) (now db_now : ℕ) (t : UserTable) {t1 : UserTable}
    → create_invite email role token now db_now t ≡ some t1
    → (any (is_email email) t.rows ≡ false)
      × (any (λ (q : UserRow). holds q.invite_token token) t.rows ≡ false)
      × (t1 ≡ record {
        rows = t.rows ++ invited_row email role token now db_now t.next_id ∷ [];
        next_id = suc t.next_id;
      })
unfolding create_invite insert_user
fresh_conditions email role token now db_now t e =
    let (free, same) = unguarded _ e in
    let (no_email, no_token) = or-eq-false _ _ free in (no_email, no_token, sym same)

-- An invitation that was created, and is accepted within seven days, gives its email the role that
-- it was made with and the password that was chosen, and leaves the other rows as they are.
pub invite-accept :
    (email role token hash : String) (now db_now later : ℕ) (t : UserTable) {t1 : UserTable}
    → create_invite email role token now db_now t ≡ some t1
    → later < now + 7 * 24 * 3600 * 1000000000
    → (t2 : UserTable) × (accept_invite token hash later t1 ≡ some t2)
      × (user_by_email email t2
          ≡ some (
            record {
              id = t.next_id;
              email = email;
              role = role;
              has_set_password = true;
              created_at = db_now;
            },
            hash,
          ))
      × (t2.rows ≡ t.rows ++ accepted hash (invited_row email role token now db_now t.next_id) ∷ [])
unfolding accept_invite user_by_email
invite-accept email role token hash now db_now later t {t1} e soon =
    let (no_email, no_token, same) = fresh_conditions email role token now db_now t e in
    let row = invited_row email role token now db_now t.next_id in
    let others : any (is_invited token later) t.rows ≡ false =
      any-false_of _ (is_invited token later) t.rows (λ r h. rw h refl) no_token in
    let is_row : is_invited token later row ≡ true = ground (arith, eq_iff token token) in
    let rows = t.rows ++ accepted hash row ∷ [] in
    let t2 : UserTable = record { rows = rows; next_id = suc t.next_id } in
    (
      t2,
      rw (same, any-append (is_invited token later) t.rows row, is_row, others)
          (rw
            (update_where-append (is_invited token later) (accepted hash) t.rows row others is_row)
            refl),
      found email t2
          (find_where-append (is_email email) t.rows (accepted hash row) no_email (eq_refl email)),
      refl,
    )
