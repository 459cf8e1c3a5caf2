-- ===== src/Phonebook/User/Shift.antt =====
-- What the signature of a change of a user does not cover: where a field ends.
use tfexplorer.Base.{ℕ, ◌≡◌, refl, sym, ap, ◌∙◌, true, List, [], ◌∷◌, ◌++◌}
use tfexplorer.Base.Text.{Text}
use tfexplorer.Base.Decimal.{format_int}
use tfexplorer.Models.Phonebook.{User}
use tfexplorer.Program.{Log, Outcome, done, failed, resume, ◌>>=◌, ◌>>◌, write, asked}
use tfexplorer.Phonebook.Outside.{
  Env, Write, user_store, update_user, Lookup, found, no_documents, db_error,
}
use tfexplorer.Phonebook.User.{
  UserError, other_error, encode, with_id, no_user, current_user, check_update, with_update,
  user_update,
}

append_assoc : {A : Type 0} (xs ys zs : List A) → (xs ++ ys) ++ zs ≡ xs ++ (ys ++ zs)
append_assoc [] ys zs = refl
append_assoc (x ∷ xs) ys zs = ap (λ l. x ∷ l) (append_assoc xs ys zs)

-- An update whose e-mail address ends with `s`, and one where `s` is in front of the host instead.
abbrev pub in_email : User → Text → Text → Text → User
in_email u e s h = record u { email = e ++ s; host = h }

abbrev pub in_host : User → Text → Text → Text → User
in_host u e s h = record u { email = e; host = s ++ h }

encode-in_email : (u : User) (e s h : Text) → encode (in_email u e s h) ≡ encode (in_host u e s h)
unfolding encode
encode-in_email u e s h =
    ap (λ l. format_int u.id ++ (u.name ++ l))
      (append_assoc e s (h ++ (u.description ++ u.pubkey))
        ∙ ap (λ l. e ++ l) (sym (append_assoc s h (u.description ++ u.pubkey))))

check_update-in_email :
    (id : ℕ) (signature : Text) (u : User) (e s h : Text) (current : User)
    → check_update id signature (in_email u e s h) current
      ≡ check_update id signature (in_host u e s h) current
unfolding check_update
check_update-in_email id signature u e s h current =
    rw (encode-in_email (record u { id = id }) e s h) refl

-- Where all writes succeed, the outcomes do not depend on what is written.
module _ (env : Env) (ok : (v : Log Write) (d : Write) → env.write_ok v d ≡ true) where
  resume-write :
      (o : Outcome UserError (Unit {0})) (c c' : Write) (w : Log Write)
      → (resume o (λ _. write other_error c) env w).0
        ≡ (resume o (λ _. write other_error c') env w).0
  resume-write (done a) c c' w = rw (ok w c) (rw (ok w c') refl)
  resume-write (failed e) c c' w = refl

  then_write-in_email :
      (id : ℕ) (signature : Text) (u : User) (e s h : Text) (c c' : Write) (current : User)
      (w : Log Write)
      → ((check_update id signature (in_email u e s h) current >> write other_error c) env w).0
        ≡ ((check_update id signature (in_host u e s h) current >> write other_error c') env w).0
  then_write-in_email id signature u e s h c c' current w =
      ap (λ m. ((m >> write other_error c) env w).0)
        (check_update-in_email id signature u e s h current)
      ∙ resume-write (check_update id signature (in_host u e s h) current env w).0 c c'
          (check_update id signature (in_host u e s h) current env w).1

  resume-in_email :
      (id : ℕ) (signature : Text) (u : User) (e s h : Text) (c c' : User → Write) (o : Lookup User)
      (w : Log Write)
      → ((current_user o >>= λ current.
            check_update id signature (in_email u e s h) current >> write other_error (c current))
          env w).0
        ≡ ((current_user o >>= λ current.
              check_update id signature (in_host u e s h) current >> write other_error (c' current))
            env w).0
  resume-in_email id signature u e s h c c' (found current) w =
      then_write-in_email id signature u e s h (c current) (c' current) current w
  resume-in_email id signature u e s h c c' no_documents w = refl
  resume-in_email id signature u e s h c c' db_error w =
      then_write-in_email id signature u e s h (c no_user) (c' no_user) no_user w

-- Where the writes succeed, UserUpdate has the same outcome with a signature for an update whose
-- e-mail address is `e ++ s` and whose host is `h`, and for one whose e-mail address is `e` and
-- whose host is `s ++ h`: the signature of one change is a signature of the other.
pub user_update-in_email :
    (id : ℕ) (signature : Text) (u : User) (e s h : Text) (env : Env) (w : Log Write)
    → ((v : Log Write) (d : Write) → env.write_ok v d ≡ true)
    → (user_update id signature (in_email u e s h) env w).0
      ≡ (user_update id signature (in_host u e s h) env w).0
unfolding user_update
user_update-in_email id signature u e s h env w ok =
    resume-in_email env ok id signature u e s h
      (λ current. update_user (with_id [] id) (with_update current (in_email u e s h)))
      (λ current. update_user (with_id [] id) (with_update current (in_host u e s h)))
      (env.find_user w (with_id [] id)) (asked w)
