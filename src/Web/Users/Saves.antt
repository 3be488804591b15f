-- ===== src/Web/Users/Saves.antt =====
-- internal/web/users.go: what a method that returns a value has saved.
use gpuardian.Base.{◌≡◌, ap, String, List, Option, none, some, ok, err, OnOk}
use gpuardian.Web.PrivateFile.{Io, Writing, refused, unsynced, written, encode_failed}
use gpuardian.Web.Users.{
  User, UserStore, Checked, Codec, Outcome, keep, save, file_error, write_users, save_users,
  answered, settle, on_loaded, with_users, load_users,
}
use gpuardian.Web.Users.Keys.{given}

-- The outcome is a save, and the users that are saved stand in `Q` to the answer.
abbrev pub OnSaved : {A : Type 0} → (List User → A → Type 0) → Outcome A → Type 0
OnSaved Q (keep a) = ⊥
OnSaved Q (save users a) = Q users a

module _ {A : Type 0} (Q : List User → A → Type 0) where
  -- The answer, if there is one, stands in `Q` to the users that the store holds.
  abbrev pub Answers : UserStore × Checked A → Type 0
  Answers r = OnOk (Q r.0.cached.value) r.1

  write_users-Answers :
      (w : Writing) (users : List User) (a : A) (text : String) (s : UserStore)
      → Q users a
      → Answers (answered a (write_users w users text s))
  write_users-Answers refused users a text s h = tt
  write_users-Answers unsynced users a text s h = tt
  write_users-Answers written users a text s h = h

  save_users-Answers :
      (io : Io) (codec : Codec) (users : List User) (a : A) (s : UserStore)
      → Q users a
      → Answers (answered a (save_users io codec users s))
  unfolding save_users
  save_users-Answers io codec users a s h = go (codec.encode users)
    where
      go :
          (o : Option String)
          → Answers (
              answered a (elim o as (λ x. UserStore × Checked (Unit {0})) [
                | none ↦ (s, err (file_error encode_failed))
                | some text ↦ write_users io.writing users text s
              ]))
      go none = tt
      go (some text) = write_users-Answers io.writing users a text s h

  settle-Answers :
      (io : Io) (codec : Codec) (r : Checked (Outcome A)) (s : UserStore)
      → OnOk (OnSaved Q) r
      → Answers (settle io codec r s)
  unfolding settle
  settle-Answers io codec (err e) s h = tt
  settle-Answers io codec (ok (keep a)) s h = absurd h
  settle-Answers io codec (ok (save users a)) s h = save_users-Answers io codec users a s h

  -- A method whose body always saves.
  pub with_users-Answers :
      (io : Io) (codec : Codec) (body : List User → Checked (Outcome A)) (s : UserStore)
      → ((users : List User) → (load_users io codec s).1 ≡ ok users → OnOk (OnSaved Q) (body users))
      → Answers (with_users io codec body s)
  unfolding with_users on_loaded
  with_users-Answers io codec body s saves = go (load_users io codec s) (λ i. load_users io codec s)
    where
      go :
          (r : UserStore × Checked (List User))
          → load_users io codec s ≡ r
          → Answers (on_loaded io codec body r)
      go (t, err e) known = tt
      go (t, ok users) known =
          settle-Answers io codec (body users) t (saves users (ap (λ r. r.1) known))

  pub given-Answers :
      {P : Type 0} (r : Checked P) (s : UserStore) (section : P → UserStore × Checked A)
      → ((p : P) → r ≡ ok p → Answers (section p))
      → Answers (given r s section)
  unfolding given
  given-Answers (err e) s section h = tt
  given-Answers (ok p) s section h = h p (λ i. ok p)

abbrev pub answer : {A : Type 0} → Outcome A → A
answer (keep a) = a
answer (save users a) = a

module _ {A : Type 0} (R : A → Type 0) where
  settle-Returns :
      (io : Io) (codec : Codec) (r : Checked (Outcome A)) (s : UserStore)
      → OnOk (λ out. R (answer out)) r
      → OnOk R (settle io codec r s).1
  unfolding settle
  settle-Returns io codec (err e) s h = tt
  settle-Returns io codec (ok (keep a)) s h = h
  settle-Returns io codec (ok (save users a)) s h = go (save_users io codec users s)
    where
      go : (r : UserStore × Checked (Unit {0})) → OnOk R (answered a r).1
      go (t, ok u) = h
      go (t, err e) = tt

  -- What holds of each answer to the users that are loaded holds of the method's answer.
  pub with_users-Returns :
      (io : Io) (codec : Codec) (body : List User → Checked (Outcome A)) (s : UserStore)
      → ((users : List User)
          → (load_users io codec s).1 ≡ ok users
          → OnOk (λ out. R (answer out)) (body users))
      → OnOk R (with_users io codec body s).1
  unfolding with_users on_loaded
  with_users-Returns io codec body s says = go (load_users io codec s) (λ i. load_users io codec s)
    where
      go :
          (r : UserStore × Checked (List User))
          → load_users io codec s ≡ r
          → OnOk R (on_loaded io codec body r).1
      go (t, err e) known = tt
      go (t, ok users) known =
          settle-Returns io codec (body users) t (says users (ap (λ r. r.1) known))

  pub given-Returns :
      {P : Type 0} (r : Checked P) (s : UserStore) (section : P → UserStore × Checked A)
      → ((p : P) → r ≡ ok p → OnOk R (section p).1)
      → OnOk R (given r s section).1
  unfolding given
  given-Returns (err e) s section h = tt
  given-Returns (ok p) s section h = h p (λ i. ok p)
