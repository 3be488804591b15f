-- ===== src/Web/Users/Standing.antt =====
-- internal/web/users.go: what holds of every record of the users and is kept by a method's body holds of
-- every record after the method.
use gpuardian.Base.{
  ◌≡◌, refl, sym, subst, true, Bool, List, [], ◌∷◌, Option, none, some, ok, err, ◌>>=◌, OnOk,
  OnSome, or_fail, find, update_first, All, Bool-cases, inl, inr, some_injective, String,
}
use gpuardian.Web.PrivateFile.{Io, Writing, refused, unsynced, written, encode_failed}
use gpuardian.Web.Users.{
  User, UserStore, UserError, Checked, Codec, Outcome, keep, save, file_error, write_users,
  save_users, answered, settle, on_loaded, with_users,
}
use gpuardian.Web.Users.Keys.{given}
use gpuardian.Web.Users.Sound.{load_users-loaded}

-- Where the first record that passes a test is changed, what holds of each record is kept.
pub update_first-All :
    {A : Type 0} (P : A → Type 0) (test : A → Bool) (f : A → A)
    → ((x : A) → test x ≡ true → P x → P (f x))
    → (xs : List A) → All P xs
    → OnSome (All P) (update_first test f xs)
update_first-All P test f keeps [] h = tt
update_first-All {A = A} P test f keeps (x ∷ xs) h = elim (Bool-cases (test x)) [
  | inl e ↦ rw e (keeps x e h.0, h.1)
  | inr e ↦ rw e (go (update_first test f xs) (update_first-All P test f keeps xs h.1))
]
  where
    go :
        (o : Option (List A))
        → OnSome (All P) o
        → OnSome (All P) (elim o [ none ↦ none | some ys ↦ some (x ∷ ys) ])
    go none k = tt
    go (some ys) k = (h.0, k)

pub find-All :
    {A : Type 0} (P : A → Type 0) (test : A → Bool) (x : A) (xs : List A)
    → find test xs ≡ some x
    → All P xs
    → P x
find-All P test x [] found h = cc
find-All P test x (y ∷ ys) found h = elim (Bool-cases (test y)) [
  | inl e ↦ subst P (some_injective (rw e at found)) h.0
  | inr e ↦ find-All P test x ys (rw e at found) h.1
]

module _ (P : User → Type 0) where
  -- The property holds of each record that a body saves.
  abbrev pub Stands : {A : Type 0} → Outcome A → Type 0
  Stands (keep a) = Unit
  Stands (save users a) = All P users

  -- A store that has loaded its users, of each of whom the property holds.
  pub record IsStanding (s : UserStore) : Type 0 where
    pub loaded : s.cached.loaded ≡ true
    pub each : All P s.cached.value

  pub saved-Stands :
      {A : Type 0} (o : Option (List User)) (a : A) (e : UserError)
      → OnSome (All P) o
      → OnOk Stands (or_fail o e >>= λ changed. ok (save changed a))
  saved-Stands none a e h = tt
  saved-Stands (some changed) a e h = h

  write_users-IsStanding :
      (w : Writing) (users : List User) (text : String) (s : UserStore)
      → IsStanding s
      → All P users
      → IsStanding (write_users w users text s).0
  write_users-IsStanding refused users text s h k = h
  write_users-IsStanding unsynced users text s h k = record { loaded = refl; each = k }
  write_users-IsStanding written users text s h k = record { loaded = refl; each = k }

  pub save_users-IsStanding :
      (io : Io) (codec : Codec) (users : List User) (s : UserStore)
      → IsStanding s
      → All P users
      → IsStanding (save_users io codec users s).0
  unfolding save_users
  save_users-IsStanding io codec users s h k = go (codec.encode users)
    where
      go :
          (o : Option String)
          → IsStanding
              (elim o as (λ x. UserStore × Checked (Unit {0})) [
                | none ↦ (s, err (file_error encode_failed))
                | some text ↦ write_users io.writing users text s
              ]).0
      go none = h
      go (some text) = write_users-IsStanding io.writing users text s h k

  same_store : {A : Type 0} (a : A) (r : UserStore × Checked (Unit {0})) → (answered a r).0 ≡ r.0
  same_store a (s, ok u) = refl
  same_store a (s, err e) = refl

  settle-IsStanding :
      {A : Type 0} (io : Io) (codec : Codec) (r : Checked (Outcome A)) (s : UserStore)
      → IsStanding s
      → OnOk Stands r
      → IsStanding (settle io codec r s).0
  unfolding settle
  settle-IsStanding io codec (err e) s h k = h
  settle-IsStanding io codec (ok (keep a)) s h k = h
  settle-IsStanding io codec (ok (save users a)) s h k =
      subst IsStanding (sym (same_store a (save_users io codec users s)))
        (save_users-IsStanding io codec users s h k)

  pub with_users-IsStanding :
      {A : Type 0} (io : Io) (codec : Codec) (body : List User → Checked (Outcome A))
      (s : UserStore)
      → ((users : List User) → All P users → OnOk Stands (body users))
      → IsStanding s
      → IsStanding (with_users io codec body s).0
  unfolding with_users on_loaded
  with_users-IsStanding io codec body s stands h =
      subst (λ r. IsStanding (on_loaded io codec body r).0)
        (sym (load_users-loaded io codec s h.loaded))
        (settle-IsStanding io codec (body s.cached.value) s h (stands s.cached.value h.each))

  pub given-IsStanding :
      {B A : Type 0} (r : Checked B) (s : UserStore) (section : B → UserStore × Checked A)
      → IsStanding s
      → ((p : B) → r ≡ ok p → IsStanding (section p).0)
      → IsStanding (given r s section).0
  unfolding given
  given-IsStanding (err e) s section h k = h
  given-IsStanding (ok p) s section h k = k p refl
