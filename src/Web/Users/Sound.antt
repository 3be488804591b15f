-- ===== src/Web/Users/Sound.antt =====
-- internal/web/users.go: what every method keeps of the users: the names are unique, the table is within
-- its size, and there is an administrator.
use gpuardian.Base.{
  ◌≤◌, ◌≡◌, refl, sym, ap, subst, String, Bool, true, false, not, ◌&&◌, List, [], ◌∷◌, Option, none,
  some, ◌==◌, string_eq, nat_eq, if◌then◌else◌, length, ok, err, ◌>>=◌, OnOk, OnSome, or_fail,
  count_if, map, update_first, Pairwise, Bool-cases, inl, inr,
}
use gpuardian.Web.Requests.{role_admin}
use gpuardian.Web.Users.{
  User, UserStore, UserError, Checked, Outcome, keep, save, write_users, save_users, answered,
  settle, on_loaded, with_users, load_users, Codec, file_error, accept_users, max_users_file_bytes,
}
use gpuardian.Web.PrivateFile.{
  Io, Writing, refused, unsynced, written, encode_failed, read_private_file,
}

-- What the limits are about.
pub record Identity : Type 0 where
  pub name : String
  pub is_active_admin : Bool

abbrev pub identity : User → Identity
identity u = record { name = u.username; is_active_admin = u.role == role_admin && not u.disabled }

abbrev pub identities : List User → List Identity
identities users = map identity users

abbrev pub names : List Identity → List String
names ids = map (λ i. i.name) ids

abbrev pub Differs : String → String → Type 0
Differs a b = (a == b) ≡ false

pub record IsSound (ids : List Identity) : Type 0 where
  pub unique : Pairwise Differs (names ids)
  pub within : length ids ≤ 256
  pub governed : 1 ≤ count_if (λ a. a.is_active_admin) ids

-- A change of one record that leaves its identity leaves all.
pub update_first-identities :
    (test : User → Bool) (f : User → User)
    → ((u : User) → identity (f u) ≡ identity u)
    → (users : List User)
    → OnSome (λ changed. identities changed ≡ identities users) (update_first test f users)
update_first-identities test f same [] = tt
update_first-identities test f same (u ∷ us) = elim (Bool-cases (test u)) [
  | inl e ↦ rw e (ap (λ i. i ∷ identities us) (same u))
  | inr e ↦ rw e (go (update_first test f us) (update_first-identities test f same us))
]
  where
    go :
        (o : Option (List User))
        → OnSome (λ changed. identities changed ≡ identities us) o
        → OnSome
            (λ changed. identities changed ≡ identities (u ∷ us))
            (elim o [ none ↦ none | some ys ↦ some (u ∷ ys) ])
    go none k = tt
    go (some ys) k = ap (λ is. identity u ∷ is) k

-- What a body saves is sound.
abbrev pub Keeps : {A : Type 0} → Outcome A → Type 0
Keeps (keep a) = Unit
Keeps (save users a) = IsSound (identities users)

-- A store that has loaded sound users.
pub record IsKept (s : UserStore) : Type 0 where
  pub loaded : s.cached.loaded ≡ true
  pub sound : IsSound (identities s.cached.value)

write_users-IsKept :
    (w : Writing) (users : List User) (text : String) (s : UserStore)
    → IsKept s
    → IsSound (identities users)
    → IsKept (write_users w users text s).0
write_users-IsKept refused users text s h k = h
write_users-IsKept unsynced users text s h k = record { loaded = refl; sound = k }
write_users-IsKept written users text s h k = record { loaded = refl; sound = k }

pub save_users-IsKept :
    (io : Io) (codec : Codec) (users : List User) (s : UserStore)
    → IsKept s
    → IsSound (identities users)
    → IsKept (save_users io codec users s).0
unfolding save_users
save_users-IsKept io codec users s h k = go (codec.encode users)
  where
    go :
        (o : Option String)
        → IsKept
            (elim o as (λ x. UserStore × Checked (Unit {0})) [
              | none ↦ (s, err (file_error encode_failed))
              | some text ↦ write_users io.writing users text s
            ]).0
    go none = h
    go (some text) = write_users-IsKept io.writing users text s h k

answered-0 : {A : Type 0} (a : A) (r : UserStore × Checked (Unit {0})) → (answered a r).0 ≡ r.0
answered-0 a (s, ok u) = refl
answered-0 a (s, err e) = refl

settle-IsKept :
    {A : Type 0} (io : Io) (codec : Codec) (r : Checked (Outcome A)) (s : UserStore)
    → IsKept s
    → OnOk Keeps r
    → IsKept (settle io codec r s).0
unfolding settle
settle-IsKept io codec (err e) s h k = h
settle-IsKept io codec (ok (keep a)) s h k = h
settle-IsKept io codec (ok (save users a)) s h k =
    subst IsKept (sym (answered-0 a (save_users io codec users s)))
      (save_users-IsKept io codec users s h k)

pub load_users-loaded :
    (io : Io) (codec : Codec) (s : UserStore)
    → s.cached.loaded ≡ true
    → load_users io codec s ≡ (s, ok s.cached.value)
unfolding load_users
load_users-loaded io codec s h =
    ap
      (λ b.
        if b
        then (s, ok s.cached.value)
        else accept_users codec (read_private_file io max_users_file_bytes s.cached.file) s)
      h

-- A method whose body keeps the users sound keeps the store.
pub with_users-IsKept :
    {A : Type 0} (io : Io) (codec : Codec) (body : List User → Checked (Outcome A)) (s : UserStore)
    → ((users : List User) → IsSound (identities users) → OnOk Keeps (body users))
    → IsKept s
    → IsKept (with_users io codec body s).0
unfolding with_users on_loaded
with_users-IsKept io codec body s keeps h =
    subst (λ r. IsKept (on_loaded io codec body r).0) (sym (load_users-loaded io codec s h.loaded))
      (settle-IsKept io codec (body s.cached.value) s h (keeps s.cached.value h.sound))

-- A body that updates one record and keeps its identity.
pub update-Keeps :
    {A : Type 0} (test : User → Bool) (f : User → User) (a : A) (e : UserError) (users : List User)
    → ((u : User) → identity (f u) ≡ identity u)
    → IsSound (identities users)
    → OnOk Keeps (or_fail (update_first test f users) e >>= λ changed. ok (save changed a))
update-Keeps test f a e users same h =
    go (update_first test f users) (update_first-identities test f same users)
  where
    go :
        (o : Option (List User))
        → OnSome (λ changed. identities changed ≡ identities users) o
        → OnOk Keeps (or_fail o e >>= λ changed. ok (save changed a))
    go none k = tt
    go (some changed) k = subst IsSound (sym k) h
