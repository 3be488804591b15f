-- ===== src/Web/Users/Keys/Named.antt =====
-- internal/web/user_keys.go: the only record with a name, and what the nodes are given for it.
use gpuardian.Base.{
  ◌≡◌, refl, subst, String, true, false, List, [], ◌∷◌, Option, none, some, ◌==◌, string_eq, ==→eq,
  ==_refl, OnSome, find, update_first, All, Pairwise, arith, Bool-cases, inl, inr, Sole, find-Sole,
  sort_by-Sole, keep_if-Sole, map-Sole, text_below,
}
use gpuardian.Web.Users.{User, is_active_named}
use gpuardian.Web.Users.Sound.{identities, names, Differs}
use gpuardian.Web.Users.Keys.{FixedUserKeyVerifier, verifier_of, verifiers_of, has_key}

pub active_name : (name : String) (u : User) → is_active_named name u ≡ true → u.username ≡ name
active_name name u h = ==→eq u.username name (ground (arith, h))

-- No other record has the name of one that stands before them, whatever it is to be.
no_other :
    (name : String) (v : User) (users : List User)
    → All (Differs name) (names (identities users))
    → All (λ x. (x.username == name) ≡ true → x ≡ v) users
no_other name v [] h = tt
no_other name v (w ∷ ws) h = (
  λ e.
      let no = subst (λ n. (name == n) ≡ false) (==→eq w.username name e) h.0 in
      absurd (ground (arith, no, ==_refl name)),
  no_other name v ws h.1,
)

-- A name that is found behind a record is not the record's.
found-Differs :
    (n name : String) (u : User) (users : List User)
    → All (Differs n) (names (identities users))
    → find (is_active_named name) users ≡ some u
    → (n == name) ≡ false
found-Differs n name u [] h found = cc
found-Differs n name u (w ∷ ws) h found = elim (Bool-cases (is_active_named name w)) [
  | inl e ↦ subst (λ m. (n == m) ≡ false) (active_name name w e) h.0
  | inr e ↦ found-Differs n name u ws h.1 (rw e at found)
]

-- Where names are unique, the record that takes the place of the active one of a name is the only one
-- with the name.
pub put-Sole :
    (name : String) (u v : User) (users : List User)
    → Pairwise Differs (names (identities users))
    → find (is_active_named name) users ≡ some u
    → v.username ≡ name
    → OnSome (Sole (λ x. x.username == name) v) (update_first (is_active_named name) (λ _. v) users)
put-Sole name u v [] unique found same = tt
put-Sole name u v (w ∷ ws) unique found same = elim (Bool-cases (is_active_named name w)) [
  | inl e ↦
      let others =
        subst (λ n. All (Differs n) (names (identities ws))) (active_name name w e) unique.0 in
      let named : (v.username == name) ≡ true = rw same (==_refl name) in
      rw e (record { present = rw named refl; only = (λ _. refl, no_other name v ws others) })
  | inr e ↦
      let behind = rw e at found in
      rw e (
        go (found-Differs w.username name u ws unique.0 behind)
          (update_first (is_active_named name) (λ _. v) ws)
          (put-Sole name u v ws unique.1 behind same))
]
  where
    go :
        (w.username == name) ≡ false
        → (o : Option (List User)) → OnSome (Sole (λ x. x.username == name) v) o
        → OnSome
            (Sole (λ x. x.username == name) v)
            (elim o [ none ↦ none | some ys ↦ some (w ∷ ys) ])
    go other none k = tt
    go other (some ys) k = record {
      present = rw other k.present;
      only = (λ e. absurd (ground (arith, e, other)), k.only);
    }

-- What the nodes are given for the only record with a name that has a key.
pub picked :
    (name : String) (v : User) (users : List User)
    → has_key v ≡ true
    → Sole (λ x. x.username == name) v users
    → find (λ (k : FixedUserKeyVerifier). k.owner == name) (verifiers_of users)
      ≡ some (verifier_of v)
picked name v users h s =
    find-Sole (λ (k : FixedUserKeyVerifier). k.owner == name) (verifier_of v) (verifiers_of users)
      (sort_by-Sole (λ (k l : FixedUserKeyVerifier). text_below k.id l.id) _ (verifier_of v) _
        (map-Sole verifier_of (λ (k : FixedUserKeyVerifier). k.owner == name) v _
          (keep_if-Sole (λ x. x.username == name) has_key v users h s)))
