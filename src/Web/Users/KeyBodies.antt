-- ===== src/Web/Users/KeyBodies.antt =====
-- internal/web/user_keys.go: the bodies of the methods on fixed keys keep the users sound.
use gpuardian.Base.{
  ℕ, suc, ◌≡◌, refl, sym, ap, ◌∙◌, subst, String, Bool, List, [], ◌∷◌, Option, none, some,
  string_eq, ℤ, ok, ◌>>=◌, OnOk, OnOk->>=, OnSome, or_fail, find, update_first, Bool-cases, inl,
  inr, on_if, is_empty, some_injective, or_fail-ok,
}
use gpuardian.Web.Users.{User, UserError, save, is_active_named, user_not_found}
use gpuardian.Web.Users.Keys.{
  Backend, KeyDraw, Aead, assign, reveal, initialize_one, initialize_all, initialize_body,
  regenerate_body, next_version,
}
use gpuardian.Web.Users.Sound.{identity, identities, IsSound, Keeps}

abbrev SameIdentity : User → User → Type 0
SameIdentity u v = identity v ≡ identity u

assign-SameIdentity :
    (b : Backend) (aead : Option Aead) (now : ℕ) (draw : Option KeyDraw) (version : ℤ) (u : User)
    → OnOk (SameIdentity u) (assign b.crypto aead now draw version u)
unfolding assign
assign-SameIdentity b none now draw version u = tt
assign-SameIdentity b (some aead) now none version u = tt
assign-SameIdentity b (some aead) now (some draw) version u = refl

initialize_one-SameIdentity :
    (b : Backend) (aead : Aead) (now : ℕ) (draw : Option KeyDraw) (u : User)
    → OnOk (λ (r : User × Bool). SameIdentity u r.0) (initialize_one b.crypto aead now draw u)
unfolding initialize_one
initialize_one-SameIdentity b aead now draw u =
    let P : User × Bool → Type 0 = λ r. SameIdentity u r.0 in
    on_if (OnOk P) u.disabled _ _ (λ _. refl)
      (λ _.
        on_if (OnOk P) (is_empty u.key_id) _ _
          (λ _.
            let first = ℤ.pos 1 in
            OnOk->>= P (assign b.crypto (some aead) now draw first u) _ λ v e.
              subst (OnOk (SameIdentity u)) e (assign-SameIdentity b (some aead) now draw first u))
          (λ _. OnOk->>= P (reveal (some aead) u) _ λ _ _. refl))

initialize_all-identities :
    (b : Backend) (aead : Aead) (now : ℕ) (draws : ℕ → Option KeyDraw) (i : ℕ) (users : List User)
    → OnOk
        (λ (r : List User × Bool). identities r.0 ≡ identities users)
        (initialize_all b.crypto aead now draws i users)
unfolding initialize_all
initialize_all-identities b aead now draws i [] = refl
initialize_all-identities b aead now draws i (u ∷ us) =
    let P : List User × Bool → Type 0 = λ r. identities r.0 ≡ identities (u ∷ us) in
    OnOk->>= P (initialize_one b.crypto aead now (draws i) u) _ λ (first, changed) e.
      OnOk->>= P (initialize_all b.crypto aead now draws (suc i) us) _ λ (others, more) f.
        let head =
          subst (OnOk (λ (r : User × Bool). SameIdentity u r.0)) e
            (initialize_one-SameIdentity b aead now (draws i) u) in
        let tail =
          subst (OnOk (λ (r : List User × Bool). identities r.0 ≡ identities us)) f
            (initialize_all-identities b aead now draws (suc i) us) in
        ap (λ x. x ∷ identities others) head ∙ ap (λ xs. identity u ∷ xs) tail

pub initialize_body-Keeps :
    (b : Backend) (aead : Aead) (now : ℕ) (draws : ℕ → Option KeyDraw) (users : List User)
    → IsSound (identities users)
    → OnOk Keeps (initialize_body b.crypto aead now draws users)
unfolding initialize_body
initialize_body-Keeps b aead now draws users h =
    OnOk->>= (Keeps {A = Unit {0}}) (initialize_all b.crypto aead now draws 0 users) _
      λ (others, changed) e.
        let same =
          subst (OnOk (λ (r : List User × Bool). identities r.0 ≡ identities users)) e
            (initialize_all-identities b aead now draws 0 users) in
        on_if (Keeps {A = Unit {0}}) changed _ _ (λ _. subst IsSound (sym same) h) (λ _. tt)

-- The record that is found may be put for another one with its identity.
replaced-identities :
    (test : User → Bool) (u assigned : User) (users : List User)
    → find test users ≡ some u
    → SameIdentity u assigned
    → OnSome
        (λ changed. identities changed ≡ identities users)
        (update_first test (λ _. assigned) users)
replaced-identities test u assigned [] found same = tt
replaced-identities test u assigned (v ∷ vs) found same = elim (Bool-cases (test v)) [
  | inl e ↦
      let here : v ≡ u = some_injective (rw e at found) in
      rw e (ap (λ i. i ∷ identities vs) (same ∙ ap identity (sym here)))
  | inr e ↦ rw e (
      go (update_first test (λ _. assigned) vs)
        (replaced-identities test u assigned vs (rw e at found) same))
]
  where
    go :
        (o : Option (List User))
        → OnSome (λ changed. identities changed ≡ identities vs) o
        → OnSome
            (λ changed. identities changed ≡ identities (v ∷ vs))
            (elim o [ none ↦ none | some ys ↦ some (v ∷ ys) ])
    go none k = tt
    go (some ys) k = ap (λ is. identity v ∷ is) k

saved-Keeps :
    {A : Type 0} (o : Option (List User)) (a : A) (e : UserError) (users : List User)
    → OnSome (λ changed. identities changed ≡ identities users) o
    → IsSound (identities users)
    → OnOk Keeps (or_fail o e >>= λ changed. ok (save changed a))
saved-Keeps none a e users same h = tt
saved-Keeps (some changed) a e users same h = subst IsSound (sym same) h

pub regenerate_body-Keeps :
    (b : Backend) (now : ℕ) (draw : Option KeyDraw) (name : String) (users : List User)
    → IsSound (identities users)
    → OnOk Keeps (regenerate_body b now draw name users)
unfolding regenerate_body
regenerate_body-Keeps b now draw name users h =
    let P = Keeps {A = User} in
    let test = is_active_named name in
    OnOk->>= P (or_fail (find test users) user_not_found) _ λ u found.
      let version = next_version u.key_version in
      OnOk->>= P (assign b.crypto b.key_cipher now draw version u) _ λ assigned e.
        let same =
          subst (OnOk (SameIdentity u)) e (assign-SameIdentity b b.key_cipher now draw version u) in
        saved-Keeps (update_first test (λ _. assigned) users) assigned user_not_found users
          (replaced-identities test u assigned users (or_fail-ok _ user_not_found found) same) h
