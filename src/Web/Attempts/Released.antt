-- ===== src/Web/Attempts/Released.antt =====
-- internal/web/session.go, releaseLoginReservation: what it takes back.
use gpuardian.Base.{
  ℕ, ◌-◌, ◌≡◌, refl, ap, ◌∙◌, subst, String, true, false, [], ◌∷◌, Option, none, some, ◌==◌, nat_eq,
  string_eq, ==→eq, if◌then◌else◌, leb, arith, OnSome, lookup, lookup-put, lookup-delete,
  Bool-cases, inl, inr,
}
use gpuardian.Web.Attempts.{
  Attempt, Attempts, Answer, reserve_login_attempt, release_entry, release_login_reservation,
}
use gpuardian.Web.Attempts.Bounded.{IsLive, IsBounded, lookup-IsLive}
use gpuardian.Web.Attempts.Limits.{failures_at, count_at}
use gpuardian.Web.Attempts.Login.{one_at, IsCounted, reserve_login_attempt-IsCounted}
use gpuardian.Web.Attempts.History.{reserve_login_attempt-IsBounded, release_entry-IsBounded}

abbrev lessened : Attempt → Option Attempt
lessened a = if leb a.failures 1 then none else some (record a { failures = a.failures - 1 })

lookup-released :
    (key q : String) (a : Attempt) (m : Attempts)
    → lookup q (release_entry key (some a) m) ≡ (if key == q then lessened a else lookup q m)
lookup-released key q a m = elim (Bool-cases (leb a.failures 1)) [
  | inl e ↦ rw e (lookup-delete key q m)
  | inr e ↦ rw e (lookup-put key q (record a { failures = a.failures - 1 }) m)
]

lessened_count :
    (now : ℕ) (a : Attempt) → IsLive a → failures_at now (lessened a) ≡ failures_at now (some a) - 1
lessened_count now a live = elim (Bool-cases (leb a.failures 1)) [
  | inl e ↦ rw e (ground (arith, e))
  | inr e ↦ rw e (ground (arith, e))
]

-- A release takes one from the count of its key, if there is one, and nothing from the others.
count_at-release_entry :
    (now : ℕ) (key q : String) (o : Option Attempt) (m : Attempts)
    → o ≡ lookup key m
    → OnSome IsLive o
    → count_at now q (release_entry key o m) ≡ count_at now q m - one_at key q
count_at-release_entry now key q none m known live = elim (Bool-cases (key == q)) [
  | inl e ↦
      let absent : none ≡ lookup q m = subst (λ k. none ≡ lookup k m) (==→eq key q e) known in
      rw e (rw⁻¹ absent refl)
  | inr e ↦ rw e (omega arith)
]
count_at-release_entry now key q (some a) m known live = elim (Bool-cases (key == q)) [
  | inl e ↦
      let there : some a ≡ lookup q m = subst (λ k. some a ≡ lookup k m) (==→eq key q e) known in
      let after = lookup-released key q a m in
      rw after (rw e (lessened_count now a live ∙ ap (λ o. failures_at now o - 1) there))
  | inr e ↦ let after = lookup-released key q a m in rw after (rw e (omega arith))
]

release_three :
    (now : ℕ) (a b c q : String) (m : Attempts)
    → IsBounded m
    → count_at now q (release_login_reservation (a ∷ b ∷ c ∷ []) m)
      ≡ count_at now q m - one_at a q - one_at b q - one_at c q
unfolding release_login_reservation
release_three now a b c q m h =
    let m1 = release_entry a (lookup a m) m in
    let h1 = release_entry-IsBounded a (lookup a m) m refl h in
    let m2 = release_entry b (lookup b m1) m1 in
    let h2 = release_entry-IsBounded b (lookup b m1) m1 refl h1 in
    let ea = count_at-release_entry now a q (lookup a m) m refl (lookup-IsLive a m h.live) in
    let eb = count_at-release_entry now b q (lookup b m1) m1 refl (lookup-IsLive b m1 h1.live) in
    let ec = count_at-release_entry now c q (lookup c m2) m2 refl (lookup-IsLive c m2 h2.live) in
    ec ∙ ap (λ n. n - one_at c q) (eb ∙ ap (λ n. n - one_at b q) ea)

-- An attempt that was let in and whose reservation is released: at that time each count is what it
-- was before the attempt.
pub release-reserve_login_attempt :
    (user_key ip_key account_key q : String) (now : ℕ) (m : Attempts)
    → IsBounded m
    → (reserve_login_attempt user_key ip_key account_key now m).1.0 ≡ true
    → count_at now q (
        release_login_reservation
          (user_key ∷ ip_key ∷ account_key ∷ [])
          (reserve_login_attempt user_key ip_key account_key now m).0)
      ≡ count_at now q m
release-reserve_login_attempt user_key ip_key account_key q now m h let_in =
    go (reserve_login_attempt user_key ip_key account_key now m) let_in
      (reserve_login_attempt-IsCounted user_key ip_key account_key now m h)
      (reserve_login_attempt-IsBounded user_key ip_key account_key now m h)
  where
    go :
        (r : Attempts × Answer)
        → r.1.0 ≡ true
        → IsCounted user_key ip_key account_key now m r
        → IsBounded r.0
        → count_at now q (release_login_reservation (user_key ∷ ip_key ∷ account_key ∷ []) r.0)
          ≡ count_at now q m
    go (t, (false, wait)) allowed k b = cc
    go (t, (true, wait)) allowed k b =
        let added = k.0 q in
        let taken = release_three now user_key ip_key account_key q t b in
        omega (arith, added, taken)
