-- ===== src/Web/Attempts/History.antt =====
-- internal/web/session.go: whatever requests come, the table of attempts stays within its size.
use gpuardian.Base.{
  ℕ, ◌+◌, ◌-◌, ◌≡◌, refl, String, Bool, true, false, List, [], ◌∷◌, Option, none, some, ◌==◌,
  nat_eq, if◌then◌else◌, ltb, leb, arith, OnSome, on_if, lookup, put, delete, is_key, length-put,
  length-delete-le, is_key-lookup, AllValues-put, AllValues-delete, put-IsUnique, delete-IsUnique,
  is_some, ◌∙◌, ap, sym, subst,
}
use gpuardian.Web.Attempts.{
  Attempt, Attempts, Answer, or_zero, attempt_of, drop_if_over, one_if_new, counted, drop_login,
  login_wait, login_new_keys, reserve_login_attempt, admit_single, reserve_single_attempt,
  drop_registration, registration_wait, admit_registration, reserve_registration_attempt,
  registration_global_attempt_key, release_entry, release_login_reservation,
}
use gpuardian.Web.Attempts.Bounded.{
  IsLive, IsBounded, IsCurrent, lookup-IsLive, drop_if_over-IsBounded, drop_if_over-IsCurrent,
  drop_other-IsCurrent, Makes, ensure_attempt_capacity-Makes,
}
use gpuardian.Web.Attempts.Counted.{
  HasRoom-IsBounded, Makes-HasRoom, put-HasRoom, counted-IsLive, same_new, count_two,
  drop_login_ready, admit_login-IsBounded,
}

pub reserve_login_attempt-IsBounded :
    (user_key ip_key account_key : String) (now : ℕ) (m : Attempts)
    → IsBounded m
    → IsBounded (reserve_login_attempt user_key ip_key account_key now m).0
unfolding reserve_login_attempt
reserve_login_attempt-IsBounded user_key ip_key account_key now m h =
    let a = drop_login now user_key ip_key account_key m in
    let (ha, cu, ci, ca) = drop_login_ready user_key ip_key account_key now m h in
    on_if (λ (r : Attempts × Answer). IsBounded r.0)
      (ltb 0 (login_wait now user_key ip_key account_key a)) _ _ (λ _. ha)
      (λ _.
        admit_login-IsBounded now user_key ip_key account_key a _ cu ci ca
          (ensure_attempt_capacity-Makes now (login_new_keys user_key ip_key account_key a) a ha))

admit_registration-IsBounded :
    (now : ℕ) (ip_key : String) (m : Attempts) (r : Attempts × Bool)
    → IsCurrent now ip_key m
    → IsCurrent now registration_global_attempt_key m
    → Makes now (one_if_new ip_key m + one_if_new registration_global_attempt_key m) m r
    → IsBounded (admit_registration now ip_key r).0
unfolding admit_registration
admit_registration-IsBounded now ip_key m (r, false) ci cg h = h.bounded
admit_registration-IsBounded now ip_key m (r, true) ci cg h =
    let global = registration_global_attempt_key in
    let n = one_if_new ip_key m + one_if_new global m in
    let i = same_new now n ip_key m r true h ci in
    let g = same_new now n global m r true h cg in
    HasRoom-IsBounded 0 _
      (count_two now ip_key global 0 r (Makes-HasRoom now n _ m r h (omega (arith, i, g))))

pub reserve_registration_attempt-IsBounded :
    (ip_key : String) (now : ℕ) (m : Attempts)
    → IsBounded m
    → IsBounded (reserve_registration_attempt ip_key now m).0
unfolding reserve_registration_attempt drop_registration
reserve_registration_attempt-IsBounded ip_key now m h =
    let global = registration_global_attempt_key in
    let i = drop_if_over now ip_key m in
    let g = drop_if_over now global i in
    let hi = drop_if_over-IsBounded now ip_key m h in
    let hg = drop_if_over-IsBounded now global i hi in
    let ci =
      drop_other-IsCurrent now ip_key global i (drop_if_over-IsCurrent now ip_key m h.live) in
    let cg = drop_if_over-IsCurrent now global i hi.live in
    on_if (λ (r : Attempts × Answer). IsBounded r.0) (ltb 0 (registration_wait now ip_key g)) _ _
      (λ _. hg)
      (λ _.
        admit_registration-IsBounded now ip_key g _ ci cg
          (ensure_attempt_capacity-Makes now (one_if_new ip_key g + one_if_new global g) g hg))

-- The zero time tells a missing entry from one that is there.
new_if_zero :
    (o : Option Attempt)
    → OnSome IsLive o
    → ◌≡◌ {A = ℕ} (if (or_zero o).reset_at == 0 then 1 else 0) (if is_some o then 0 else 1)
new_if_zero none l = refl
new_if_zero (some a) l = ground arith

admit_single-IsBounded :
    (now n : ℕ) (key : String) (a : Attempt) (m : Attempts) (r : Attempts × Bool)
    → IsCurrent now key m
    → n ≡ one_if_new key m
    → Makes now n m r
    → IsBounded (admit_single now key a r).0
unfolding admit_single
admit_single-IsBounded now n key a m (r, false) c e h = h.bounded
admit_single-IsBounded now n key a m (r, true) c e h =
    let k = same_new now n key m r true h c in
    HasRoom-IsBounded 0 _ (
      put-HasRoom key (counted now a) 0 r (counted-IsLive now a)
        (Makes-HasRoom now n _ m r h (omega (arith, k, e))))

pub reserve_single_attempt-IsBounded :
    (key : String) (now limit : ℕ) (m : Attempts)
    → IsBounded m
    → IsBounded (reserve_single_attempt key now limit m).0
unfolding reserve_single_attempt
reserve_single_attempt-IsBounded key now limit m h =
    let k = drop_if_over now key m in
    let hk = drop_if_over-IsBounded now key m h in
    let a = attempt_of key k in
    let n : ℕ = if a.reset_at == 0 then 1 else 0 in
    on_if (λ (r : Attempts × Answer). IsBounded r.0) (leb limit a.failures) _ _ (λ _. hk)
      (λ _.
        admit_single-IsBounded now n key a k _ (drop_if_over-IsCurrent now key m h.live)
          (rw (is_key-lookup key k) (new_if_zero (lookup key k) (lookup-IsLive key k hk.live)))
          (ensure_attempt_capacity-Makes now n k hk))

pub release_entry-IsBounded :
    (key : String) (o : Option Attempt) (m : Attempts)
    → o ≡ lookup key m
    → IsBounded m
    → IsBounded (release_entry key o m)
release_entry-IsBounded key none m e h = h
release_entry-IsBounded key (some a) m e h =
    on_if IsBounded (leb a.failures 1) (delete key m)
      (put key (record a { failures = a.failures - 1 }) m)
      (λ _. record {
        unique = delete-IsUnique key m h.unique;
        live = AllValues-delete IsLive key m h.live;
        within = omega (arith, h.within, length-delete-le key m);
      })
      (λ more.
        let there = subst (OnSome IsLive) (sym e) (lookup-IsLive key m h.live) in
        let known : is_key key m ≡ true = is_key-lookup key m ∙ ap is_some (sym e) in
        let size = length-put key (record a { failures = a.failures - 1 }) m in
        record {
          unique = put-IsUnique key _ m h.unique;
          live = AllValues-put IsLive key _ m (ground (arith, more, there)) h.live;
          within = let same = (rw known at size) in omega (arith, h.within, same);
        })

pub release_login_reservation-IsBounded :
    (keys : List String) (m : Attempts) → IsBounded m → IsBounded (release_login_reservation keys m)
unfolding release_login_reservation
release_login_reservation-IsBounded [] m h = h
release_login_reservation-IsBounded (key ∷ keys) m h =
    release_login_reservation-IsBounded keys _ (release_entry-IsBounded key (lookup key m) m refl h)

-- One request on the table, with the time at which it comes.
pub data Request : Type 0 where
  login : String → String → String → ℕ → Request
  registration : String → ℕ → Request
  single : String → ℕ → ℕ → Request
  release : List String → Request

unfoldable pub serve : Request → Attempts → Attempts
serve (login user_key ip_key account_key now) m =
    (reserve_login_attempt user_key ip_key account_key now m).0
serve (registration ip_key now) m = (reserve_registration_attempt ip_key now m).0
serve (single key now limit) m = (reserve_single_attempt key now limit m).0
serve (release keys) m = release_login_reservation keys m

unfoldable pub serve_all : List Request → Attempts → Attempts
serve_all [] m = m
serve_all (r ∷ rs) m = serve_all rs (serve r m)

-- Whatever requests come, in whatever order and at whatever times: the table of attempts never holds
-- more than 4096 keys, no key twice, and only entries that count an attempt and have a time at which
-- they end.
pub serve_all-IsBounded :
    (rs : List Request) (m : Attempts) → IsBounded m → IsBounded (serve_all rs m)
unfolding serve_all serve
serve_all-IsBounded [] m h = h
serve_all-IsBounded (login u i a now ∷ rs) m h =
    serve_all-IsBounded rs _ (reserve_login_attempt-IsBounded u i a now m h)
serve_all-IsBounded (registration i now ∷ rs) m h =
    serve_all-IsBounded rs _ (reserve_registration_attempt-IsBounded i now m h)
serve_all-IsBounded (single k now limit ∷ rs) m h =
    serve_all-IsBounded rs _ (reserve_single_attempt-IsBounded k now limit m h)
serve_all-IsBounded (release keys ∷ rs) m h =
    serve_all-IsBounded rs _ (release_login_reservation-IsBounded keys m h)
