-- ===== src/Web/Attempts/Login.antt =====
-- internal/web/session.go, reserveLoginAttempt: what an answer says of the counts.
use gpuardian.Base.{
  ℕ, ◌+◌, ◌<◌, ◌≡◌, String, Bool, true, false, Option, none, some, ◌==◌, nat_eq, string_eq,
  if◌then◌else◌, ltb, leb, length, arith, OnSome, on_if, lookup, lookup-put, lookup-keep_values,
  passing, subst, ◌∙◌,
}
use gpuardian.Web.Attempts.{
  Attempt, Attempts, Answer, or_zero, attempt_of, ensure_attempt_capacity, counted, count_attempt,
  wait_for, max_of, drop_login, login_wait, login_new_keys, admit_login, reserve_login_attempt,
}
use gpuardian.Web.Attempts.Bounded.{IsBounded, IsCurrent}
use gpuardian.Web.Attempts.Counted.{drop_login_ready}
use gpuardian.Web.Attempts.Limits.{
  failures_at, count_at, count_at-drop_if_over, count_at-ensure, count_at-count,
}

abbrev pub one_at : String → String → ℕ
one_at key q = if key == q then 1 else 0

-- A refused attempt counts nothing. One that is let in adds one to each of its keys and to no other,
-- and each was below its limit.
abbrev pub IsCounted : String → String → String → ℕ → Attempts → Attempts × Answer → Type 0
IsCounted user_key ip_key account_key now m (m', (false, wait)) =
    (q : String) → count_at now q m' ≡ count_at now q m
IsCounted user_key ip_key account_key now m (m', (true, wait)) =
    ((q : String)
      → count_at now q m'
        ≡ count_at now q m + one_at user_key q + one_at ip_key q + one_at account_key q)
    × (count_at now user_key m < 5)
    × (count_at now ip_key m < 50)
    × (count_at now account_key m < 10)

count-IsCurrent :
    (now : ℕ) (key q : String) (m : Attempts)
    → IsCurrent now key m
    → IsCurrent now q m
    → IsCurrent now q (count_attempt now key m)
unfolding count_attempt
count-IsCurrent now key q m k c = rw (lookup-put key q (counted now (attempt_of key m)) m) (
    on_if (OnSome (λ a. ltb now a.reset_at ≡ true)) (key == q)
      (some (counted now (attempt_of key m))) (lookup q m) (λ _. go (lookup key m) k) (λ _. c))
  where
    go :
        (o : Option Attempt)
        → OnSome (λ a. ltb now a.reset_at ≡ true) o
        → ltb now (counted now (or_zero o)).reset_at ≡ true
    go none h = ground arith
    go (some a) h = ground arith

ensure-IsCurrent :
    (now n : ℕ) (q : String) (m : Attempts)
    → IsBounded m
    → IsCurrent now q m
    → IsCurrent now q (ensure_attempt_capacity now n m).0
unfolding ensure_attempt_capacity
ensure-IsCurrent now n q m h c =
    on_if (λ (r : Attempts × Bool). IsCurrent now q r.0) (leb (length m + n) 4096) _ _ (λ _. c)
      (λ _.
        rw (lookup-keep_values (λ (a : Attempt). ltb now a.reset_at) q m h.unique)
          (go (lookup q m) c))
  where
    go :
        (o : Option Attempt)
        → OnSome (λ a. ltb now a.reset_at ≡ true) o
        → OnSome (λ a. ltb now a.reset_at ≡ true) (passing (λ a. ltb now a.reset_at) o)
    go none k = tt
    go (some a) k = rw k k

-- Three attempts in a row, each counted.
count_three :
    (now : ℕ) (a b c q : String) (m : Attempts)
    → IsCurrent now a m
    → IsCurrent now b m
    → IsCurrent now c m
    → count_at now q (count_attempt now c (count_attempt now b (count_attempt now a m)))
      ≡ count_at now q m + one_at a q + one_at b q + one_at c q
count_three now a b c q m ca cb cc' =
    let m1 = count_attempt now a m in
    let m2 = count_attempt now b m1 in
    let b1 = count-IsCurrent now a b m ca cb in
    let c2 = count-IsCurrent now b c m1 b1 (count-IsCurrent now a c m ca cc') in
    let ea = count_at-count now a q m ca in
    let eb = count_at-count now b q m1 b1 in
    let ec = count_at-count now c q m2 c2 in ground (arith, ea, eb, ec)

below_limit :
    (now limit : ℕ) (o : Option Attempt)
    → 0 < limit
    → OnSome (λ a. ltb now a.reset_at ≡ true) o
    → wait_for limit now (or_zero o) ≡ 0
    → failures_at now o < limit
below_limit now limit none l c w = l
below_limit now limit (some a) l c w = ground arith

no_wait : (a b c : ℕ) → ltb 0 (max_of (max_of a b) c) ≡ false → (a ≡ 0) × (b ≡ 0) × (c ≡ 0)
no_wait a b c h = ground arith

module _ (user_key ip_key account_key : String) (now : ℕ) where
  -- The counts in the table from which what is over has been dropped are those of before.
  pub count_at-drop_login :
      (q : String) (m : Attempts)
      → count_at now q (drop_login now user_key ip_key account_key m) ≡ count_at now q m
  unfolding drop_login
  count_at-drop_login q m =
      count_at-drop_if_over now account_key q _
      ∙ count_at-drop_if_over now ip_key q _
      ∙ count_at-drop_if_over now user_key q m

  -- An attempt that is let in behind a check of the size.
  admit_login-IsCounted :
      (m t : Attempts) (r : Attempts × Bool)
      → ((q : String) → count_at now q r.0 ≡ count_at now q m)
      → ((q : String) → IsCurrent now q t → IsCurrent now q r.0)
      → IsCurrent now user_key t
      → IsCurrent now ip_key t
      → IsCurrent now account_key t
      → (count_at now user_key m < 5)
        × (count_at now ip_key m < 50)
        × (count_at now account_key m < 10)
      → IsCounted user_key ip_key account_key now m (admit_login now user_key ip_key account_key r)
  unfolding admit_login
  admit_login-IsCounted m t (r, false) same keep cu ci ca below = same
  admit_login-IsCounted m t (r, true) same keep cu ci ca below = (
    λ q.
        let old = same q in
        omega (
          arith,
          old,
          count_three now user_key ip_key account_key q r (keep user_key cu) (keep ip_key ci)
              (keep account_key ca),
        ),
    below.0,
    below.1,
    below.2,
  )

  -- An attempt to log in is refused and changes no count, or it is let in, adds one to the counts of
  -- its keys and to no other, and each of them was below its limit: 5 of the account from the
  -- address, 50 from the address, 10 of the account. What is over counts nothing.
  pub reserve_login_attempt-IsCounted :
      (m : Attempts)
      → IsBounded m
      → IsCounted user_key ip_key account_key now m
          (reserve_login_attempt user_key ip_key account_key now m)
  unfolding reserve_login_attempt login_wait
  reserve_login_attempt-IsCounted m h =
      let t = drop_login now user_key ip_key account_key m in
      let five : 0 < 5 = omega arith in
      let fifty : 0 < 50 = omega arith in
      let ten : 0 < 10 = omega arith in
      let (ht, cu, ci, ca) = drop_login_ready user_key ip_key account_key now m h in
      let new = login_new_keys user_key ip_key account_key t in
      on_if (IsCounted user_key ip_key account_key now m)
        (ltb 0 (login_wait now user_key ip_key account_key t)) _ _ (λ _ q. count_at-drop_login q m)
        (λ short.
          let (wu, wi, wa) = no_wait _ _ _ short in
          admit_login-IsCounted m t (ensure_attempt_capacity now new t)
            (λ q. count_at-ensure now new q t ht ∙ count_at-drop_login q m)
            (λ q. ensure-IsCurrent now new q t ht) cu ci ca
            (
              subst (λ n. n < 5) (count_at-drop_login user_key m)
                  (below_limit now 5 (lookup user_key t) five cu wu),
              subst (λ n. n < 50) (count_at-drop_login ip_key m)
                  (below_limit now 50 (lookup ip_key t) fifty ci wi),
              subst (λ n. n < 10) (count_at-drop_login account_key m)
                  (below_limit now 10 (lookup account_key t) ten ca wa),
            ))
