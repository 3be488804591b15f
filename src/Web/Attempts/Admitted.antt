-- ===== src/Web/Attempts/Admitted.antt =====
-- internal/web/session.go, reserveLoginAttempt: nobody is kept out below the limits.
use gpuardian.Base.{
  ℕ, ◌+◌, ◌≤◌, ◌<◌, ◌≡◌, refl, sym, ap, subst, String, Bool, true, Option, none, some, nat_eq, ltb,
  leb, length, length-delete-le, arith, OnSome, on_if, lookup, delete,
}
use gpuardian.Web.Attempts.{
  Attempt, Attempts, or_zero, attempt_of, is_over, drop_if_over, wait_for, one_if_new, drop_login,
  login_wait, login_new_keys, admit_login, ensure_attempt_capacity, reserve_login_attempt,
}
use gpuardian.Web.Attempts.Bounded.{IsBounded}
use gpuardian.Web.Attempts.Counted.{drop_login_ready}
use gpuardian.Web.Attempts.Limits.{failures_at, count_at}
use gpuardian.Web.Attempts.Login.{count_at-drop_login}

no_wait_below :
    (now limit : ℕ) (o : Option Attempt)
    → failures_at now o < limit
    → OnSome (λ a. ltb now a.reset_at ≡ true) o
    → wait_for limit now (or_zero o) ≡ 0
no_wait_below now limit none below current = ground arith
no_wait_below now limit (some a) below current = ground arith

length-drop_if_over-le :
    (now : ℕ) (key : String) (m : Attempts) → length (drop_if_over now key m) ≤ length m
unfolding drop_if_over
length-drop_if_over-le now key m =
    on_if (λ t. length t ≤ length m) (is_over now (attempt_of key m)) (delete key m) m
      (λ _. length-delete-le key m) (λ _. omega arith)

length-drop_login-le :
    (now : ℕ) (a b c : String) (m : Attempts) → length (drop_login now a b c m) ≤ length m
unfolding drop_login
length-drop_login-le now a b c m =
    let one = length-drop_if_over-le now a m in
    let two = length-drop_if_over-le now b (drop_if_over now a m) in
    let three = length-drop_if_over-le now c (drop_if_over now b (drop_if_over now a m)) in
    omega (arith, one, two, three)

one_if_new-le : (key : String) (m : Attempts) → one_if_new key m ≤ 1
one_if_new-le key m = ground arith

login_new_keys-le : (a b c : String) (m : Attempts) → login_new_keys a b c m ≤ 3
unfolding login_new_keys
login_new_keys-le a b c m =
    let one = one_if_new-le a m in
    let two = one_if_new-le b m in let three = one_if_new-le c m in omega (arith, one, two, three)

ensure_room :
    (now n : ℕ) (m : Attempts) → length m + n ≤ 4096 → (ensure_attempt_capacity now n m) ≡ (m, true)
unfolding ensure_attempt_capacity
ensure_room now n m room =
    on_if (λ (r : Attempts × Bool). r ≡ (m, true)) (leb (length m + n) 4096) (m, true) _ (λ _. refl)
      (λ full. absurd (ground (arith, full, room)))

-- An attempt to log in is let in where each of its three counts is below its limit and the table has
-- room for three keys more.
pub reserve_login_attempt_admits :
    (user_key ip_key account_key : String) (now : ℕ) (m : Attempts)
    → IsBounded m
    → count_at now user_key m < 5
    → count_at now ip_key m < 50
    → count_at now account_key m < 10
    → length m + 3 ≤ 4096
    → (reserve_login_attempt user_key ip_key account_key now m).1.0 ≡ true
unfolding reserve_login_attempt login_wait admit_login
reserve_login_attempt_admits user_key ip_key account_key now m h u i a room =
    let t = drop_login now user_key ip_key account_key m in
    let (ht, cu, ci, ca) = drop_login_ready user_key ip_key account_key now m h in
    let same = count_at-drop_login user_key ip_key account_key now in
    let wu =
      no_wait_below now 5 (lookup user_key t) (subst (λ n. n < 5) (sym (same user_key m)) u) cu in
    let wi =
      no_wait_below now 50 (lookup ip_key t) (subst (λ n. n < 50) (sym (same ip_key m)) i) ci in
    let wa =
      no_wait_below now 10 (lookup account_key t) (subst (λ n. n < 10) (sym (same account_key m)) a)
        ca in
    let fewer = length-drop_login-le now user_key ip_key account_key m in
    let new = login_new_keys user_key ip_key account_key t in
    let few = login_new_keys-le user_key ip_key account_key t in
    let fits = ensure_room now new t (omega (arith, fewer, few, room)) in
    rw (wu, wi, wa) (ap (λ r. (admit_login now user_key ip_key account_key r).1.0) fits)
