-- ===== src/Web/Attempts/Counted.antt =====
-- internal/web/session.go: the requests on the table of attempts keep it within its size.
use gpuardian.Base.{
  ℕ, ◌+◌, ◌≤◌, ◌≡◌, refl, String, Bool, true, false, nat_eq, string_eq, length, arith, put,
  length-put, is_key-put, IsUnique, AllValues, AllValues-put, put-IsUnique,
}
use gpuardian.Web.Attempts.{
  Attempt, Attempts, attempt_of, drop_if_over, one_if_new, counted, count_attempt, drop_login,
  login_new_keys, admit_login,
}
use gpuardian.Web.Attempts.Bounded.{
  IsLive, IsBounded, IsCurrent, drop_if_over-IsBounded, drop_if_over-IsCurrent,
  drop_other-IsCurrent, Makes,
}

-- A table that still has room for `n` new keys.
pub record HasRoom (n : ℕ) (m : Attempts) : Type 0 where
  pub unique : IsUnique m
  live : AllValues IsLive m
  room : length m + n ≤ 4096

pub counted-IsLive : (now : ℕ) (a : Attempt) → IsLive (counted now a)
counted-IsLive now a = ground arith

pub put-HasRoom :
    (key : String) (a : Attempt) (n : ℕ) (m : Attempts)
    → IsLive a
    → HasRoom (one_if_new key m + n) m
    → HasRoom n (put key a m)
put-HasRoom key a n m l h = record {
  unique = put-IsUnique key a m h.unique;
  live = AllValues-put IsLive key a m l h.live;
  room = omega (arith, h.room, length-put key a m);
}

-- A key that is put makes no other one new.
one_if_new-put :
    (key other : String) (a : Attempt) (m : Attempts)
    → one_if_new other (put key a m) ≤ one_if_new other m
one_if_new-put key other a m = rw (is_key-put key other a m) (ground arith)

less_room : (n k : ℕ) (m : Attempts) → k ≤ n → HasRoom n m → HasRoom k m
less_room n k m l h = record { unique = h.unique; live = h.live; room = omega (arith, h.room) }

count-HasRoom :
    (now : ℕ) (key : String) (n : ℕ) (m : Attempts)
    → HasRoom (one_if_new key m + n) m
    → HasRoom n (count_attempt now key m)
unfolding count_attempt
count-HasRoom now key n m h =
    put-HasRoom key (counted now (attempt_of key m)) n m (counted-IsLive now (attempt_of key m)) h

one_if_new-count :
    (now : ℕ) (key other : String) (m : Attempts)
    → one_if_new other (count_attempt now key m) ≤ one_if_new other m
unfolding count_attempt
one_if_new-count now key other m = one_if_new-put key other (counted now (attempt_of key m)) m

pub HasRoom-IsBounded : (n : ℕ) (m : Attempts) → HasRoom n m → IsBounded m
HasRoom-IsBounded n m h = record {
  unique = h.unique;
  live = h.live;
  within = omega (arith, h.room);
}

pub count_two :
    (now : ℕ) (a b : String) (n : ℕ) (m : Attempts)
    → HasRoom (one_if_new a m + (one_if_new b m + n)) m
    → HasRoom n (count_attempt now b (count_attempt now a m))
count_two now a b n m h =
    let first = count-HasRoom now a (one_if_new b m + n) m h in
    count-HasRoom now b n (count_attempt now a m) (
      less_room (one_if_new b m + n) (one_if_new b (count_attempt now a m) + n) _
        (omega (arith, one_if_new-count now a b m)) first)

-- The new keys, counted before a check of the size that keeps the current entries.
pub Makes-HasRoom :
    (now n k : ℕ) (m : Attempts) (r : Attempts) → Makes now n m (r, true) → k ≤ n → HasRoom k r
Makes-HasRoom now n k m r h l = record {
  unique = h.bounded.unique;
  live = h.bounded.live;
  room = omega (arith, h.room refl);
}

pub same_new :
    (now n : ℕ) (key : String) (m r : Attempts) (b : Bool)
    → Makes now n m (r, b)
    → IsCurrent now key m
    → one_if_new key r ≡ one_if_new key m
same_new now n key m r b h c = rw (h.keeps key c) refl

pub admit_login-IsBounded :
    (now : ℕ) (user_key ip_key account_key : String) (m : Attempts) (r : Attempts × Bool)
    → IsCurrent now user_key m
    → IsCurrent now ip_key m
    → IsCurrent now account_key m
    → Makes now (login_new_keys user_key ip_key account_key m) m r
    → IsBounded (admit_login now user_key ip_key account_key r).0
unfolding admit_login login_new_keys
admit_login-IsBounded now user_key ip_key account_key m (r, false) cu ci ca h = h.bounded
admit_login-IsBounded now user_key ip_key account_key m (r, true) cu ci ca h =
    let n = one_if_new user_key m + one_if_new ip_key m + one_if_new account_key m in
    let u = same_new now n user_key m r true h cu in
    let i = same_new now n ip_key m r true h ci in
    let a = same_new now n account_key m r true h ca in
    let two =
      count_two now user_key ip_key (one_if_new account_key r) r
        (Makes-HasRoom now n _ m r h (omega (arith, u, i, a))) in
    let m2 = count_attempt now ip_key (count_attempt now user_key r) in
    HasRoom-IsBounded 0 _ (
      count-HasRoom now account_key 0 m2 (
        less_room (one_if_new account_key r) (one_if_new account_key m2 + 0) m2
          (omega (
            arith,
            one_if_new-count now user_key account_key r,
            one_if_new-count now ip_key account_key (count_attempt now user_key r),
          ))
          two))

-- Behind the dropping, what is left for the three keys has not ended.
pub drop_login_ready :
    (user_key ip_key account_key : String) (now : ℕ) (m : Attempts)
    → IsBounded m
    → IsBounded (drop_login now user_key ip_key account_key m)
      × IsCurrent now user_key (drop_login now user_key ip_key account_key m)
      × IsCurrent now ip_key (drop_login now user_key ip_key account_key m)
      × IsCurrent now account_key (drop_login now user_key ip_key account_key m)
unfolding drop_login
drop_login_ready user_key ip_key account_key now m h =
    let u = drop_if_over now user_key m in
    let i = drop_if_over now ip_key u in
    let hu = drop_if_over-IsBounded now user_key m h in
    let hi = drop_if_over-IsBounded now ip_key u hu in
    (
      drop_if_over-IsBounded now account_key i hi,
      drop_other-IsCurrent now user_key account_key i (
          drop_other-IsCurrent now user_key ip_key u
            (drop_if_over-IsCurrent now user_key m h.live)),
      drop_other-IsCurrent now ip_key account_key i (drop_if_over-IsCurrent now ip_key u hu.live),
      drop_if_over-IsCurrent now account_key i hi.live,
    )
