-- ===== src/Web/Attempts.antt =====
-- internal/web/session.go: the attempts that are counted per address and per account, in a table of
-- bounded size. A duration is a number of nanoseconds; one that the source returns as negative is 0.
pub mod Admitted
pub mod Bounded
pub mod Counted
pub mod History
pub mod Limits
pub mod Login
pub mod Released
use gpuardian.Base.{
  ℕ, suc, ◌+◌, ◌-◌, String, Bool, true, false, not, ◌&&◌, ◌||◌, List, [], ◌∷◌, Option, none, some,
  ◌==◌, nat_eq, if◌then◌else◌, ltb, leb, length, Map, lookup, put, delete, is_key, keep_values,
}

pub record Attempt : Type 0 where
  pub failures : ℕ
  pub reset_at : ℕ

abbrev pub no_attempt : Attempt
no_attempt = record { failures = 0; reset_at = 0 }

abbrev pub login_window : ℕ
login_window = 60_000_000_000

abbrev pub login_failure_limit : ℕ
login_failure_limit = 5

abbrev pub login_ip_failure_limit : ℕ
login_ip_failure_limit = 50

abbrev pub login_user_failure_limit : ℕ
login_user_failure_limit = 10

abbrev pub registration_ip_limit : ℕ
registration_ip_limit = 5

abbrev pub registration_global_limit : ℕ
registration_global_limit = 20

abbrev pub password_change_limit : ℕ
password_change_limit = 5

abbrev pub max_login_attempt_keys : ℕ
max_login_attempt_keys = 4096

abbrev pub registration_global_attempt_key : String
registration_global_attempt_key = "registration:global"

abbrev pub Attempts : Type 0
Attempts = Map Attempt

-- `m[key]`, the zero value where the key is missing.
abbrev pub or_zero : Option Attempt → Attempt
or_zero none = no_attempt
or_zero (some a) = a

abbrev pub attempt_of : String → Attempts → Attempt
attempt_of key m = or_zero (lookup key m)

-- `!resetAt.IsZero() && !now.Before(resetAt)`
abbrev pub is_over : ℕ → Attempt → Bool
is_over now a = not (a.reset_at == 0) && not (ltb now a.reset_at)

-- The entry is dropped where its window is over.
unfoldable pub drop_if_over : ℕ → String → Attempts → Attempts
drop_if_over now key m = if is_over now (attempt_of key m) then delete key m else m

-- How long to wait where the limit is reached.
abbrev pub wait_for : ℕ → ℕ → Attempt → ℕ
wait_for limit now a = if leb limit a.failures then a.reset_at - now else 0

abbrev pub max_of : ℕ → ℕ → ℕ
max_of a b = if ltb a b then b else a

abbrev pub one_if_new : String → Attempts → ℕ
one_if_new key m = if is_key key m then 0 else 1

-- ensureAttemptCapacityLocked: whether the new keys fit, if need be behind a sweep.
unfoldable pub ensure_attempt_capacity : ℕ → ℕ → Attempts → Attempts × Bool
ensure_attempt_capacity now new_keys m =
    let swept = keep_values (λ a. ltb now a.reset_at) m in
    if leb (length m + new_keys) max_login_attempt_keys
    then (m, true)
    else (swept, leb (length swept + new_keys) max_login_attempt_keys)

abbrev pub counted : ℕ → Attempt → Attempt
counted now a = record {
  failures = suc a.failures;
  reset_at = if a.reset_at == 0 then now + login_window else a.reset_at;
}

unfoldable pub count_attempt : ℕ → String → Attempts → Attempts
count_attempt now key m = put key (counted now (attempt_of key m)) m

-- Whether the attempt is let in, and how long to wait.
abbrev pub Answer : Type 0
Answer = Bool × ℕ

unfoldable pub admit_login : ℕ → String → String → String → Attempts × Bool → Attempts × Answer
admit_login now user_key ip_key account_key (m, false) = (m, (false, login_window))
admit_login now user_key ip_key account_key (m, true) = (
  count_attempt now account_key (count_attempt now ip_key (count_attempt now user_key m)),
  (true, 0),
)

unfoldable pub drop_login : ℕ → String → String → String → Attempts → Attempts
drop_login now user_key ip_key account_key m =
    drop_if_over now account_key (drop_if_over now ip_key (drop_if_over now user_key m))

unfoldable pub login_wait : ℕ → String → String → String → Attempts → ℕ
login_wait now user_key ip_key account_key m =
    max_of
      (max_of (wait_for login_failure_limit now (attempt_of user_key m))
        (wait_for login_ip_failure_limit now (attempt_of ip_key m)))
      (wait_for login_user_failure_limit now (attempt_of account_key m))

unfoldable pub login_new_keys : String → String → String → Attempts → ℕ
login_new_keys user_key ip_key account_key m =
    one_if_new user_key m + one_if_new ip_key m + one_if_new account_key m

-- reserveLoginAttempt
unfoldable pub reserve_login_attempt : String → String → String → ℕ → Attempts → Attempts × Answer
reserve_login_attempt user_key ip_key account_key now table =
    let m = drop_login now user_key ip_key account_key table in
    let wait = login_wait now user_key ip_key account_key m in
    if ltb 0 wait
    then (m, (false, wait))
    else admit_login now user_key ip_key account_key
        (ensure_attempt_capacity now (login_new_keys user_key ip_key account_key m) m)

unfoldable pub admit_single : ℕ → String → Attempt → Attempts × Bool → Attempts × Answer
admit_single now key a (m, false) = (m, (false, login_window))
admit_single now key a (m, true) = (put key (counted now a) m, (true, 0))

unfoldable pub reserve_single_attempt : String → ℕ → ℕ → Attempts → Attempts × Answer
reserve_single_attempt key now limit table =
    let m = drop_if_over now key table in
    let a = attempt_of key m in
    if leb limit a.failures
    then (m, (false, a.reset_at - now))
    else admit_single now key a (ensure_attempt_capacity now (if a.reset_at == 0 then 1 else 0) m)

unfoldable pub admit_registration : ℕ → String → Attempts × Bool → Attempts × Answer
admit_registration now ip_key (m, false) = (m, (false, login_window))
admit_registration now ip_key (m, true) =
    (count_attempt now registration_global_attempt_key (count_attempt now ip_key m), (true, 0))

unfoldable pub drop_registration : ℕ → String → Attempts → Attempts
drop_registration now ip_key m =
    drop_if_over now registration_global_attempt_key (drop_if_over now ip_key m)

unfoldable pub registration_wait : ℕ → String → Attempts → ℕ
registration_wait now ip_key m =
    max_of (wait_for registration_ip_limit now (attempt_of ip_key m))
      (wait_for registration_global_limit now (attempt_of registration_global_attempt_key m))

unfoldable pub reserve_registration_attempt : String → ℕ → Attempts → Attempts × Answer
reserve_registration_attempt ip_key now table =
    let m = drop_registration now ip_key table in
    let wait = registration_wait now ip_key m in
    if ltb 0 wait
    then (m, (false, wait))
    else admit_registration now ip_key (
        ensure_attempt_capacity now
          (one_if_new ip_key m + one_if_new registration_global_attempt_key m) m)

abbrev pub release_entry : String → Option Attempt → Attempts → Attempts
release_entry key none m = m
release_entry key (some a) m =
    if leb a.failures 1 then delete key m else put key (record a { failures = a.failures - 1 }) m

-- releaseLoginReservation
unfoldable pub release_login_reservation : List String → Attempts → Attempts
release_login_reservation [] m = m
release_login_reservation (key ∷ keys) m =
    release_login_reservation keys (release_entry key (lookup key m) m)
