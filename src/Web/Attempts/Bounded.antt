-- ===== src/Web/Attempts/Bounded.antt =====
-- internal/web/session.go: the table of attempts keeps within its size, whatever is asked of it.
use gpuardian.Base.{
  ℕ, ◌+◌, ◌≤◌, ◌≡◌, refl, String, Bool, true, false, [], ◌∷◌, Option, none, some, ◌==◌, nat_eq,
  string_eq, ltb, leb, length, arith, OnSome, on_if, lookup, delete, is_key, keep_values,
  lookup-delete, length-delete-le, is_key-lookup, IsUnique, AllValues, AllValues-delete,
  AllValues-keep_values, delete-IsUnique, keep_values-IsUnique, lookup-keep_values, passing,
  is_some, ==_refl,
}
use gpuardian.Web.Attempts.{
  Attempt, Attempts, or_zero, attempt_of, is_over, drop_if_over, ensure_attempt_capacity,
}

-- An entry counts something, and has a time at which it ends.
abbrev pub IsLive : Attempt → Type 0
IsLive a = (1 ≤ a.failures) × (1 ≤ a.reset_at)

-- The table between two requests.
pub record IsBounded (m : Attempts) : Type 0 where
  pub unique : IsUnique m
  pub live : AllValues IsLive m
  pub within : length m ≤ 4096

pub lookup-IsLive :
    (key : String) (m : Attempts) → AllValues IsLive m → OnSome IsLive (lookup key m)
lookup-IsLive key [] h = tt
lookup-IsLive key ((j, a) ∷ m) h = ground (arith, lookup-IsLive key m)

-- What is there for the key has not ended.
abbrev pub IsCurrent : ℕ → String → Attempts → Type 0
IsCurrent now key m = OnSome (λ a. ltb now a.reset_at ≡ true) (lookup key m)

pub drop_if_over-IsBounded :
    (now : ℕ) (key : String) (m : Attempts) → IsBounded m → IsBounded (drop_if_over now key m)
unfolding drop_if_over
drop_if_over-IsBounded now key m h =
    on_if IsBounded (is_over now (attempt_of key m)) (delete key m) m
      (λ _. record {
        unique = delete-IsUnique key m h.unique;
        live = AllValues-delete IsLive key m h.live;
        within = omega (arith, h.within, length-delete-le key m);
      })
      (λ _. h)

not_over_current :
    (now : ℕ) (o : Option Attempt)
    → OnSome IsLive o
    → is_over now (or_zero o) ≡ false
    → OnSome (λ a. ltb now a.reset_at ≡ true) o
not_over_current now none l e = tt
not_over_current now (some a) l e = ground arith

pub drop_if_over-IsCurrent :
    (now : ℕ) (key : String) (m : Attempts)
    → AllValues IsLive m
    → IsCurrent now key (drop_if_over now key m)
unfolding drop_if_over
drop_if_over-IsCurrent now key m live =
    on_if (IsCurrent now key) (is_over now (attempt_of key m)) (delete key m) m
      (λ _. rw (lookup-delete key key m) (rw (==_refl key) tt))
      (not_over_current now (lookup key m) (lookup-IsLive key m live))

-- Dropping another entry leaves it so.
pub drop_other-IsCurrent :
    (now : ℕ) (key other : String) (m : Attempts)
    → IsCurrent now key m
    → IsCurrent now key (drop_if_over now other m)
unfolding drop_if_over
drop_other-IsCurrent now key other m h =
    on_if (IsCurrent now key) (is_over now (attempt_of other m)) (delete other m) m
      (λ _. rw (lookup-delete other key m) (
        on_if (OnSome (λ a. ltb now a.reset_at ≡ true)) (other == key) none (lookup key m) (λ _. tt)
          (λ _. h)))
      (λ _. h)

swept_some :
    (now : ℕ) (o : Option Attempt)
    → OnSome (λ a. ltb now a.reset_at ≡ true) o
    → is_some (passing (λ a. ltb now a.reset_at) o) ≡ is_some o
swept_some now none h = refl
swept_some now (some a) h = rw h refl

-- The sweep removes no current entry.
swept_is_key :
    (now : ℕ) (key : String) (m : Attempts)
    → IsUnique m
    → IsCurrent now key m
    → is_key key (keep_values (λ a. ltb now a.reset_at) m) ≡ is_key key m
swept_is_key now key m u h =
    rw (is_key-lookup key (keep_values (λ (a : Attempt). ltb now a.reset_at) m)) (
      rw (is_key-lookup key m) (
        rw (lookup-keep_values (λ (a : Attempt). ltb now a.reset_at) key m u)
          (swept_some now (lookup key m) h)))

-- What the check of the size gives: a table of the same shape in which the current entries are kept,
-- and with room for the new keys if it says so.
pub record Makes (now new_keys : ℕ) (m : Attempts) (r : Attempts × Bool) : Type 0 where
  pub bounded : IsBounded r.0
  pub room : r.1 ≡ true → length r.0 + new_keys ≤ 4096
  pub keeps : (key : String) → IsCurrent now key m → is_key key r.0 ≡ is_key key m

length-keep_values-le :
    (test : Attempt → Bool) (m : Attempts) → length (keep_values test m) ≤ length m
length-keep_values-le test [] = omega arith
length-keep_values-le test ((j, a) ∷ m) = ground (arith, length-keep_values-le test m)

leb→le : (a b : ℕ) → leb a b ≡ true → a ≤ b
leb→le a b h = ground arith

pub ensure_attempt_capacity-Makes :
    (now new_keys : ℕ) (m : Attempts)
    → IsBounded m
    → Makes now new_keys m (ensure_attempt_capacity now new_keys m)
unfolding ensure_attempt_capacity
ensure_attempt_capacity-Makes now new_keys m h =
    let swept = keep_values (λ (a : Attempt). ltb now a.reset_at) m in
    on_if (Makes now new_keys m) (leb (length m + new_keys) 4096) (m, true)
      (swept, leb (length swept + new_keys) 4096)
      (λ fits. record {
        bounded = h;
        room = λ _. leb→le (length m + new_keys) 4096 fits;
        keeps = λ key c. refl;
      })
      (λ _. record {
        bounded = record {
          unique = keep_values-IsUnique (λ a. ltb now a.reset_at) m h.unique;
          live = AllValues-keep_values IsLive (λ a. ltb now a.reset_at) m h.live;
          within = omega (arith, h.within, length-keep_values-le (λ a. ltb now a.reset_at) m);
        };
        room = leb→le (length swept + new_keys) 4096;
        keeps = λ key c. swept_is_key now key m h.unique c;
      })
