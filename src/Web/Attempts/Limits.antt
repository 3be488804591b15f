-- ===== src/Web/Attempts/Limits.antt =====
-- internal/web/session.go: what dropping, sweeping and counting do to the count of a key.
use gpuardian.Base.{
  ℕ, suc, ◌+◌, ◌≡◌, refl, String, Bool, true, Option, none, some, ◌==◌, nat_eq, string_eq,
  if◌then◌else◌, ltb, leb, length, arith, OnSome, on_if, lookup, delete, lookup-put, lookup-delete,
  lookup-keep_values, passing, subst, Bool-cases, inl, inr, ==→eq,
}
use gpuardian.Web.Attempts.{
  Attempt, Attempts, or_zero, attempt_of, is_over, drop_if_over, ensure_attempt_capacity, counted,
  count_attempt,
}
use gpuardian.Web.Attempts.Bounded.{IsLive, IsBounded, IsCurrent, lookup-IsLive}

-- The count of a key at a time: what is over counts nothing.
abbrev pub failures_at : ℕ → Option Attempt → ℕ
failures_at now none = 0
failures_at now (some a) = if is_over now a then 0 else a.failures

abbrev pub count_at : ℕ → String → Attempts → ℕ
count_at now key m = failures_at now (lookup key m)

count_at-delete :
    (now : ℕ) (key q : String) (m : Attempts)
    → is_over now (attempt_of key m) ≡ true
    → count_at now q (delete key m) ≡ count_at now q m
count_at-delete now key q m over = elim (Bool-cases (key == q)) [
  | inl e ↦
      let same = ==→eq key q e in
      let over' = subst (λ k. is_over now (attempt_of k m) ≡ true) same over in
      rw (lookup-delete key q m) (rw e (gone (lookup q m) over'))
  | inr e ↦ rw (lookup-delete key q m) (rw e refl)
]
  where
    gone : (o : Option Attempt) → is_over now (or_zero o) ≡ true → 0 ≡ failures_at now o
    gone none h = refl
    gone (some a) h = rw h refl

-- Dropping what is over changes no count.
pub count_at-drop_if_over :
    (now : ℕ) (key q : String) (m : Attempts)
    → count_at now q (drop_if_over now key m) ≡ count_at now q m
unfolding drop_if_over
count_at-drop_if_over now key q m =
    on_if (λ t. count_at now q t ≡ count_at now q m) (is_over now (attempt_of key m)) (delete key m)
      m (count_at-delete now key q m) (λ _. refl)

swept_count :
    (now : ℕ) (o : Option Attempt)
    → OnSome IsLive o
    → failures_at now (passing (λ a. ltb now a.reset_at) o) ≡ failures_at now o
swept_count now none l = refl
swept_count now (some a) l = ground arith

-- Nor does the sweep.
pub count_at-ensure :
    (now n : ℕ) (q : String) (m : Attempts)
    → IsBounded m
    → count_at now q (ensure_attempt_capacity now n m).0 ≡ count_at now q m
unfolding ensure_attempt_capacity
count_at-ensure now n q m h =
    on_if (λ (r : Attempts × Bool). count_at now q r.0 ≡ count_at now q m) (leb (length m + n) 4096)
      _ _ (λ _. refl)
      (λ _.
        rw (lookup-keep_values (λ (a : Attempt). ltb now a.reset_at) q m h.unique)
          (swept_count now (lookup q m) (lookup-IsLive q m h.live)))

counted_up :
    (now : ℕ) (o : Option Attempt)
    → OnSome (λ a. ltb now a.reset_at ≡ true) o
    → failures_at now (some (counted now (or_zero o))) ≡ suc (failures_at now o)
counted_up now none c = ground arith
counted_up now (some a) c = ground arith

-- Counting an attempt adds one to its key, whose entry has not ended, and to no other.
pub count_at-count :
    (now : ℕ) (key q : String) (m : Attempts)
    → IsCurrent now key m
    → count_at now q (count_attempt now key m)
      ≡ (if key == q then suc (count_at now q m) else count_at now q m)
unfolding count_attempt
count_at-count now key q m c = elim (Bool-cases (key == q)) [
  | inl e ↦ rw (lookup-put key q (counted now (attempt_of key m)) m) (
      rw e (
        subst
          (λ k. failures_at now (some (counted now (attempt_of key m))) ≡ suc (count_at now k m))
          (==→eq key q e) (counted_up now (lookup key m) c)))
  | inr e ↦ rw (lookup-put key q (counted now (attempt_of key m)) m) (rw e refl)
]
