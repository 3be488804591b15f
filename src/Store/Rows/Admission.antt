-- ===== src/Store/Rows/Admission.antt =====
-- The limits that adding and changing an authorization (internal/store/store.go) holds to.
use gpuardian.Base.{
  ℕ, suc, Bool, ◌≤◌, ◌≡◌, true, arith, List, [], ◌∷◌, ◌++◌, ok, OnOk, OnOk->>, count_if,
  count_if-append, length, Bool-cases, inl, inr, ◌==◌, string_eq,
}
use gpuardian.Model.{Authorization, State}
use gpuardian.Store.Bounds.{check_total_capacity, max_total_authorizations}
use gpuardian.Store.Persist.Transact.{PlanKeeps}
use gpuardian.Store.Validity.{
  authorization_active_at, counts_for, check_active_authorization_capacity,
}
use gpuardian.Store.Validity.Capacity.{check_authorization_capacity_ok, count_if_one-le}
use gpuardian.Store.Rows.{add_authorization_body, replace_authorization, update_authorization_body}

-- At most 64 authorizations of the token of `a` are live at `clock`.
abbrev pub HasRoomFor : Authorization → ℕ → List Authorization → Type 0
HasRoomFor a clock rows = count_if (counts_for a clock) rows ≤ 64

-- A live authorization that is added leaves its token with at most 64 live ones.
pub add_authorization-HasRoomFor :
    (clock : ℕ) (a : Authorization) (s : State)
    → authorization_active_at a clock ≡ true
    → OnOk
        (PlanKeeps (λ s'. HasRoomFor a clock s'.authorizations))
        (add_authorization_body clock a s)
unfolding add_authorization_body
add_authorization-HasRoomFor clock a s live =
    let P = PlanKeeps (λ s'. HasRoomFor a clock s'.authorizations) {A = Unit {0}} in
    OnOk->> P
      (check_total_capacity "authorization" (length s.authorizations) 1 max_total_authorizations) _
      λ _. OnOk->> P (check_active_authorization_capacity s.authorizations a clock) _ λ h. omega (
        arith,
        check_authorization_capacity_ok s.authorizations a clock h live,
        count_if-append (counts_for a clock) s.authorizations (a ∷ []),
        count_if_one-le (counts_for a clock) a,
      )

count_if_cons-le :
    {A : Type 0} (test : A → Bool) (x : A) (xs : List A)
    → count_if test (x ∷ xs) ≤ suc (count_if test xs)
count_if_cons-le test x xs = ground arith

put-HasRoomFor :
    (clock : ℕ) (a : Authorization) (before after : List Authorization)
    → authorization_active_at a clock ≡ true
    → check_active_authorization_capacity (before ++ after) a clock ≡ ok tt
    → HasRoomFor a clock (before ++ a ∷ after)
put-HasRoomFor clock a before after live h =
    let test = counts_for a clock in
    omega (
      arith,
      check_authorization_capacity_ok (before ++ after) a clock h live,
      count_if-append test before after,
      count_if-append test before (a ∷ after),
      count_if_cons-le test a after,
    )

replace-HasRoomFor :
    (clock : ℕ) (a : Authorization) (before rows : List Authorization)
    → authorization_active_at a clock ≡ true
    → OnOk (HasRoomFor a clock) (replace_authorization clock a before rows)
unfolding replace_authorization
replace-HasRoomFor clock a before [] live = tt
replace-HasRoomFor clock a before (x ∷ rows) live = elim (Bool-cases (x.id == a.id)) [
  | inl e ↦ rw e (
      OnOk->> (HasRoomFor a clock) (check_active_authorization_capacity (before ++ rows) a clock) _
        (put-HasRoomFor clock a before rows live))
  | inr e ↦ rw e (replace-HasRoomFor clock a (before ++ x ∷ []) rows live)
]

pub update_authorization-HasRoomFor :
    (clock : ℕ) (a : Authorization) (s : State)
    → authorization_active_at a clock ≡ true
    → OnOk
        (PlanKeeps (λ s'. HasRoomFor a clock s'.authorizations))
        (update_authorization_body clock a s)
unfolding update_authorization_body
update_authorization-HasRoomFor clock a s live =
    let rows = replace-HasRoomFor clock a [] s.authorizations live in ground (arith, rows)
