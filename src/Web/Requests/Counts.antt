-- ===== src/Web/Requests/Counts.antt =====
-- internal/web/session.go, acquireAuthenticatedRequest: how many of the open requests are of a kind, and
-- what a request that ends does to these numbers.
use Prim.Native.Char.{Char}
use gpuardian.Base.{
  ℕ, zero, suc, ◌+◌, ◌≤◌, ◌<◌, ◌≡◌, refl, ap, ◌∙◌, String, Bool, true, false, not, ◌&&◌, Option,
  none, some, List, [], ◌∷◌, ◌==◌, string_eq, nat_eq, if◌then◌else◌, arith, count_if, lookup, put,
  delete, lookup-put, lookup-delete, on_if,
}
use gpuardian.Web.Requests.{
  Session, Active, active_of, or_nothing, is_admin, user_key, put_or_delete, Ticket, Gate, finish,
}

-- How many of the open tickets are for a session that passes the test.
abbrev pub open_for : (Session → Bool) → List Ticket → ℕ
open_for test = count_if (λ t. t.is_open && test t.session)

abbrev pub anyone : Session → Bool
anyone session = true

abbrev pub is_of : (Char → Char) → String → Session → Bool
is_of lower user session = user_key lower session == user

abbrev pub is_member : Session → Bool
is_member session = not (is_admin session)

-- The counters agree with the requests that run, and these are within the limits.
pub record Agrees (lower : Char → Char) (g : Gate) : Type 0 where
  pub total : g.active.total ≡ open_for anyone g.tickets
  pub members : g.active.non_admin ≡ open_for is_member g.tickets
  pub users : (user : String) → active_of user g.active ≡ open_for (is_of lower user) g.tickets
  pub total_within : open_for anyone g.tickets ≤ 64
  pub members_within : open_for is_member g.tickets ≤ 56
  pub users_within : (user : String) → open_for (is_of lower user) g.tickets ≤ 8

abbrev pub tally : (Session → Bool) → Option Session → ℕ
tally test none = 0
tally test (some session) = if test session then 1 else 0

pub finish_lem :
    (test : Session → Bool) (n : ℕ) (ts : List Ticket)
    → open_for test (finish n ts).0 + tally test (finish n ts).1 ≡ open_for test ts
unfolding finish
finish_lem test zero [] = omega arith
finish_lem test (suc n) [] = omega arith
finish_lem test zero (t ∷ ts) = ground arith
finish_lem test (suc n) (t ∷ ts) = let rest = finish_lem test n ts in ground (arith, rest)

pub active_of-put :
    (key user : String) (n total members : ℕ) (s : Active)
    → active_of user (record { users = put key n s.users; total = total; non_admin = members })
      ≡ (if key == user then n else active_of user s)
active_of-put key user n total members s =
    ap or_nothing (lookup-put key user n s.users)
    ∙ on_if (λ o. or_nothing o ≡ (if key == user then n else active_of user s)) (key == user)
        (some n) (lookup user s.users) (λ e. rw e refl) (λ e. rw e refl)

pub lookup-put_or_delete :
    (key user : String) (n : ℕ) (s : Active)
    → or_nothing (lookup user (put_or_delete key n s.users))
      ≡ (if key == user then n else active_of user s)
lookup-put_or_delete key user n s =
    on_if (λ m. or_nothing (lookup user m) ≡ (if key == user then n else active_of user s)) (n == 0)
      (delete key s.users) (put key n s.users)
      (λ z. let gone = lookup-delete key user s.users in ground (arith, z, ap or_nothing gone))
      (λ _. active_of-put key user n 0 0 s)

-- What an admission checked, and the counters that it leaves.
pub record Admits (lower : Char → Char) (session : Session) (s s' : Active) : Type 0 where
  pub total_below : s.total < 64
  pub user_below : active_of (user_key lower session) s < 8
  pub members_below : is_admin session ≡ false → s.non_admin < 56
  pub total : s'.total ≡ suc s.total
  pub members : s'.non_admin ≡ (if is_admin session then s.non_admin else suc s.non_admin)
  pub users :
      (user : String)
      → active_of user s' ≡ (
          if user_key lower session == user
          then suc (active_of (user_key lower session) s)
          else active_of user s)
