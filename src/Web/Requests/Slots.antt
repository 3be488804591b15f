-- ===== src/Web/Requests/Slots.antt =====
-- internal/web/session.go, acquireAuthenticatedRequest: the counters count the requests that run, and
-- administrators keep their share.
use Prim.Native.Char.{Char}
use gpuardian.Base.{
  suc, ◌+◌, ◌-◌, ◌≤◌, ◌<◌, ◌≡◌, ◌≢◌, refl, ap, sym, ◌∙◌, String, Bool, true, false, Option, none,
  some, List, [], ◌∷◌, ◌==◌, ==→eq, string_eq, nat_eq, if◌then◌else◌, arith, Bool-cases, inl, inr,
  some_injective,
}
use gpuardian.Web.Requests.{
  Session, Active, active_of, is_admin, user_key, acquire, release, Ticket, Gate, finish, or_same,
  Step, enters, refused, ends, closed_gate, Reach, start, next,
}
use gpuardian.Web.Requests.Counts.{
  open_for, anyone, is_of, is_member, Agrees, tally, finish_lem, active_of-put,
  lookup-put_or_delete, Admits,
}

two_guards :
    {A : Type 0} (a b : Bool) (x y : A)
    → (if a then none else if b then none else some x) ≡ some y
    → (a ≡ false) × (b ≡ false) × (x ≡ y)
two_guards true b x y h = cc
two_guards false true x y h = cc
two_guards false false x y h = (refl, refl, some_injective h)

acquire-Admits :
    (lower : Char → Char) (session : Session) (s s' : Active)
    → acquire lower session s ≡ some s'
    → Admits lower session s s'
unfolding acquire
acquire-Admits lower session s s' h =
    let (room, member, same) = two_guards _ _ _ s' h in
    record {
      total_below = ground (arith, room);
      user_below = ground (arith, room);
      members_below = λ e. ground (arith, member, e);
      total = sym (ap (λ t. t.total) same);
      members = sym (ap (λ t. t.non_admin) same);
      users = λ user.
          sym (ap (active_of user) same) ∙ active_of-put (user_key lower session) user _ 0 0 s;
    }

one_more :
    (lower : Char → Char) (g : Gate) (session : Session) (user : String)
    → Agrees lower g
    → (if user_key lower session == user
        then suc (active_of (user_key lower session) g.active)
        else active_of user g.active)
      ≡ open_for (is_of lower user) (record { session = session; is_open = true } ∷ g.tickets)
one_more lower g session user h = elim (Bool-cases (user_key lower session == user)) [
  | inl e ↦
      let same = ap (λ k. active_of k g.active) (==→eq (user_key lower session) user e) in
      rw e (ap (λ n. suc n) (same ∙ h.users user))
  | inr e ↦ rw e (h.users user)
]

within_user :
    (lower : Char → Char) (g : Gate) (session : Session) (user : String)
    → active_of (user_key lower session) g.active < 8
    → Agrees lower g
    → open_for (is_of lower user) (record { session = session; is_open = true } ∷ g.tickets) ≤ 8
within_user lower g session user below h = elim (Bool-cases (user_key lower session == user)) [
  | inl e ↦
      let same = ap (λ k. active_of k g.active) (==→eq (user_key lower session) user e) in
      let own = h.users user in rw e (omega (arith, below, same, own))
  | inr e ↦ rw e (h.users_within user)
]

start-Agrees : (lower : Char → Char) → Agrees lower closed_gate
start-Agrees lower = record {
  total = refl;
  members = refl;
  users = λ u. refl;
  total_within = omega arith;
  members_within = omega arith;
  users_within = λ u. omega arith;
}

enters-Agrees :
    (lower : Char → Char) (g : Gate) (session : Session) (s : Active)
    → Admits lower session g.active s
    → Agrees lower g
    → Agrees lower
        (record { active = s; tickets = record { session = session; is_open = true } ∷ g.tickets })
enters-Agrees lower g session s a h = record {
  total = ground (arith, a.total, h.total);
  members = ground (arith, a.members, h.members);
  users = λ user. a.users user ∙ one_more lower g session user h;
  total_within = ground (arith, a.total_below, h.total);
  members_within = ground (arith, a.members_below, h.members, h.members_within);
  users_within = λ user. within_user lower g session user a.user_below h;
}

release-Agrees :
    (lower : Char → Char) (g : Gate) (session : Session) (ts : List Ticket)
    → ((test : Session → Bool)
        → open_for test ts + (if test session then 1 else 0) ≡ open_for test g.tickets)
    → Agrees lower g
    → Agrees lower (record { active = release lower session g.active; tickets = ts })
unfolding release
release-Agrees lower g session ts less h =
    let all_less = less anyone in
    let member_less = less is_member in
    record {
      total = omega (arith, all_less, h.total);
      members = ground (arith, member_less, h.members);
      users = λ user.
          lookup-put_or_delete (user_key lower session) user
            (active_of (user_key lower session) g.active - 1) g.active
          ∙ one_less user;
      total_within = omega (arith, all_less, h.total_within);
      members_within = ground (arith, member_less, h.members_within);
      users_within = λ user.
          let user_less = less (is_of lower user) in
          let old = h.users_within user in ground (arith, user_less, old);
    }
  where
    one_less :
        (user : String)
        → (if user_key lower session == user
            then active_of (user_key lower session) g.active - 1
            else active_of user g.active)
          ≡ open_for (is_of lower user) ts
    one_less user =
        let user_less = less (is_of lower user) in
        let old = h.users user in
        elim (Bool-cases (user_key lower session == user)) [
          | inl e ↦
              let same = ap (λ k. active_of k g.active) (==→eq (user_key lower session) user e) in
              rw e (ground (arith, same, old, user_less, e))
          | inr e ↦ rw e (ground (arith, old, user_less, e))
        ]

ends-Agrees :
    (lower : Char → Char) (g : Gate) (ts : List Ticket) (closed : Option Session)
    → ((test : Session → Bool) → open_for test ts + tally test closed ≡ open_for test g.tickets)
    → Agrees lower g
    → Agrees lower (record { active = or_same lower closed g.active; tickets = ts })
ends-Agrees lower g ts (some session) less h = release-Agrees lower g session ts less h
ends-Agrees lower g ts none less h =
    let all_same = less anyone in
    let member_same = less is_member in
    record {
      total = omega (arith, all_same, h.total);
      members = omega (arith, member_same, h.members);
      users = λ user. let same = less (is_of lower user) in omega (arith, same, h.users user);
      total_within = omega (arith, all_same, h.total_within);
      members_within = omega (arith, member_same, h.members_within);
      users_within =
          λ user. let same = less (is_of lower user) in omega (arith, same, h.users_within user);
    }

Step-Agrees : (lower : Char → Char) (g h : Gate) → Step lower g h → Agrees lower g → Agrees lower h
Step-Agrees lower _ _ (enters g session s e) a =
    enters-Agrees lower g session s (acquire-Admits lower session g.active s e) a
Step-Agrees lower _ _ (refused g session e) a = a
Step-Agrees lower _ _ (ends g n) a =
    ends-Agrees lower g _ (finish n g.tickets).1 (λ test. finish_lem test n g.tickets) a

-- However the requests come and end, and however often a release is called: the counters agree with
-- the requests that run. At most 64 run, at most 56 of them by users who are no administrators, and
-- at most 8 by one user.
pub Reach-Agrees : (lower : Char → Char) (g : Gate) → Reach lower g → Agrees lower g
Reach-Agrees lower g start = start-Agrees lower
Reach-Agrees lower g (next r st) = Step-Agrees lower _ g st (Reach-Agrees lower _ r)

members_and_admins :
    (ts : List Ticket) → open_for anyone ts ≡ open_for is_member ts + open_for is_admin ts
members_and_admins [] = omega arith
members_and_admins (t ∷ ts) = ground (arith, members_and_admins ts)

-- An administrator is let in, whatever the other users do, as long as fewer than 8 requests of
-- administrators run and fewer than 8 of the same user.
pub acquire_admits_admin :
    (lower : Char → Char) (g : Gate) (session : Session)
    → Reach lower g
    → is_admin session ≡ true
    → open_for is_admin g.tickets < 8
    → open_for (is_of lower (user_key lower session)) g.tickets < 8
    → acquire lower session g.active ≢ none
unfolding acquire
acquire_admits_admin lower g session r admin few own_few no_slot =
    let a = Reach-Agrees lower g r in
    let split = members_and_admins g.tickets in
    let own = a.users (user_key lower session) in
    ground (arith, a.total, a.members_within, split, own, own_few, few, admin, no_slot)
