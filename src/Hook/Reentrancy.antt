-- ===== src/Hook/Reentrancy.antt =====
-- packages/runner/src/hook/reentrancy.ts: which hook processes are in flight, and for which session.
-- A `Set` of process ids is a `Dict` from each member to itself.
mod Tests
use soa_harness_impl.Base.{
  ℕ, ◌≡◌, ◌↔◌, ◌⊎◌, inl, inr, ◌+◌, ◌≤◌, suc, zero, ◌≢◌, ◌∙◌, sym, ap, refl, Bool, true, false,
  Option, none, some, List, [], ◌∷◌, String, arith, if◌then◌else◌, is_some, is_none, Option-cases,
  Bool-cases, nat_key, string_key, ◌==◌, eq_iff, nat_eq_iff, nat_eq, length,
}
use soa_harness_impl.Base.Dict.{
  Dict, get, set, delete, keys, has, empty, get-set, get-delete, get-set_self, get-set_ne,
  get-delete_self, get-delete_ne, get-nil, get-empty,
}

pub record Tracker : Type 0 where
  pub sessions_by_pid : Dict ℕ String
  pub pids_by_session : Dict String (Dict ℕ ℕ)

pub new : Tracker
new = record { sessions_by_pid = empty; pids_by_session = empty }

set_of : Option (Dict ℕ ℕ) → Dict ℕ ℕ
set_of none = empty
set_of (some pids) = pids

pub begin : Tracker → String → ℕ → Tracker
unfolding set_of
begin t session pid = record {
  sessions_by_pid = set t.sessions_by_pid pid session;
  pids_by_session =
      set t.pids_by_session session (set (set_of (get t.pids_by_session session)) pid pid);
}

-- `set.delete(pid)`, and the set's own removal when that empties it
drop_pid : Dict String (Dict ℕ ℕ) → String → ℕ → Option (Dict ℕ ℕ) → Dict String (Dict ℕ ℕ)
drop_pid by_session session pid none = by_session
drop_pid by_session session pid (some pids) =
    let left = delete pids pid in
    if nat_eq (length (keys left)) 0
    then delete (set by_session session left) session
    else set by_session session left

pub end : Tracker → String → ℕ → Tracker
unfolding drop_pid
end t session pid = record {
  sessions_by_pid = delete t.sessions_by_pid pid;
  pids_by_session = drop_pid t.pids_by_session session pid (get t.pids_by_session session);
}

pub is_in_flight : Tracker → ℕ → Bool
is_in_flight t pid = has t.sessions_by_pid pid

unfoldable pub session_for_pid : Tracker → ℕ → Option String
session_for_pid t pid = get t.sessions_by_pid pid

pub is_empty : Tracker → Bool
is_empty t = nat_eq (length (keys t.sessions_by_pid)) 0

-- Does this session's set hold this process?
pub holds : Tracker → String → ℕ → Bool
unfolding set_of
holds t session pid = has (set_of (get t.pids_by_session session)) pid

-- The two maps agree: a session's set holds a process just when the process is that session's.
abbrev pub Agree : Tracker → Type 0
Agree t =
    (session : String) (pid : ℕ)
    → (holds t session pid ≡ true) ↔ (session_for_pid t pid ≡ some session)

holds-begin :
    (t : Tracker) (s r : String) (p q : ℕ)
    → holds (begin t s p) r q
      ≡ (if s == r then (if p == q then true else holds t r q) else holds t r q)
unfolding holds begin set_of
holds-begin t s r p q = ground (
  arith,
  eq_iff s r,
  nat_eq_iff p q,
  get-set t.pids_by_session s r (set (set_of (get t.pids_by_session s)) p p),
  get-set (set_of (get t.pids_by_session s)) p q p,
)

session_for_pid-begin :
    (t : Tracker) (s : String) (p q : ℕ)
    → session_for_pid (begin t s p) q ≡ (if p == q then some s else session_for_pid t q)
unfolding session_for_pid begin
session_for_pid-begin t s p q = get-set t.sessions_by_pid p q s

session_for_pid-end :
    (t : Tracker) (s : String) (p q : ℕ)
    → session_for_pid (end t s p) q ≡ (if p == q then none else session_for_pid t q)
unfolding session_for_pid end
session_for_pid-end t s p q = get-delete t.sessions_by_pid p q

-- A hook that starts while its process id is not in flight keeps the two maps in agreement.
pub begin-Agree :
    (t : Tracker) (s : String) (p : ℕ) → Agree t → session_for_pid t p ≡ none → Agree (begin t s p)
begin-Agree t s p a n r q =
    ground (
      arith,
      eq_iff s r,
      nat_eq_iff p q,
      a r q,
      holds-begin t s r p q,
      session_for_pid-begin t s p q,
    )

get-drop_pid :
    (by_session : Dict String (Dict ℕ ℕ)) (s r : String) (p : ℕ) (pids : Dict ℕ ℕ)
    → let left = delete pids p in
      get (drop_pid by_session s p (some pids)) r ≡ (
        if s == r
        then (if nat_eq (length (keys left)) 0 then none else some left)
        else get by_session r)
unfolding drop_pid
get-drop_pid by_session s r p pids = ground (
  arith,
  eq_iff s r,
  get-delete (set by_session s (delete pids p)) s r,
  get-set by_session s r (delete pids p),
)

holds-dropped :
    (left : Dict ℕ ℕ) (q : ℕ)
    → has (set_of (if nat_eq (length (keys left)) 0 then none else some left)) q ≡ has left q
unfolding set_of
holds-dropped left q = ground (arith, get-nil left q, get-empty {V = ℕ} q)

holds-end :
    (t : Tracker) (s r : String) (p q : ℕ)
    → holds (end t s p) r q
      ≡ (if s == r then (if p == q then false else holds t r q) else holds t r q)
unfolding holds end set_of drop_pid
holds-end t s r p q = go (get t.pids_by_session s) refl
  where
    go :
        (pids : Option (Dict ℕ ℕ))
        → get t.pids_by_session s ≡ pids
        → holds (end t s p) r q
          ≡ (if s == r then (if p == q then false else holds t r q) else holds t r q)
    go none n = ground (arith, eq_iff s r, nat_eq_iff p q, n, get-empty {V = ℕ} q)
    go (some pids) h = ground (
      arith,
      eq_iff s r,
      nat_eq_iff p q,
      h,
      get-drop_pid t.pids_by_session s r p pids,
      holds-dropped (delete pids p) q,
      get-delete pids p q,
    )

-- A hook that ends, for the session that it was started for or with a process id that is not in
-- flight, keeps the two maps in agreement.
pub end-Agree :
    (t : Tracker) (s : String) (p : ℕ)
    → Agree t
    → (session_for_pid t p ≡ none) ⊎ (session_for_pid t p ≡ some s)
    → Agree (end t s p)
end-Agree t s p a n r q =
    ground
      (arith, eq_iff s r, nat_eq_iff p q, a r q, holds-end t s r p q, session_for_pid-end t s p q)
