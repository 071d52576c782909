-- ===== src/Registry/Laws.antt =====
-- What the constructor and `addDynamic` of the Tool Registry guarantee of every entry.
use soa_harness_impl.Base.{
  ℕ, ◌≤◌, String, ◌≡◌, ◌⊎◌, ◌↔◌, inl, inr, refl, subst, Bool, true, false, none, some, List, [],
  ◌∷◌, arith, ◌==◌, string_key, eq_iff, Bool-cases, Option-cases,
}
use soa_harness_impl.Base.Result.{ok, bind-eq-ok, ok-injective}
use soa_harness_impl.Base.Dict
use soa_harness_impl.Base.Dict.{get-set, get-set_self}
use soa_harness_impl.Registry.{
  destructive, prompt, RawTool, ToolEntry, ToolRegistry, no_tools, check_enums, classification_ok,
  assert_idempotency_classification, insert_tool, insert_all, build, lookup, add_dynamic,
  mcp_dynamic, min_idempotency_retention_seconds,
}

-- A declared retention below the minimum comes only with Destructive and Prompt.
pub record IsAdequate (t : ToolEntry) : Type 0 where
  pub adequate :
      (r : ℕ)
      → t.idempotency_retention_seconds ≡ some r
      → (min_idempotency_retention_seconds ≤ r)
        ⊎ ((t.risk_class ≡ destructive) × (t.default_control ≡ prompt))

-- Every resolvable tool stands under its own name and is adequately classified.
pub record IsSound (reg : ToolRegistry) : Type 0 where
  pub at_name : (n : String) (t : ToolEntry) → lookup reg n ≡ some t → (t.name ≡ n) × IsAdequate t

classification_ok-IsAdequate :
    (t : ToolEntry) → classification_ok t t.idempotency_retention_seconds ≡ true → IsAdequate t
unfolding classification_ok
classification_ok-IsAdequate t h = record { adequate = λ r e. ground arith }

stamped-IsAdequate :
    (t u : ToolEntry)
    → t.idempotency_retention_seconds ≡ u.idempotency_retention_seconds
    → t.risk_class ≡ u.risk_class
    → t.default_control ≡ u.default_control
    → IsAdequate t
    → IsAdequate u
stamped-IsAdequate t u p q r h = record { adequate = λ s e. ground (arith, h.adequate s) }

check_enums-name : (t : RawTool) (e : ToolEntry) → check_enums t ≡ ok e → e.name ≡ t.name
unfolding check_enums
check_enums-name t e h = ground arith

-- What a round that does not throw has done.
pub insert_tool-eq-ok :
    (reg reg' : ToolRegistry) (t : RawTool)
    → insert_tool reg t ≡ ok reg'
    → (e : ToolEntry) × (check_enums t ≡ ok e)
      × (lookup reg t.name ≡ none)
      × IsAdequate e
      × (reg' ≡ record { by_name = Dict.set reg.by_name t.name e })
unfolding insert_tool lookup assert_idempotency_classification
insert_tool-eq-ok reg reg' t h =
    let (e, p, q) = bind-eq-ok (check_enums t) _ h in
    (e, p, ground arith, classification_ok-IsAdequate e (ground arith), ground arith)

set-IsSound :
    (reg : ToolRegistry) (n : String) (e : ToolEntry)
    → e.name ≡ n
    → IsAdequate e
    → IsSound reg
    → IsSound (record { by_name = Dict.set reg.by_name n e })
unfolding lookup
set-IsSound reg n e p a s = record {
  at_name = λ j t h. elim (Bool-cases (n == j)) [
    | inl same ↦
        let q : e ≡ t = ground (arith, get-set reg.by_name n j e) in
        let r : n ≡ j = (eq_iff n j).0 same in (cc, rw (← q) a)
    | inr other ↦ s.at_name j t (ground (arith, get-set reg.by_name n j e))
  ];
}

insert_tool-IsSound :
    (reg reg' : ToolRegistry) (t : RawTool)
    → insert_tool reg t ≡ ok reg'
    → IsSound reg
    → IsSound reg'
insert_tool-IsSound reg reg' t h s =
    let (e, p, fresh, a, q) = insert_tool-eq-ok reg reg' t h in
    rw q (set-IsSound reg t.name e (check_enums-name t e p) a s)

insert_all-IsSound :
    (reg reg' : ToolRegistry) (ts : List RawTool)
    → insert_all reg ts ≡ ok reg'
    → IsSound reg
    → IsSound reg'
unfolding insert_all
insert_all-IsSound reg reg' [] h s = subst IsSound (ok-injective h) s
insert_all-IsSound reg reg' (t ∷ ts) h s =
    let (next, p, q) = bind-eq-ok (insert_tool reg t) _ h in
    insert_all-IsSound next reg' ts q (insert_tool-IsSound reg next t p s)

no_tools-IsSound : IsSound no_tools
unfolding lookup Dict.get
no_tools-IsSound = record { at_name = λ n t h. cc }

-- A registry that the constructor built resolves a name only to an entry of that name, and an
-- entry that declares less than 3600 seconds of idempotency retention is Destructive and Prompt.
pub build-IsSound : (ts : List RawTool) (reg : ToolRegistry) → build ts ≡ ok reg → IsSound reg
unfolding build
build-IsSound ts reg h = insert_all-IsSound no_tools reg ts h no_tools-IsSound

abbrev stamp : ToolEntry → ℕ → ToolEntry
stamp e now = record e { registered_at = some now; registration_source = some mcp_dynamic }

-- What a dynamic add of a new name that does not throw has done.
add_dynamic-new :
    (reg reg' : ToolRegistry) (t : RawTool) (now : ℕ) (added : Bool)
    → add_dynamic reg t now ≡ ok (reg', added)
    → lookup reg t.name ≡ none
    → (e : ToolEntry) × (check_enums t ≡ ok e)
      × (added ≡ true)
      × IsAdequate e
      × (reg' ≡ record { by_name = Dict.set reg.by_name t.name (stamp e now) })
unfolding add_dynamic lookup assert_idempotency_classification
add_dynamic-new reg reg' t now added h fresh =
    let (e, p, q) = bind-eq-ok (check_enums t) _ h in
    (e, p, ground arith, classification_ok-IsAdequate e (ground arith), ground arith)

add_dynamic-known :
    (reg reg' : ToolRegistry) (t : RawTool) (old : ToolEntry) (now : ℕ) (added : Bool)
    → add_dynamic reg t now ≡ ok (reg', added)
    → lookup reg t.name ≡ some old
    → (added ≡ false) × (reg' ≡ reg)
unfolding add_dynamic lookup
add_dynamic-known reg reg' t old now added h known =
    let (e, p, q) = bind-eq-ok (check_enums t) _ h in (ground arith, ground arith)

stamp-IsSound :
    (reg : ToolRegistry) (n : String) (now : ℕ) (e : ToolEntry)
    → e.name ≡ n
    → IsAdequate e
    → IsSound reg
    → IsSound (record { by_name = Dict.set reg.by_name n (stamp e now) })
stamp-IsSound reg n now e p a s =
    set-IsSound reg n (stamp e now) p (stamped-IsAdequate e (stamp e now) refl refl refl a) s

set-keeps :
    (reg : ToolRegistry) (k n : String) (e x : ToolEntry)
    → lookup reg k ≡ none
    → lookup reg n ≡ some x
    → lookup (record { by_name = Dict.set reg.by_name k e }) n ≡ some x
unfolding lookup
set-keeps reg k n e x fresh known = ground (arith, get-set reg.by_name k n e, eq_iff k n)

pub lookup-set_self :
    (reg : ToolRegistry) (k : String) (e : ToolEntry)
    → lookup (record { by_name = Dict.set reg.by_name k e }) k ≡ some e
unfolding lookup
lookup-set_self reg k e = get-set_self reg.by_name k e

add_dynamic_lem :
    (reg reg' : ToolRegistry) (t : RawTool) (now : ℕ) (added : Bool)
    → IsSound reg
    → add_dynamic reg t now ≡ ok (reg', added)
    → IsSound reg'
      × ((n : String) (e : ToolEntry) → lookup reg n ≡ some e → lookup reg' n ≡ some e)
      × ((added ≡ true) ↔ (lookup reg t.name ≡ none))
      × ((e : ToolEntry) × (lookup reg' t.name ≡ some e)
          × (added ≡ true → e.registered_at ≡ some now))
add_dynamic_lem reg reg' t now added s h = elim (Option-cases (lookup reg t.name)) [
  | inl fresh ↦
      let (e, p, b, a, q) = add_dynamic-new reg reg' t now added h fresh in
      (
        rw q (stamp-IsSound reg t.name now e (check_enums-name t e p) a s),
        λ n x k. rw q (set-keeps reg t.name n (stamp e now) x fresh k),
        (λ _. fresh, λ _. b),
        (stamp e now, rw q (lookup-set_self reg t.name (stamp e now)), λ _. refl),
      )
  | inr (old, known) ↦
      let (p, q) = add_dynamic-known reg reg' t old now added h known in
      (rw q s, λ n x k. rw q k, (λ b. cc, λ b. cc), (old, rw q known, λ b. cc))
]

-- A dynamic add of any tool keeps the registry sound, resolves every name that was there to the entry
-- that was there, and reports `true` exactly when the tool's own name was not there.
pub add_dynamic-keeps :
    (reg reg' : ToolRegistry) (t : RawTool) (now : ℕ) (added : Bool) (n : String) (e : ToolEntry)
    → IsSound reg
    → add_dynamic reg t now ≡ ok (reg', added)
    → lookup reg n ≡ some e
    → IsSound reg' × (lookup reg' n ≡ some e) × ((added ≡ true) ↔ (lookup reg t.name ≡ none))
add_dynamic-keeps reg reg' t now added n e s h k =
    let (sound, keeps, fresh, _) = add_dynamic_lem reg reg' t now added s h in
    (sound, keeps n e k, fresh)
