-- ===== src/Registry/Loading.antt =====
-- Which names a loaded Tool Registry resolves.
use soa_harness_impl.Base.{
  String, ◌≡◌, ◌∙◌, ap, Bool, not, ◌&&◌, ◌||◌, refl, none, List, [], ◌∷◌, map, arith, ◌==◌,
  string_key, eq_iff, includes, is_some,
}
use soa_harness_impl.Base.Result.{Result, ok, err, bind-eq-ok, ok-injective}
use soa_harness_impl.Base.Dict
use soa_harness_impl.Base.Dict.{get-set}
use soa_harness_impl.Registry.{
  RawTool, ToolRegistry, RegistryError, no_tools, insert_tool, insert_all, build, lookup, allowed,
  tools, load_tool_registry, as_load_error,
}
use soa_harness_impl.Registry.Laws.{insert_tool-eq-ok, IsSound, build-IsSound}

abbrev pub raw_names : List RawTool → List String
raw_names = map (λ t. t.name)

insert_tool-names :
    (reg reg' : ToolRegistry) (t : RawTool) (n : String)
    → insert_tool reg t ≡ ok reg'
    → is_some (lookup reg' n) ≡ (t.name == n || is_some (lookup reg n))
unfolding lookup
insert_tool-names reg reg' t n h =
    let (e, p, fresh, a, q) = insert_tool-eq-ok reg reg' t h in
    rw q (ground (arith, get-set reg.by_name t.name n e))

or_regroup : (a b c d : Bool) → a ≡ (b || c) → (a || d) ≡ (c || (b || d))
or_regroup a b c d h = ground arith

insert_all-names :
    (reg reg' : ToolRegistry) (ts : List RawTool) (n : String)
    → insert_all reg ts ≡ ok reg'
    → is_some (lookup reg' n) ≡ (is_some (lookup reg n) || includes (raw_names ts) n)
unfolding insert_all
insert_all-names reg reg' [] n h = ground (arith, ap (λ r. lookup r n) (ok-injective h))
insert_all-names reg reg' (t ∷ ts) n h =
    let (next, p, q) = bind-eq-ok (insert_tool reg t) _ h in
    insert_all-names next reg' ts n q ∙ or_regroup _ _ _ _ (insert_tool-names reg next t n p)

allowed-names :
    (denied : List String) (ts : List RawTool) (n : String)
    → includes (raw_names (allowed denied ts)) n
      ≡ (includes (raw_names ts) n && not (includes denied n))
unfolding allowed
allowed-names denied [] n = refl
allowed-names denied (t ∷ ts) n =
    ground
      (arith, allowed-names denied ts n, eq_iff t.name n, ap (includes denied) {x = t.name} {y = n})

no_tools-names : (n : String) → lookup no_tools n ≡ none
unfolding lookup Dict.get
no_tools-names n = refl

loaded-names :
    (ts : List RawTool) (denied : List String) (reg : ToolRegistry) (n : String)
    → build (allowed denied ts) ≡ ok reg
    → is_some (lookup reg n) ≡ (includes (raw_names ts) n && not (includes denied n))
unfolding build
loaded-names ts denied reg n h = ground (
  arith,
  insert_all-names no_tools reg (allowed denied ts) n h,
  no_tools-names n,
  allowed-names denied ts n,
)

as_load_error-eq-ok :
    (r : Result RegistryError ToolRegistry) (reg : ToolRegistry)
    → as_load_error r ≡ ok reg
    → r ≡ ok reg
unfolding as_load_error
as_load_error-eq-ok (ok x) reg h = ap ok (ok-injective h)
as_load_error-eq-ok (err e) reg h = cc

-- A registry loaded from a tools file under a deny-list resolves a name exactly when a row of the
-- file has it and the deny-list has not, and every entry that it resolves is soundly classified.
pub load_tool_registry_lem :
    (ts : List RawTool) (denied : List String) (reg : ToolRegistry) (n : String)
    → load_tool_registry (tools ts) denied ≡ ok reg
    → IsSound reg
      × (is_some (lookup reg n) ≡ (includes (raw_names ts) n && not (includes denied n)))
unfolding load_tool_registry
load_tool_registry_lem ts denied reg n h =
    let built = as_load_error-eq-ok (build (allowed denied ts)) reg h in
    (build-IsSound (allowed denied ts) reg built, loaded-names ts denied reg n built)
