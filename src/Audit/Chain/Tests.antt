-- ===== src/Audit/Chain/Tests.antt =====
-- Inputs at which the theorems of the chain apply.
use soa_harness_impl.Base.{String, none, [], ◌∷◌, string_key}
use soa_harness_impl.Base.Dict.{Dict}
use soa_harness_impl.Audit.{Value, str}
use soa_harness_impl.Audit.Chain.{AuditChain, new}
use soa_harness_impl.Audit.Chain.Integrity.{Linked, append_all, append_all-new-Linked}
use soa_harness_impl.Audit.Chain.Trees.{root, trees, Tree}
use soa_harness_impl.Audit.Chain.Tampering.{SameLog, append_all-SameLog}

abbrev body : Dict String Value
body = record { entries = ("kind", str "dispatch") ∷ [] }

abbrev log : AuditChain Tree
log = append_all trees (new trees none) ((body, 1) ∷ (body, 2) ∷ [])

append_all-new-Linked_example : Linked trees root log.records log.tail
append_all-new-Linked_example = append_all-new-Linked trees none ((body, 1) ∷ (body, 2) ∷ [])

append_all-SameLog_example : SameLog trees log.records log.records
append_all-SameLog_example =
    append_all-SameLog trees none ((body, 1) ∷ (body, 2) ∷ []) log.records
      (append_all-new-Linked trees none ((body, 1) ∷ (body, 2) ∷ []))
