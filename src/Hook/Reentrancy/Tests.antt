-- ===== src/Hook/Reentrancy/Tests.antt =====
-- Runs of the reentrancy tracker, and inputs at which its theorems apply.
use soa_harness_impl.Base.{string_key, nat_key}
use soa_harness_impl.Base.Dict
use soa_harness_impl.Hook.Reentrancy.{Agree, new, session_for_pid, set_of, holds}

new-Agree : Agree new
unfolding new holds session_for_pid set_of Dict.get
new-Agree session pid = (λ h. cc, λ h. cc)
