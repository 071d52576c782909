-- ===== src/Session/Persist/Crashes.antt =====
-- packages/runner/src/session/persist.ts: crashes of a write, and after it.
use soa_harness_impl.Base.{
  ℕ, zero, suc, ◌<◌, String, ◌≡◌, ◌≢◌, sym, subst, refl, Bool, true, false, none, some, [], ◌∷◌,
  take, string_key, nat_key, inl, All,
}
use soa_harness_impl.Base.Dict
use soa_harness_impl.Base.Dict.{Dict, get-set_self, get-delete_ne}
use soa_harness_impl.Session.Disk.{
  Disk, make_dir, open_truncated, write_file, sync_file, rename, do_steps, Crash, after_crash,
}
use soa_harness_impl.Session.Resume.{PersistedSession}
use soa_harness_impl.Session.Persist.{Platform, finalize, write_and_fsync_tmp, write_steps}
use soa_harness_impl.Session.Persist.Safety.{
  IsCrashSafe, IsSafe, safe-IsAtomic, IsSettled, IsAtomic,
}
use soa_harness_impl.Session.Persist.Stages.{
  filling-IsCrashSafe, open-IsFilling, placed-IsCrashSafe, rename-IsPlaced, synced_tmp,
  write-IsFilling, write-IsPlaced,
}

module _ (d : Disk) (settled : IsSettled d) (tmp final content : String) where
  unwritten-IsCrashSafe : IsCrashSafe d settled tmp final content d
  unwritten-IsCrashSafe = (
    λ i other. refl,
    λ name h. inl refl,
    subst (All (IsSafe d settled tmp final content d)) (sym settled.no_earlier) tt,
  )

  no_more : (e : Disk) (n : ℕ) → do_steps e (take n []) ≡ e
  unfolding do_steps
  no_more e zero = refl
  no_more e (suc n) = refl

  write-IsCrashSafe :
      (p : Platform) (windows_sequence : Bool)
      → Dict.get d.names tmp ≡ none
      → (n : ℕ)
      → IsCrashSafe d settled tmp final content (
          do_steps d (
            take n (
              make_dir
              ∷ open_truncated tmp
              ∷ write_file tmp content
              ∷ sync_file tmp
              ∷ rename tmp final
              ∷ finalize p windows_sequence final
              ∷ [])))
  unfolding do_steps
  write-IsCrashSafe p windows_sequence fresh zero = unwritten-IsCrashSafe
  write-IsCrashSafe p windows_sequence fresh (suc zero) = unwritten-IsCrashSafe
  write-IsCrashSafe p windows_sequence fresh (suc (suc zero)) =
      filling-IsCrashSafe d settled tmp final content _ "" false
        (open-IsFilling d settled tmp final content fresh)
  write-IsCrashSafe p windows_sequence fresh (suc (suc (suc zero))) =
      filling-IsCrashSafe d settled tmp final content _ content false (
        write-IsFilling d settled tmp final content _ "" content false
          (open-IsFilling d settled tmp final content fresh))
  write-IsCrashSafe p windows_sequence fresh (suc (suc (suc (suc zero)))) =
      filling-IsCrashSafe d settled tmp final content _ content true
        (synced_tmp d settled tmp final content fresh)
  write-IsCrashSafe p windows_sequence fresh (suc (suc (suc (suc (suc zero))))) =
      placed-IsCrashSafe d settled tmp final content _ (
        rename-IsPlaced d settled tmp final content _
          (synced_tmp d settled tmp final content fresh))
  write-IsCrashSafe p windows_sequence fresh (suc (suc (suc (suc (suc (suc n)))))) =
      subst (IsCrashSafe d settled tmp final content) (sym (no_more _ n)) (
        placed-IsCrashSafe d settled tmp final content _
          (write-IsPlaced d settled tmp final content p windows_sequence fresh))

  -- What a name of a disk leads to is there and complete.
  abbrev IsFiled : Disk → ℕ → Type 0
  IsFiled e i =
      (i < e.next)
      × (text : String) × (Dict.get e.files i ≡ some (record { content = text; synced = true }))

-- A write of a session, from a disk that is settled and without the temporary file, that a crash cuts
-- off after any number of its operations: whatever the crash leaves in files that are not
-- synchronized, and whichever directory since the last synchronization it brings back, each file but
-- the temporary one is as it was before the write, or it is the file of the session, and complete.
pub crashed-IsAtomic :
    (p : Platform) (windows_sequence : Bool) (d : Disk) (file : PersistedSession) (suffix : String)
    → IsSettled d
    → Dict.get d.names (p.tmp_path (p.path_for file.session_id) suffix) ≡ none
    → (n : ℕ) (crash : Crash) (name : String)
    → name ≢ p.tmp_path (p.path_for file.session_id) suffix
    → IsAtomic d
        (after_crash (do_steps d (take n (write_steps p windows_sequence file suffix))) crash name)
        (p.path_for file.session_id)
        (p.stringify file)
        name
unfolding write_steps write_and_fsync_tmp
crashed-IsAtomic p windows_sequence d file suffix settled fresh n crash name h =
    let final = p.path_for file.session_id in
    let tmp = p.tmp_path final suffix in
    safe-IsAtomic d settled tmp final (p.stringify file) _
      (write-IsCrashSafe d settled tmp final (p.stringify file) p windows_sequence fresh n) crash
      name h
