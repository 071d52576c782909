-- ===== src/Session/Persist/Stages.antt =====
-- packages/runner/src/session/persist.ts: what the operations of a write, one by one, make of the disk.
use soa_harness_impl.Base.{
  suc, String, ◌≡◌, ap, sym, subst, ◌∙◌, refl, Bool, true, false, none, some, [], ◌∷◌, ◌==◌,
  string_key, nat_key, eq_iff, inl, inr, Bool-cases, false≢true, All,
}
use soa_harness_impl.Base.Dict
use soa_harness_impl.Base.Dict.{Dict, get-set_self, get-set_ne, get-delete_ne, get-delete_self}
use soa_harness_impl.Session.Disk.{
  Disk, make_dir, open_truncated, write_file, sync_file, rename, sync_dir, put_file, open_at,
  write_at, sync_at, sync_content, rename_at, do_step, do_steps,
}
use soa_harness_impl.Session.Persist.{Platform, finalize}
use soa_harness_impl.Session.Persist.Safety.{
  All-refiled, IsCrashSafe, IsKept, IsSafe, filling-names-IsSafe, put-IsKept, IsSettled,
}

module _ (d : Disk) (settled : IsSettled d) (tmp final content : String) where
  -- The temporary file, while the write fills it.
  pub record IsFilling (e : Disk) (text : String) (synced : Bool) : Type 0 where
    pub kept : IsKept d settled tmp final content e
    pub names : e.names ≡ Dict.set d.names tmp d.next
    pub earlier : e.earlier ≡ d.names ∷ []
    pub next : e.next ≡ suc d.next
    pub filed : Dict.get e.files d.next ≡ some (record { content = text; synced = synced })

  pub open-IsFilling :
      Dict.get d.names tmp ≡ none → IsFilling (do_step d (open_truncated tmp)) "" false
  unfolding do_step open_at put_file
  open-IsFilling fresh = rw fresh record {
    kept = put-IsKept d settled tmp final content d "" false (λ i other. refl);
    names = refl;
    earlier = ap (◌∷◌ d.names) settled.no_earlier;
    next = refl;
    filed = get-set_self d.files d.next _;
  }

  pub tmp-named :
      (e : Disk) (text : String) (synced : Bool)
      → IsFilling e text synced
      → Dict.get e.names tmp ≡ some d.next
  tmp-named e text synced f =
      ap (λ names. Dict.get names tmp) f.names ∙ get-set_self d.names tmp d.next

  pub put-IsFilling :
      (e : Disk) (before text : String) (was synced : Bool)
      → IsFilling e before was
      → IsFilling (put_file e d.next text synced) text synced
  unfolding put_file
  put-IsFilling e before text was synced f = record {
    kept = put-IsKept d settled tmp final content e text synced f.kept;
    names = f.names;
    earlier = f.earlier;
    next = f.next;
    filed = get-set_self e.files d.next _;
  }

  pub write-IsFilling :
      (e : Disk) (before text : String) (was : Bool)
      → IsFilling e before was
      → IsFilling (do_step e (write_file tmp text)) text false
  unfolding do_step write_at
  write-IsFilling e before text was f =
      rw (tmp-named e before was f) (put-IsFilling e before text was false f)

  pub sync-IsFilling :
      (e : Disk) (text : String) (was : Bool)
      → IsFilling e text was
      → IsFilling (do_step e (sync_file tmp)) text true
  unfolding do_step sync_at sync_content
  sync-IsFilling e text was f =
      rw (tmp-named e text was f, f.filed) (put-IsFilling e text text was true f)

  pub filling-IsCrashSafe :
      (e : Disk) (text : String) (synced : Bool)
      → IsFilling e text synced
      → IsCrashSafe d settled tmp final content e
  filling-IsCrashSafe e text synced f = (
    f.kept,
    subst (IsSafe d settled tmp final content e) (sym f.names)
        (filling-names-IsSafe d settled tmp final content e),
    subst (All (IsSafe d settled tmp final content e)) (sym f.earlier) ((λ name h. inl refl), tt),
  )

  -- The new file in its place: the final name leads to it, and it is complete.
  pub record IsPlaced (e : Disk) : Type 0 where
    pub kept : IsKept d settled tmp final content e
    pub names : e.names ≡ Dict.set (Dict.delete (Dict.set d.names tmp d.next) tmp) final d.next
    pub earlier : All (IsSafe d settled tmp final content e) e.earlier
    pub next : e.next ≡ suc d.next
    pub filed : Dict.get e.files d.next ≡ some (record { content = content; synced = true })

  pub rename-IsPlaced :
      (e : Disk) → IsFilling e content true → IsPlaced (do_step e (rename tmp final))
  unfolding do_step rename_at
  rename-IsPlaced e f = rw (tmp-named e content true f) record {
    kept = f.kept;
    names = ap (λ names. Dict.set (Dict.delete names tmp) final d.next) f.names;
    earlier =
        All-refiled d settled tmp final content e (rename_at e tmp final (some d.next)) f.filed
          (e.names ∷ e.earlier)
          (
            subst (IsSafe d settled tmp final content e) (sym f.names)
                (filling-names-IsSafe d settled tmp final content e),
            subst (All (IsSafe d settled tmp final content e)) (sym f.earlier)
                ((λ name h. inl refl), tt),
          );
    next = f.next;
    filed = f.filed;
  }

  pub placed-names-IsSafe : (e : Disk) → IsPlaced e → IsSafe d settled tmp final content e e.names
  placed-names-IsSafe e f =
      let filling = Dict.set d.names tmp d.next in
      subst (IsSafe d settled tmp final content e) (sym f.names) (λ name h.
        elim (Bool-cases (final == name)) [
          | inl same ↦
              let at_final : final ≡ name = (eq_iff final name).0 same in
              inr (
                sym at_final,
                subst
                    (λ x.
                      Dict.get (Dict.set (Dict.delete filling tmp) final d.next) x ≡ some d.next)
                    at_final (get-set_self (Dict.delete filling tmp) final d.next),
                f.filed,
              )
          | inr other ↦ inl (
              get-set_ne (Dict.delete filling tmp) final name d.next
                (λ same. false≢true (sym other ∙ (eq_iff final name).1 same))
              ∙ get-delete_ne filling tmp name (λ same. h (sym same))
              ∙ get-set_ne d.names tmp name d.next (λ same. h (sym same)))
        ])

  pub placed-IsCrashSafe : (e : Disk) → IsPlaced e → IsCrashSafe d settled tmp final content e
  placed-IsCrashSafe e f = (f.kept, placed-names-IsSafe e f, f.earlier)

  pub sync_dir-IsPlaced : (e : Disk) → IsPlaced e → IsPlaced (do_step e sync_dir)
  unfolding do_step
  sync_dir-IsPlaced e f = record {
    kept = f.kept;
    names = f.names;
    earlier = tt;
    next = f.next;
    filed = f.filed;
  }

  pub final-named : (e : Disk) → IsPlaced e → Dict.get e.names final ≡ some d.next
  final-named e f =
      ap (λ names. Dict.get names final) f.names
      ∙ get-set_self (Dict.delete (Dict.set d.names tmp d.next) tmp) final d.next

  pub put-IsPlaced : (e : Disk) → IsPlaced e → IsPlaced (put_file e d.next content true)
  unfolding put_file
  put-IsPlaced e f = record {
    kept = put-IsKept d settled tmp final content e content true f.kept;
    names = f.names;
    earlier =
        All-refiled d settled tmp final content e (put_file e d.next content true)
          (get-set_self e.files d.next _) e.earlier f.earlier;
    next = f.next;
    filed = get-set_self e.files d.next _;
  }

  pub sync-IsPlaced : (e : Disk) → IsPlaced e → IsPlaced (do_step e (sync_file final))
  unfolding do_step sync_at sync_content
  sync-IsPlaced e f = rw (final-named e f, f.filed) (put-IsPlaced e f)

  pub finalize-IsPlaced :
      (p : Platform) (windows_sequence : Bool) (e : Disk)
      → IsPlaced e
      → IsPlaced (do_step e (finalize p windows_sequence final))
  unfolding finalize
  finalize-IsPlaced p true e f = sync-IsPlaced e f
  finalize-IsPlaced p false e f = sync_dir-IsPlaced e f

  -- What the operations of a write, one by one, make of the disk.
  pub synced_tmp :
      Dict.get d.names tmp ≡ none
      → IsFilling
          (do_steps d (make_dir ∷ open_truncated tmp ∷ write_file tmp content ∷ sync_file tmp ∷ []))
          content
          true
  unfolding do_steps
  synced_tmp fresh =
      sync-IsFilling _ content false (write-IsFilling _ "" content false (open-IsFilling fresh))

  pub write-IsPlaced :
      (p : Platform) (windows_sequence : Bool)
      → Dict.get d.names tmp ≡ none
      → IsPlaced (
          do_steps d (
            make_dir
            ∷ open_truncated tmp
            ∷ write_file tmp content
            ∷ sync_file tmp
            ∷ rename tmp final
            ∷ finalize p windows_sequence final
            ∷ []))
  unfolding do_steps
  write-IsPlaced p windows_sequence fresh =
      finalize-IsPlaced p windows_sequence _ (rename-IsPlaced _ (synced_tmp fresh))
