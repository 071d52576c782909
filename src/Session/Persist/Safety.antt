-- ===== src/Session/Persist/Safety.antt =====
-- packages/runner/src/session/persist.ts: disks that a crash leaves as they were before a write, or with
-- the new file complete.
use soa_harness_impl.Base.{
  ℕ, zero, suc, ◌<◌, String, ◌≡◌, ◌≢◌, ◌⊎◌, ap, sym, ◌∙◌, refl, Bool, true, Option, some, List, [],
  ◌∷◌, string_key, nat_key, arith, inl, inr, Option-cases, All,
}
use soa_harness_impl.Base.Dict
use soa_harness_impl.Base.Dict.{Dict, get-set_self, get-set_ne, get-delete_ne, get-delete_self}
use soa_harness_impl.Session.Disk.{
  Directory, Disk, put_file, content_of, file_at, read, Crash, directory, left_in, left_at,
  after_crash,
}

-- Before a write: no crash can bring another directory back, and every name leads to a file that
-- is there, numbered below the next one, and synchronized.
pub record IsSettled (d : Disk) : Type 0 where
  pub no_earlier : d.earlier ≡ []
  pub filed :
      (name : String) (i : ℕ)
      → Dict.get d.names name ≡ some i
      → (i < d.next)
        × (content : String) × (Dict.get d.files i
            ≡ some (record { content = content; synced = true }))

pub only_directory : (n : ℕ) (names : Directory) → directory n names [] ≡ names
unfolding directory
only_directory zero names = refl
only_directory (suc n) names = refl

-- The file is as it was, or it is the one that is written, complete.
abbrev pub IsAtomic : Disk → Option String → (final content name : String) → Type 0
IsAtomic d found final content name =
    (found ≡ read d name) ⊎ ((name ≡ final) × (found ≡ some content))

module _ (d : Disk) (settled : IsSettled d) (tmp final content : String) where
  -- The other files are as they were.
  abbrev pub IsKept : Disk → Type 0
  IsKept e = (i : ℕ) → i ≢ d.next → Dict.get e.files i ≡ Dict.get d.files i

  -- A directory as a crash may bring it back: but for the temporary name it is the one before the
  -- write, or leads from the final name to the new file, which is complete.
  abbrev pub IsSafe : Disk → Directory → Type 0
  IsSafe e names =
      (name : String)
      → name ≢ tmp
      → (Dict.get names name ≡ Dict.get d.names name)
        ⊎ ((name ≡ final)
            × (Dict.get names name ≡ some d.next)
            × (Dict.get e.files d.next ≡ some (record { content = content; synced = true })))

  abbrev pub IsCrashSafe : Disk → Type 0
  IsCrashSafe e = IsKept e × IsSafe e e.names × All (IsSafe e) e.earlier

  pub directory-IsSafe :
      (e : Disk) (n : ℕ) (names : Directory) (earlier : List Directory)
      → IsSafe e names
      → All (IsSafe e) earlier
      → IsSafe e (directory n names earlier)
  unfolding directory
  directory-IsSafe e zero names earlier h hs = h
  directory-IsSafe e (suc n) names [] h hs = h
  directory-IsSafe e (suc n) names (older ∷ earlier) h hs =
      directory-IsSafe e n older earlier hs.0 hs.1

  pub old-left :
      (e : Disk) (left : ℕ → String) (name : String)
      → IsKept e
      → left_at left e.files (Dict.get d.names name) ≡ read d name
  unfolding left_at left_in read file_at content_of
  old-left e left name kept = elim (Option-cases (Dict.get d.names name)) [
    | inl n ↦ rw n refl
    | inr (i, n) ↦
        let (below, text, filed) = settled.filed name i n in
        rw (n, kept i (λ same. ground (arith, below, same)), filed) refl
  ]

  pub safe-IsAtomic :
      (e : Disk)
      → IsCrashSafe e
      → (crash : Crash) (name : String) → name ≢ tmp
      → IsAtomic d (after_crash e crash name) final content name
  unfolding after_crash left_at left_in
  safe-IsAtomic e (kept, now, before) crash name h =
      elim (directory-IsSafe e crash.back e.names e.earlier now before name h) [
        | inl same ↦ inl (ap (left_at crash.left e.files) same ∙ old-left e crash.left name kept)
        | inr (at_final, named, filed) ↦ inr (at_final, rw (named, filed) refl)
      ]

  pub put-IsKept :
      (e : Disk) (text : String) (synced : Bool) → IsKept e → IsKept (put_file e d.next text synced)
  unfolding put_file
  put-IsKept e text synced kept i other =
      get-set_ne e.files d.next i _ (λ same. other (sym same)) ∙ kept i other

  pub filling-names-IsSafe : (e : Disk) → IsSafe e (Dict.set d.names tmp d.next)
  filling-names-IsSafe e name h = inl (get-set_ne d.names tmp name d.next (λ same. h (sym same)))

  -- Safety looks at the new file only.
  pub refiled :
      (e e' : Disk) (names : Directory)
      → Dict.get e'.files d.next ≡ some (record { content = content; synced = true })
      → IsSafe e names
      → IsSafe e' names
  refiled e e' names filed safe name h = elim (safe name h) [
    | inl same ↦ inl same
    | inr (at_final, named, was) ↦ inr (at_final, named, filed)
  ]

  pub All-refiled :
      (e e' : Disk)
      → Dict.get e'.files d.next ≡ some (record { content = content; synced = true })
      → (earlier : List Directory) → All (IsSafe e) earlier
      → All (IsSafe e') earlier
  All-refiled e e' filed [] h = tt
  All-refiled e e' filed (names ∷ earlier) h =
      (refiled e e' names filed h.0, All-refiled e e' filed earlier h.1)
