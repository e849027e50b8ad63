-- ===== src/Persistence/File/Laws.antt =====
-- persistence.rs: a save replaces the state file in one step, and a load reads it back.
use cryptosweep.Base.{◌≡◌, ◌≢◌, refl, subst, ◌⊎◌, inl, inr, String, none, some}
use cryptosweep.Base.{List, [], ◌∷◌, string_eq, nat_eq, arith, All, All-append, All-weaken}
use cryptosweep.Base.FilePath.{EndsInName, has_parent, with_extension-apart}
use cryptosweep.Base.Text.{lacks}
use cryptosweep.Base.Dict
use cryptosweep.Base.Dict.{get-insert, get-remove_other}
use cryptosweep.Types.Error.{AppError, Result, ok, err, Result-cases}
use cryptosweep.Types.State.{PersistedState}
use cryptosweep.Persistence.File.{
  Disk, Serde, SaveAnswers, Saved, read_to_string, load_state, made, temp_path, torn_disks,
  after_torn, rename_to, written, save_state, passed, behind_rename,
}

-- The temporary file is not the state file.
temp_path-apart : (path : String) → EndsInName path → path ≢ temp_path path
unfolding lacks nat_eq
temp_path-apart path name = with_extension-apart "json.tmp" path name refl

-- Two disks hold the same under a path.
abbrev pub AgreeAt : String → Disk → Disk → Type 0
AgreeAt path disk d = Dict.get path d ≡ Dict.get path disk

insert-AgreeAt :
    (tmp path t : String) (disk d : Disk)
    → path ≢ tmp
    → AgreeAt path disk d
    → AgreeAt path disk (Dict.insert tmp t d)
insert-AgreeAt tmp path t disk d apart h = rw get-insert (ground (arith, h))

torn_disks-AgreeAt :
    (tmp path : String) (ts : List String) (disk d : Disk)
    → path ≢ tmp
    → AgreeAt path disk d
    → All (AgreeAt path disk) (torn_disks tmp ts d)
unfolding torn_disks
torn_disks-AgreeAt tmp path [] disk d apart h = tt
torn_disks-AgreeAt tmp path (t ∷ ts) disk d apart h =
    let next = insert-AgreeAt tmp path t disk d apart h in
    (next, torn_disks-AgreeAt tmp path ts disk (Dict.insert tmp t d) apart next)

after_torn-AgreeAt :
    (tmp path : String) (ts : List String) (disk d : Disk)
    → path ≢ tmp
    → AgreeAt path disk d
    → AgreeAt path disk (after_torn tmp ts d)
unfolding after_torn
after_torn-AgreeAt tmp path [] disk d apart h = h
after_torn-AgreeAt tmp path (t ∷ ts) disk d apart h =
    after_torn-AgreeAt tmp path ts disk (Dict.insert tmp t d) apart
      (insert-AgreeAt tmp path t disk d apart h)

module _ {D : Type 0} (serde : Serde D) (answers : SaveAnswers) (path : String) where
  abbrev pub IsIntact : Disk → Disk → Type 0
  IsIntact = AgreeAt path

  -- What a save that has returned leaves at the path: the new text, or on an error what stood there.
  abbrev pub Leaves : PersistedState D → Disk → Result (Unit {0}) AppError → Disk → Type 0
  Leaves state disk (ok _) after =
      (text : String) × (serde.to_string_pretty state ≡ ok text) × (Dict.get path after ≡ some text)
  Leaves state disk (err _) after = IsIntact disk after

  -- A disk of a save: the state file is as it was, or the save succeeds and it is the new text.
  abbrev pub IsOldOrNew : PersistedState D → Disk → Saved → Disk → Type 0
  IsOldOrNew state disk s d = IsIntact disk d ⊎ ((s.result ≡ ok tt) × Leaves state disk (ok tt) d)

  abbrev pub IsAtomic : PersistedState D → Disk → Saved → Type 0
  IsAtomic state disk s =
      All (IsOldOrNew state disk s) (passed s) × Leaves state disk s.result s.disk

  -- The same by parts: what stands before the rename is the old file.
  abbrev pub IsStaged : PersistedState D → Disk → Saved → Type 0
  IsStaged state disk s = All (IsIntact disk) s.before_rename × Leaves state disk s.result s.disk

  written-IsIntact :
      (text : String) (disk : Disk)
      → path ≢ temp_path path
      → IsIntact disk (written serde answers path text disk)
  written-IsIntact text disk apart =
      insert-AgreeAt (temp_path path) path text disk (after_torn (temp_path path) answers.torn disk)
        apart (after_torn-AgreeAt (temp_path path) path answers.torn disk disk apart refl)

  rename-text :
      (text : String) (disk : Disk)
      → Dict.get path (rename_to (temp_path path) path text disk) ≡ some text
  rename-text text disk = rw get-insert (ground arith)

  pub save_state-IsStaged :
      (state : PersistedState D) (disk : Disk)
      → EndsInName path
      → IsStaged state disk (save_state serde answers path state disk)
  unfolding save_state
  save_state-IsStaged state disk name =
      let apart = temp_path-apart path name in
      let torn : All (IsIntact disk) (disk ∷ torn_disks (temp_path path) answers.torn disk) =
        (refl, torn_disks-AgreeAt (temp_path path) path answers.torn disk disk apart refl) in
      elim (Result-cases (made (has_parent path) answers.create_dir_all)) [
        | inr (e, fails) ↦ rw (fails, save_state) ((refl, tt), refl)
        | inl (_, made_it) ↦ elim (Result-cases (serde.to_string_pretty state)) [
          | inr (e, fails) ↦ rw (made_it, fails, save_state) ((refl, tt), refl)
          | inl (text, prints) ↦ elim (Result-cases answers.write) [
            | inr (e, fails) ↦
                rw (made_it, prints, fails, save_state)
                  (torn, after_torn-AgreeAt (temp_path path) path answers.torn disk disk apart refl)
            | inl (_, writes) ↦
                let whole = written-IsIntact text disk apart in
                let staged =
                  All-append (IsIntact disk) (disk ∷ torn_disks (temp_path path) answers.torn disk)
                    (written serde answers path text disk ∷ []) torn (whole, tt) in
                elim (Result-cases answers.rename) [
                  | inr (e, fails) ↦ rw (made_it, prints, writes, fails, save_state) (staged, whole)
                  | inl (_, renames) ↦
                      rw (made_it, prints, writes, renames, save_state)
                        (
                          staged,
                          (text, prints, rename-text text (written serde answers path text disk)),
                        )
                ]
          ]
        ]
      ]

  end-IsOldOrNew :
      (state : PersistedState D) (disk : Disk) (s : Saved) (x : Result (Unit {0}) AppError)
      → s.result ≡ x
      → Leaves state disk x s.disk
      → All (IsOldOrNew state disk s) (behind_rename s.disk x)
  end-IsOldOrNew state disk s (err e) failed leaves = tt
  end-IsOldOrNew state disk s (ok _) succeeded leaves = (inr (succeeded, leaves), tt)

  staged-IsAtomic :
      (state : PersistedState D) (disk : Disk) (s : Saved)
      → IsStaged state disk s
      → IsAtomic state disk s
  staged-IsAtomic state disk s (old, leaves) = (
    All-append (IsOldOrNew state disk s) s.before_rename (behind_rename s.disk s.result)
        (All-weaken (IsIntact disk) (IsOldOrNew state disk s) s.before_rename (λ d o. inl o) old)
        (end-IsOldOrNew state disk s s.result refl leaves),
    leaves,
  )

  -- At every moment until a save has returned, also between the rename and the return, a kill leaves
  -- the old state file or, of a save that succeeds, the whole new text. A save that succeeds
  -- leaves the new text, and one that fails the old file. The path ends in a file's name.
  pub save_state-IsAtomic :
      (state : PersistedState D) (disk : Disk)
      → EndsInName path
      → IsAtomic state disk (save_state serde answers path state disk)
  save_state-IsAtomic state disk name =
      staged-IsAtomic state disk (save_state serde answers path state disk)
        (save_state-IsStaged state disk name)

  reads_back :
      (state : PersistedState D) (text : String) (disk : Disk)
      → Dict.get path disk ≡ some text
      → serde.from_str text ≡ ok state
      → load_state serde (read_to_string none path disk) ≡ ok state
  unfolding load_state
  reads_back state text disk stands reads = ground (arith, stands, reads)

  -- Where a save has succeeded, a load of the disk behind it returns the state that was saved. The
  -- serializer reads what it has printed, and the path ends in a file's name.
  pub load_state-save_state :
      (state : PersistedState D) (disk : Disk)
      → ((s : PersistedState D) (text : String)
          → serde.to_string_pretty s ≡ ok text
          → serde.from_str text ≡ ok s)
      → EndsInName path
      → (save_state serde answers path state disk).result ≡ ok tt
      → load_state serde (read_to_string none path (save_state serde answers path state disk).disk)
        ≡ ok state
  load_state-save_state state disk reads name saved =
      let leaves = (save_state-IsStaged state disk name).1 in
      let (text, prints, stands) =
        subst (λ r. Leaves state disk r (save_state serde answers path state disk).disk) saved
          leaves in
      reads_back state text (save_state serde answers path state disk).disk stands
        (reads state text prints)
