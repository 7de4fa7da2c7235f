-- ===== src/References/Store/Numbering.antt =====
-- Assign as a whole: load, number, save and cache.
use dpwire.Prelude.{
  ◌≡◌, ◌⊎◌, refl, ◌∙◌, false, Option, some, List, [], ◌∷◌, Bytes, All, Result, ok, err, arith,
  Bool-cases, Option-cases, Result-cases, inl, inr,
}
use dpwire.Prelude.Dict.{Dict}
use dpwire.References.File.{ObjectReference, ReferenceFile, ReferenceError}
use dpwire.References.Assign.{Object, Work, start, assign_all}
use dpwire.References.Assign.Extends.{
  Extends, Extends-trans, Numbered, IsReady, assign_all-GoodAll, start-IsReady,
}
use dpwire.References.Assign.Untouched.{assign_all-Untouched}
use dpwire.References.Digests.{references}
use dpwire.References.Ledger.{IsConsistent, sort_by_number-IsConsistent, number_of-sort_by_number}
use dpwire.References.Store.{
  FileInfo, Store, select, load_cached, remember, replace, commit, finish, assign, sorted,
}

-- The file that `sorted` gives holds the same numbers.
sorted-Extends :
    (file : ReferenceFile) → IsConsistent file.next file.objects → Extends file (sorted file)
sorted-Extends file h = record {
  keeps = λ id n e. number_of-sort_by_number id file.objects h.unique_ids ∙ e;
  fresh = λ id n e f. cc (number_of-sort_by_number id file.objects h.unique_ids, e, f);
  grows = omega arith;
}

All-Numbered-sorted :
    (os : List Object) (file : ReferenceFile)
    → IsConsistent file.next file.objects
    → All (λ o. Numbered o.id file) os
    → All (λ o. Numbered o.id (sorted file)) os
All-Numbered-sorted [] file h a = tt
All-Numbered-sorted (o ∷ os) file h a =
    ((a.0.0, (sorted-Extends file h).keeps o.id a.0.0 a.0.1), All-Numbered-sorted os file h a.1)

module _ (digest : Bytes → Bytes) (decode : Bytes → Option ReferenceFile)
    (encode : ReferenceFile → Bytes) where
  load_cached-remember :
      (file : ReferenceFile) (s : Store)
      → load_cached digest decode encode (remember digest decode encode file s) ≡ ok file
  unfolding load_cached remember
  load_cached-remember file s = ground arith

  -- The file on disk in the end: the one that was there, where nothing has changed, or the text of the new one.
  abbrev pub Written : ReferenceFile → ReferenceFile → Store → Store → Type 0
  Written file file' s t =
      ((t.disk ≡ s.disk) × (file' ≡ file))
      ⊎ ((i : FileInfo) × (t.disk ≡ some (record { info = i; raw = encode file' })))

  -- What Assign promises on a store whose file is `file`: on an error the file on disk is as it was.
  abbrev pub Outcome :
      List Object
      → ReferenceFile
      → Store
      → Result ReferenceError (Dict ObjectReference) × Store
      → Type 0
  Outcome entries file s (err e, t) = t.disk ≡ s.disk
  Outcome entries file s (ok refs, t) =
      (file' : ReferenceFile) × (load_cached digest decode encode t ≡ ok file')
      × Written file file' s t
      × (refs ≡ select entries (references digest file'.objects))
      × IsConsistent file'.next file'.objects
      × Extends file file'
      × All (λ o. Numbered o.id file') entries

  commit-Outcome :
      (entries : List Object) (replaced : Option FileInfo) (file : ReferenceFile) (w : Work)
      (s : Store)
      → IsReady w
      → Extends file w.state
      → All (λ o. Numbered o.id w.state) entries
      → (w.changed ≡ false → w.state ≡ file)
      → Outcome entries file s
          (finish digest decode encode entries (commit digest decode encode replaced w s))
  unfolding commit finish replace remember
  commit-Outcome entries replaced file w s ready more numbered idle = elim (Bool-cases w.changed) [
    | inr same ↦
        rw (same, commit, finish)
          (
            w.state,
            load_cached-remember w.state s,
            inl (refl, idle same),
            refl,
            ready.consistent,
            more,
            numbered,
          )
    | inl changed ↦ elim (Option-cases replaced) [
      | inl e ↦ rw (changed, e, commit, finish, replace) refl
      | inr (i, e) ↦
          rw (changed, e, commit, finish, replace)
            (
              sorted w.state,
              load_cached-remember (sorted w.state)
                  (record s { disk = some (record { info = i; raw = encode (sorted w.state) }) }),
              inr (i, refl),
              refl,
              sort_by_number-IsConsistent _ _ ready.consistent,
              Extends-trans file w.state (sorted w.state) more
                  (sorted-Extends w.state ready.consistent),
              All-Numbered-sorted entries w.state ready.consistent numbered,
            )
    ]
  ]

  -- Assign on a store whose file loads and is consistent. If it succeeds, there is a file that the store loads
  -- next, and either it is the old one and nothing was written, or its text is what is on disk. That file is
  -- consistent, an ID that had a number has it still, an ID that had none has one that was never given out,
  -- every entry has a number, and the references returned are those of the file. If Assign fails, the file on
  -- disk is untouched.
  pub assign-Outcome :
      (entries : List Object) (replaced : Option FileInfo) (s : Store) (file : ReferenceFile)
      → load_cached digest decode encode s ≡ ok file
      → IsConsistent file.next file.objects
      → Outcome entries file s (assign digest decode encode entries replaced s)
  unfolding assign
  assign-Outcome entries replaced s file loaded h =
      let good = assign_all-GoodAll entries (start file) (start-IsReady file h) in
      let untouched = assign_all-Untouched entries (start file) in
      elim (Result-cases (assign_all entries (start file))) [
        | inr (x, e) ↦ rw (loaded, assign, e) refl
        | inl (w, e) ↦
            let still = rw e at untouched in
            let (ready, more, numbered) = rw e at good in
            rw (loaded, assign, e)
              (commit-Outcome entries replaced file w s ready (unfold start in more) numbered
                (unfold start in λ idle. (still idle).1))
      ]
