-- ===== src/Store/Effects.antt =====
-- What the store's operations leave in the instances directory, whatever git answers.
use linuxmuster_radius.Prelude.{
  true, ◌≡◌, refl, Option, none, List, [], ◌∷◌, ◌++◌, Text, text_eq, text_eq_iff, codes,
  if◌then◌else◌, arith, inl, inr, Option-cases,
}
use linuxmuster_radius.Exec.{Result, ok, err, store_error, ◌>>◌}
use linuxmuster_radius.Dict
use linuxmuster_radius.Dict.{Dict, get-put, get-remove}
use linuxmuster_radius.Models.Types.{Instance}
use linuxmuster_radius.Host.{Host}
use linuxmuster_radius.World.{World}
use linuxmuster_radius.Store.{git_command, commit, write_record, unlink, put, drop_record, delete}
use linuxmuster_radius.Store.Files.{safe_name, yaml_file, prev_file}

-- A call that returned, or that raised `StoreError`.
abbrev pub OkOrStoreError : Result (Unit {0}) → Type 0
OkOrStoreError (ok u) = Unit
OkOrStoreError (err (store_error m)) = Unit
OkOrStoreError (err e) = ⊥

module _ (H : Host) where
  -- A step that changes nothing but what is outside, and raises at most `StoreError`.
  abbrev Outside : World H → Result (Unit {0}) × World H → Type 0
  Outside w (r, w') = OkOrStoreError r × (w'.instances ≡ w.instances) × (w'.files ≡ w.files)

  git_command-Outside : (args : List Text) (w : World H) → Outside w (git_command H args w)
  unfolding git_command
  git_command-Outside args w = ground arith

  commit-Outside : (m f : Text) (w : World H) → Outside w (commit H m f w)
  unfolding commit
  commit-Outside m f w = ground arith

  >>-Outside :
      (m k : World H → Result (Unit {0}) × World H)
      → ((w : World H) → Outside w (m w))
      → ((w : World H) → Outside w (k w))
      → (w : World H) → Outside w ((m >> k) w)
  >>-Outside m k hm hk w = ground (arith, hm w, hk (m w).1)

  add_commit : List Text → Text → Text → World H → Result (Unit {0}) × World H
  add_commit args m f = git_command H args >> commit H m f

  add_commit-Outside :
      (args : List Text) (m f : Text) (w : World H) → Outside w (add_commit args m f w)
  unfolding add_commit
  add_commit-Outside args m f =
      >>-Outside (git_command H args) (commit H m f) (git_command-Outside args) (commit-Outside m f)

  -- Putting a record with a safe name writes its one file, whatever git answers, and raises at
  -- most a StoreError.
  pub put_effect :
      (inst : Instance) (w : World H)
      → safe_name inst.name ≡ true
      → OkOrStoreError (put H inst w).0
        × ((put H inst w).1.instances
            ≡ Dict.put w.instances (yaml_file inst.name) (H.safe_dump inst))
        × ((put H inst w).1.files ≡ w.files)
  unfolding put add_commit
  put_effect inst w safe = rw safe (
      add_commit-Outside (codes "add" ∷ codes "--" ∷ yaml_file inst.name ∷ [])
        (codes "lmnradius: update " ++ inst.name) (yaml_file inst.name)
        (write_record H (yaml_file inst.name) (H.safe_dump inst) w))

  drop_record_effect :
      (name : Text) (w : World H)
      → OkOrStoreError (drop_record H name w).0
        × ((drop_record H name w).1.instances ≡ Dict.remove w.instances (yaml_file name))
        × ((drop_record H name w).1.files ≡ w.files)
  unfolding drop_record add_commit
  drop_record_effect name w =
      add_commit-Outside
        (codes "rm" ∷ codes "-q" ∷ codes "--ignore-unmatch" ∷ codes "--" ∷ yaml_file name ∷ [])
        (codes "lmnradius: remove " ++ name) (yaml_file name) (unlink H (yaml_file name) w)

  -- What a reader finds after `delete name`.
  abbrev pub without : Text → Dict Text → Text → Option Text
  without name d k =
      if text_eq (yaml_file name) k
      then none
      else if text_eq (prev_file name) k
      then none
      else Dict.get d k

  absent :
      (name : Text) (d : Dict Text) (k : Text)
      → Dict.get (Dict.remove d (prev_file name)) (yaml_file name) ≡ none
      → Dict.get (Dict.remove d (prev_file name)) k ≡ without name d k
  absent name d k gone =
      ground (arith, get-remove d (prev_file name) k, text_eq_iff (yaml_file name) k)

  present :
      (name : Text) (d : Dict Text) (k : Text)
      → Dict.get (Dict.remove (Dict.remove d (prev_file name)) (yaml_file name)) k
        ≡ without name d k
  present name d k = simp get-remove

  -- Deleting a safe name drops the record's file and the rollback pointer and changes no other
  -- file, whatever git answers; it raises at most a StoreError.
  pub delete_effect :
      (name : Text) (w : World H)
      → safe_name name ≡ true
      → OkOrStoreError (delete H name w).0
        × ((k : Text) → Dict.get (delete H name w).1.instances k ≡ without name w.instances k)
        × ((delete H name w).1.files ≡ w.files)
  unfolding delete
  delete_effect name w safe =
      let w' = unlink H (prev_file name) w in
      elim (Option-cases (Dict.get (Dict.remove w.instances (prev_file name)) (yaml_file name))) [
        | inl gone ↦ rw (safe, gone) (tt, λ k. absent name w.instances k gone, refl)
        | inr (text, there) ↦
            rw (safe, there)
              (let e = drop_record_effect name w' in
                (e.0, λ k. rw (e.1) (present name w.instances k), e.2))
      ]
