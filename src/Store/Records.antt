-- ===== src/Store/Records.antt =====
-- Reading back what was written, and the invariant of the instances directory.
use mathlib.Core.Option.{some-injective}
use linuxmuster_radius.Prelude.{
  true, ◌≡◌, refl, ap, none, some, Text, text_eq, text_eq_iff, if◌then◌else◌, arith, inl, inr,
  Bool-cases,
}
use linuxmuster_radius.Exec.{ok}
use linuxmuster_radius.Dict
use linuxmuster_radius.Dict.{Dict, get-put, get-remove}
use linuxmuster_radius.Models.Types.{Instance}
use linuxmuster_radius.Models.Fields.{Stdlib, is_instance}
use linuxmuster_radius.Models.Valid.{is_instance-IsValid}
use linuxmuster_radius.Host.{Host, dict}
use linuxmuster_radius.World.{World}
use linuxmuster_radius.Store.{put, delete, get, read_record}
use linuxmuster_radius.Store.Files.{safe_name, yaml_file}
use linuxmuster_radius.Store.Names.{v_name-safe_name, yaml_file-inj, yaml_file-ne-prev_file}
use linuxmuster_radius.Store.Effects.{put_effect, delete_effect}

pub is_instance-safe_name :
    (py : Stdlib) (i : Instance) → is_instance py i ≡ true → safe_name i.name ≡ true
is_instance-safe_name py i h = v_name-safe_name i.name (is_instance-IsValid py i h).name

module _ (H : Host) (py : Stdlib) where
  -- A file that holds a dump of a valid record reads as that record.
  pub read_record-valid :
      (text : Text) (i : Instance)
      → H.safe_load text ≡ dict (some i)
      → is_instance py i ≡ true
      → read_record H py (some text) ≡ ok (some i)
  unfolding read_record
  read_record-valid text i loads valid = rw (loads, valid)

  pub get_lem :
      (name : Text) (w : World H)
      → safe_name name ≡ true
      → get H py name w ≡ (read_record H py (Dict.get w.instances (yaml_file name)), w)
  unfolding get
  get_lem name w safe = rw safe

  pub get_state : (name : Text) (w : World H) → (get H py name w).1 ≡ w
  get_state name w = elim (Bool-cases (safe_name name)) [
    | inl safe ↦ ap (λ r. r.1) (get_lem name w safe)
    | inr bad ↦ unfold get in rw bad refl
  ]

  -- The directory holds, under each record's file, a valid record of that name.
  pub record IsConsistent (d : Dict Text) : Type 0 where
    pub at_file :
        (name text : Text)
        → Dict.get d (yaml_file name) ≡ some text
        → (i : Instance) × (H.safe_load text ≡ dict (some i))
          × (is_instance py i ≡ true)
          × (i.name ≡ name)

  module _ (inst : Instance) (load-dump : H.safe_load (H.safe_dump inst) ≡ dict (some inst)) where
    -- After a put of a valid record that YAML loads back, get returns it under its name, whatever
    -- git answers, and under every other safe name what it returned before.
    pub get-put_store :
        (name : Text) (w : World H)
        → is_instance py inst ≡ true
        → safe_name name ≡ true
        → (get H py name (put H inst w).1).0
          ≡ (if text_eq inst.name name then ok (some inst) else (get H py name w).0)
    get-put_store name w valid safe =
        let e = put_effect H inst w (is_instance-safe_name py inst valid) in
        rw (get_lem name (put H inst w).1 safe, get_lem name w safe, e.1, get-put, yaml_file-inj)
          (elim (Bool-cases (text_eq inst.name name)) [
            | inl same ↦ rw same (read_record-valid _ inst load-dump valid)
            | inr other ↦ rw other
          ])

    -- Putting a valid record that YAML loads back keeps the directory consistent: each record's
    -- file holds a valid record of that name.
    pub put-IsConsistent :
        (w : World H)
        → is_instance py inst ≡ true
        → IsConsistent w.instances
        → IsConsistent (put H inst w).1.instances
    put-IsConsistent w valid c = record {
      at_file = λ name text e.
          let e' = put_effect H inst w (is_instance-safe_name py inst valid) in
          let e'' = rw (e'.1, get-put, yaml_file-inj) at e in
          elim (Bool-cases (text_eq inst.name name)) [
            | inl same ↦ (
              inst,
              rw (← some-injective _ _ (rw same at e'')) load-dump,
              valid,
              (text_eq_iff _ _).0 same,
            )
            | inr other ↦ c.at_file name text (rw other at e'')
          ];
    }

  -- Deleting a safe name keeps the directory consistent.
  pub delete-IsConsistent :
      (name : Text) (w : World H)
      → safe_name name ≡ true
      → IsConsistent w.instances
      → IsConsistent (delete H name w).1.instances
  delete-IsConsistent name w safe c = record {
    at_file = λ other text e.
        let e' = (delete_effect H name w safe).1 (yaml_file other) in
        c.at_file other text (ground (arith, e', e, yaml_file-ne-prev_file name other));
  }

  -- After a delete, get finds no record of that name, and under every other safe name what it
  -- found before.
  pub get-delete :
      (name other : Text) (w : World H)
      → safe_name name ≡ true
      → safe_name other ≡ true
      → (get H py other (delete H name w).1).0
        ≡ (if text_eq name other then ok none else (get H py other w).0)
  get-delete name other w safe safe' =
      rw
        (
          get_lem other (delete H name w).1 safe',
          get_lem other w safe',
          (delete_effect H name w safe).1 (yaml_file other),
          yaml_file-inj,
          yaml_file-ne-prev_file name other,
        )
        (unfold read_record in ground arith)
