-- ===== src/Store.antt =====
-- controlplane/lmnradius/store.py: the git-backed directory of instance records.
pub mod Files
pub mod Names
pub mod Effects
pub mod Records
use linuxmuster_radius.Prelude.{
  ℕ, Bool, true, false, not, ◌&&◌, ◌||◌, ◌==◌, Option, none, some, List, [], ◌∷◌, ◌++◌, Text, codes,
  strip, text_eq, if◌then◌else◌, map,
}
use linuxmuster_radius.Exec.{
  Exec, Result, ok, err, pure, raise, raise_if, modify, when, gets, ◌>>=◌, ◌>>◌, store_error,
  value_error, validation_error,
}
use linuxmuster_radius.Dict
use linuxmuster_radius.Dict.{Dict}
use linuxmuster_radius.Models.Types.{Instance}
use linuxmuster_radius.Models.Fields.{Stdlib, is_instance}
use linuxmuster_radius.Host.{Host, Completed, Loaded, unreadable, not_dict, dict}
use linuxmuster_radius.World.{World, ask}
use Files.{safe_name, yaml_file, prev_file, yaml_names}

module _ (H : Host) where
  -- `["git", ...]`
  git : List Text → Exec (World H) (Option Completed)
  git args = ask (H.git args)

  abbrev says_true : Option Completed → Bool
  says_true none = false
  says_true (some c) = c.returncode == 0 && text_eq (strip c.stdout) (codes "true")

  abbrev exits_zero : Option Completed → Bool
  exits_zero none = false
  exits_zero (some c) = c.returncode == 0

  -- `_in_git_repo`
  unfoldable pub in_git_repo : Exec (World H) Bool
  unfolding git
  in_git_repo = do
    c ← git (codes "rev-parse" ∷ codes "--is-inside-work-tree" ∷ [])
    pure (says_true c)

  -- `_git_ok`
  unfoldable pub git_ok : List Text → Exec (World H) Bool
  unfolding git
  git_ok args = do c ← git args; pure (exits_zero c)

  -- `_GIT_IDENT`
  abbrev git_ident : List Text
  git_ident =
      codes "-c"
      ∷ codes "user.name=linuxmuster-radius"
      ∷ codes "-c"
      ∷ codes "user.email=lmnradius@localhost"
      ∷ []

  abbrev check_completed : Option Completed → Exec (World H) (Unit {0})
  check_completed none = raise (store_error "git failed")
  check_completed (some c) = raise_if (not (c.returncode == 0)) (store_error "git exited")

  -- `_git`
  unfoldable pub git_command : List Text → Exec (World H) (Unit {0})
  unfolding in_git_repo git
  git_command args = do
    inside ← in_git_repo
    when inside (do c ← git (git_ident ++ args); check_completed c)

  -- `_commit`
  unfoldable pub commit : Text → Text → Exec (World H) (Unit {0})
  unfolding in_git_repo git_ok git_command
  commit message file = do
    inside ← in_git_repo
    when inside (do
      clean ← git_ok (codes "diff" ∷ codes "--cached" ∷ codes "--quiet" ∷ codes "--" ∷ file ∷ [])
      when (not clean) (
          git_command
            (codes "commit" ∷ codes "-q" ∷ codes "-m" ∷ message ∷ codes "--" ∷ file ∷ [])))

  unfoldable pub write_record : Text → Text → World H → World H
  write_record file text w = record w { instances = Dict.put w.instances file text }

  unfoldable pub unlink : Text → World H → World H
  unlink file w = record w { instances = Dict.remove w.instances file }

  -- `Store.put`
  unfoldable pub put : Instance → Exec (World H) (Unit {0})
  unfolding git_command commit write_record
  put inst = do
    raise_if (not (safe_name inst.name)) (value_error "unsafe instance name")
    let file = yaml_file inst.name
    modify (write_record file (H.safe_dump inst))
    git_command (codes "add" ∷ codes "--" ∷ file ∷ [])
    commit (codes "lmnradius: update " ++ inst.name) file

  abbrev pub is_some : {A : Type 0} → Option A → Bool
  is_some none = false
  is_some (some a) = true

  -- The end of `Store.delete`, where the record's file exists.
  unfoldable pub drop_record : Text → Exec (World H) (Unit {0})
  unfolding git_command commit unlink
  drop_record name = do
    let file = yaml_file name
    modify (unlink file)
    git_command (codes "rm" ∷ codes "-q" ∷ codes "--ignore-unmatch" ∷ codes "--" ∷ file ∷ [])
    commit (codes "lmnradius: remove " ++ name) file

  -- `Store.delete`
  unfoldable pub delete : Text → Exec (World H) (Unit {0})
  unfolding drop_record
  delete name = do
    raise_if (not (safe_name name)) (value_error "unsafe instance name")
    modify (unlink (prev_file name))
    present ← gets (λ w. is_some (Dict.get w.instances (yaml_file name)))
    when present (drop_record name)

  module _ (py : Stdlib) where
    -- `Instance(**data)`
    unfoldable pub construct : Option Instance → Result Instance
    construct none = err validation_error
    construct (some i) = if is_instance py i then ok i else err validation_error

    unfoldable pub as_option : Result Instance → Result (Option Instance)
    as_option (ok i) = ok (some i)
    as_option (err e) = err e

    unfoldable pub parse_record : Loaded → Result (Option Instance)
    unfolding construct as_option
    parse_record unreadable = ok none
    parse_record not_dict = ok none
    parse_record (dict found) = as_option (construct found)

    unfoldable pub read_record : Option Text → Result (Option Instance)
    unfolding parse_record
    read_record none = ok none
    read_record (some text) = parse_record (H.safe_load text)

    -- `Store.get`
    unfoldable pub get : Text → Exec (World H) (Option Instance)
    unfolding read_record
    get name = do
      raise_if (not (safe_name name)) (value_error "unsafe instance name")
      λ w. (read_record (Dict.get w.instances (yaml_file name)), w)

    -- What `Store.list` appends for one file: records that cannot be read are skipped.
    unfoldable pub list_entry : Result (Option Instance) → List Instance
    list_entry (ok (some i)) = i ∷ []
    list_entry (ok none) = []
    list_entry (err e) = []

    unfoldable pub list_records : Dict Text → List Text → List Instance
    unfolding list_entry read_record
    list_records d [] = []
    list_records d (file ∷ names) =
        list_entry (read_record (Dict.get d file)) ++ list_records d names

    -- `Store.list`
    unfoldable pub list : World H → List Instance
    unfolding list_records
    list w = list_records w.instances (yaml_names (Dict.keys w.instances))
