-- ===== src/Ca/Files.antt =====
-- What the authority does to the certificate directory, one call after another, and what each call
-- does to the file or directory that it names.
use linuxmuster_radius.Prelude.{
  ℕ, ◌≡◌, inl, inr, refl, sym, ap, ◌∙◌, Bool-cases, Option, none, some, List, [], ◌∷◌, Text,
  text_eq, text_eq_iff, arith, if◌then◌else◌,
}
use linuxmuster_radius.Dict
use linuxmuster_radius.Dict.{Dict}

-- `os.makedirs(path, exist_ok=True)`, `os.chmod`, `os.open` with O_CREAT and O_TRUNC, and the write.
pub data Op : Type 0 where
  make_dir : Text → Op
  change_mode open_file : Text → ℕ → Op
  write_data : Text → Text → Op

abbrev pub private_dir : ℕ
private_dir = 0x1c0

abbrev pub private_file : ℕ
private_file = 0x180

abbrev pub public_file : ℕ
public_file = 0x1a4

-- `_write_file`
abbrev pub write_file : Text → Text → ℕ → List Op
write_file path text mode = open_file path mode ∷ write_data path text ∷ change_mode path mode ∷ []

-- A directory has no content.
pub record Node : Type 0 where
  pub mode : ℕ
  pub content : Option Text

abbrev pub Disk : Type 0
Disk = Dict Node

abbrev pub file : ℕ → Text → Node
file mode text = record { mode = mode; content = some text }

abbrev pub target : Op → Text
target (make_dir p) = p
target (change_mode p m) = p
target (open_file p m) = p
target (write_data p t) = p

-- What a call makes of the node that it names. A new directory has the mode that the umask leaves;
-- the umask takes no bit from the two modes of new files.
module _ (dir_mode : ℕ) where
  abbrev pub effect : Op → Option Node → Option Node
  effect (make_dir p) none = some (record { mode = dir_mode; content = none })
  effect (make_dir p) (some n) = some n
  effect (change_mode p m) none = none
  effect (change_mode p m) (some n) = some (record n { mode = m })
  effect (open_file p m) none = some (file m [])
  effect (open_file p m) (some n) = some (record n { content = some [] })
  effect (write_data p t) none = none
  effect (write_data p t) (some n) = some (record n { content = some t })

  abbrev set_node : Disk → Text → Option Node → Disk
  set_node d p none = d
  set_node d p (some n) = Dict.put d p n

  unfoldable pub run : Op → Disk → Disk
  run op d = set_node d (target op) (effect op (Dict.get d (target op)))

  unfoldable pub run_all : List Op → Disk → Disk
  unfolding run
  run_all [] d = d
  run_all (op ∷ ops) d = run_all ops (run op d)

  effect-none : (op : Op) (o : Option Node) → effect op o ≡ none → o ≡ none
  effect-none op none e = refl
  effect-none (make_dir p) (some n) e = ground (arith, e)
  effect-none (change_mode p m) (some n) e = ground (arith, e)
  effect-none (open_file p m) (some n) e = ground (arith, e)
  effect-none (write_data p t) (some n) e = ground (arith, e)

  get-set_node :
      (d : Disk) (p q : Text) (o : Option Node)
      → (o ≡ none → Dict.get d p ≡ none)
      → Dict.get (set_node d p o) q ≡ (if text_eq p q then o else Dict.get d q)
  get-set_node d p q none h = elim (Bool-cases (text_eq p q)) [
    | inl same ↦ rw same (ap (Dict.get d) (sym ((text_eq_iff p q).0 same)) ∙ h refl)
    | inr other ↦ rw other refl
  ]
  get-set_node d p q (some n) h = Dict.get-put d p q n

  pub get-run :
      (op : Op) (d : Disk) (q : Text)
      → Dict.get (run op d) q
        ≡ (if text_eq (target op) q then effect op (Dict.get d (target op)) else Dict.get d q)
  unfolding run
  get-run op d q =
      get-set_node d (target op) q (effect op (Dict.get d (target op)))
        (effect-none op (Dict.get d (target op)))

  -- The predicate holds before, between and after the calls.
  unfoldable pub Through : (Disk → Type 0) → List Op → Disk → Type 0
  unfolding run
  Through P [] d = P d
  Through P (op ∷ ops) d = P d × Through P ops (run op d)
