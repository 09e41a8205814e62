-- ===== src/Lockfile/Parsing.antt =====
-- The reader accepts exactly the lockfiles of the grammar, and returns their pins.
use linuxmuster_radius.Prelude.{
  All, ℕ, suc, ◌≡◌, ◌↔◌, inl, inr, refl, sym, ap, ◌∙◌, Bool, true, false, Option, none, some, List,
  [], ◌∷◌, ◌++◌, Text, all, map, arith, Bool-cases, subst,
}
use linuxmuster_radius.Dict
use linuxmuster_radius.Dict.{Dict}
use linuxmuster_radius.Lockfile.{
  pinned_twice, after_line, after_pin, after_hash, Pin, Complaint, Parsed, emit, complain_if,
  is_pinned, with_hash, new_pin, hash_match, is_blank, pin_match, parse_lines, parse, ascii_errors,
  readable, file_lines, is_printable,
}
use linuxmuster_radius.Lockfile.Grammar.{Reads, end, blank, pin, more, last}
use linuxmuster_radius.Lockfile.Names.{append_nil}
use linuxmuster_radius.Lockfile.Patterns.{not_blank, pin_match_iff, hash_match_iff, is_blank_iff}

pinned_none :
    (seen : Dict ℕ) (name : Text) → Dict.get seen name ≡ none → is_pinned seen name ≡ false
pinned_none seen name h = rw (is_pinned, h) refl

-- Every derivation of the grammar is followed by the reader, without an error.
Reads_parsed :
    {n : ℕ} {seen : Dict ℕ} {cont : Option Pin} {ls : List Text} {ps : List Pin}
    → Reads n seen cont ls ps
    → parse_lines n seen cont (map some ls) ≡ (ps, [])
unfolding parse_lines
Reads_parsed end = refl
Reads_parsed (blank {n} {seen} {l} {ls} {ps} b r) =
    ap (λ t. after_line (λ s c. parse_lines (suc n) s c (map some ls)) n seen t (pin_match l))
      ((is_blank_iff l).1 b)
    ∙ Reads_parsed r
Reads_parsed (pin {n} {seen} {l} {ls} {ps} name version p fresh r) =
    let again : Dict ℕ → Option Pin → Parsed = λ s c. parse_lines (suc n) s c (map some ls) in
    ap (λ t. after_line again n seen t (pin_match l)) (not_blank l name version p)
    ∙ (ap (after_pin again n seen) ((pin_match_iff l name version).1 p)
        ∙ (ap
              (λ b.
                complain_if b (pinned_twice n name)
                  (again (Dict.put seen name n) (some (new_pin name version n))))
              (pinned_none seen name fresh)
            ∙ Reads_parsed r))
Reads_parsed (more {n} {seen} {p} {l} {ls} {ps} h e r) =
    ap (after_hash (λ c. parse_lines (suc n) seen c (map some ls)) n p)
      ((hash_match_iff l h true).1 e)
    ∙ Reads_parsed r
Reads_parsed (last {n} {seen} {p} {l} {ls} {ps} h e r) =
    ap (after_hash (λ c. parse_lines (suc n) seen c (map some ls)) n p)
      ((hash_match_iff l h false).1 e)
    ∙ ap (emit (with_hash p h)) (Reads_parsed r)

-- What holds of the lines after this one, for each pin that may be open.
abbrev Follows : ℕ → Dict ℕ → List Text → (Option Pin → Parsed) → Type 0
Follows n seen ls again =
    (c : Option Pin) (qs : List Pin) → again c ≡ (qs, []) → Reads n seen c ls qs

emitted :
    (p : Pin) (r : Parsed) (ps : List Pin) → emit p r ≡ (ps, []) → (ps ≡ p ∷ r.0) × (r ≡ (r.0, []))
emitted p r ps e = (sym (ap (λ q. q.0) e), ap (λ es. (r.0, es)) (ap (λ q. q.1) e))

hash_Reads :
    (again : Option Pin → Parsed) (n : ℕ) (seen : Dict ℕ) (p : Pin) (l : Text) (ls : List Text)
    (m : Option (Text × Bool)) (ps : List Pin)
    → hash_match l ≡ m
    → Follows (suc n) seen ls again
    → after_hash again n p m ≡ (ps, [])
    → Reads n seen (some p) (l ∷ ls) ps
unfolding after_hash
hash_Reads again n seen p l ls none ps matched later e = ground (arith, ap (λ q. q.1) e)
hash_Reads again n seen p l ls (some (h, true)) ps matched later e =
    more h ((hash_match_iff l h true).0 matched) (later _ _ e)
hash_Reads again n seen p l ls (some (h, false)) ps matched later e =
    let (same, rest) = emitted (with_hash p h) (again none) ps e in
    subst (Reads n seen (some p) (l ∷ ls)) (sym same)
      (last h ((hash_match_iff l h false).0 matched) (later _ _ rest))

complained :
    (b : Bool) (x : Complaint) (r : Parsed) (ps : List Pin)
    → complain_if b x r ≡ (ps, [])
    → (b ≡ false) × (r ≡ (ps, []))
complained true x r ps e = ground (arith, ap (λ q. q.1) e)
complained false x r ps e = (refl, e)

not_pinned : (seen : Dict ℕ) (name : Text) → is_pinned seen name ≡ false → Dict.get seen name ≡ none
not_pinned seen name h = ground arith

pin_Reads :
    (again : Dict ℕ → Option Pin → Parsed) (n : ℕ) (seen : Dict ℕ) (l : Text) (ls : List Text)
    (m : Option (Text × Text)) (ps : List Pin)
    → pin_match l ≡ m
    → ((s : Dict ℕ) → Follows (suc n) s ls (again s))
    → after_pin again n seen m ≡ (ps, [])
    → Reads n seen none (l ∷ ls) ps
unfolding after_pin
pin_Reads again n seen l ls none ps matched later e = ground (arith, ap (λ q. q.1) e)
pin_Reads again n seen l ls (some (name, version)) ps matched later e =
    let (fresh, rest) = complained (is_pinned seen name) _ _ ps e in
    pin name version ((pin_match_iff l name version).0 matched) (not_pinned seen name fresh)
      (later _ _ _ rest)

line_Reads :
    (again : Dict ℕ → Option Pin → Parsed) (n : ℕ) (seen : Dict ℕ) (l : Text) (ls : List Text)
    (b : Bool) (ps : List Pin)
    → is_blank l ≡ b
    → ((s : Dict ℕ) → Follows (suc n) s ls (again s))
    → after_line again n seen b (pin_match l) ≡ (ps, [])
    → Reads n seen none (l ∷ ls) ps
unfolding after_line
line_Reads again n seen l ls true ps b later e = blank ((is_blank_iff l).0 b) (later _ _ _ e)
line_Reads again n seen l ls false ps b later e =
    pin_Reads again n seen l ls (pin_match l) ps refl later e

parsed_Reads :
    (ls : List Text) (n : ℕ) (seen : Dict ℕ) (cont : Option Pin) (ps : List Pin)
    → parse_lines n seen cont (map some ls) ≡ (ps, [])
    → Reads n seen cont ls ps
unfolding parse_lines
parsed_Reads [] n seen none ps e = subst (Reads n seen none []) (ap (λ q. q.0) e) end
parsed_Reads [] n seen (some p) ps e = ground (arith, ap (λ q. q.1) e)
parsed_Reads (l ∷ ls) n seen none ps e =
    line_Reads (λ s c. parse_lines (suc n) s c (map some ls)) n seen l ls (is_blank l) ps refl
      (λ s c qs. parsed_Reads ls (suc n) s c qs) e
parsed_Reads (l ∷ ls) n seen (some p) ps e =
    hash_Reads (λ c. parse_lines (suc n) seen c (map some ls)) n seen p l ls (hash_match l) ps refl
      (λ c qs. parsed_Reads ls (suc n) seen c qs) e

abbrev pub AllPrintable : List Text → Type 0
AllPrintable ls = All (λ l. all is_printable l ≡ true) ls

-- Where every line is printable the lines are read as they are.
pub readable_all :
    (n : ℕ) (ls : List Text)
    → ascii_errors n ls ≡ []
    → AllPrintable ls × (map readable ls ≡ map some ls)
unfolding ascii_errors readable
readable_all n [] e = (tt, refl)
readable_all n (l ∷ ls) e = elim (Bool-cases (all is_printable l)) [
  | inl fine ↦
      let (rest, same) = readable_all (suc n) ls (rw fine at e) in
      ((fine, rest), rw (fine, same) refl)
  | inr bad ↦ ground (arith, rw bad at e)
]

pub all_readable :
    (n : ℕ) (ls : List Text)
    → AllPrintable ls
    → (ascii_errors n ls ≡ []) × (map readable ls ≡ map some ls)
unfolding ascii_errors readable
all_readable n [] h = (refl, refl)
all_readable n (l ∷ ls) h =
    let (none_bad, same) = all_readable (suc n) ls h.1 in
    (rw (h.0, none_bad) refl, rw (h.0, same) refl)

-- The gate reads a file without a complaint exactly if all its bytes are printable or line ends
-- and its lines are a lockfile of the grammar, and the pins it returns are those of the grammar.
pub parse_iff :
    (content : Text) (ps : List Pin)
    → (parse content ≡ (ps, []))
      ↔ (AllPrintable (file_lines content) × Reads 1 [] none (file_lines content) ps)
unfolding parse
parse_iff content ps = (
  λ e.
      let lines = file_lines content in
      let r = parse_lines 1 [] none (map readable lines) in
      let (fine, quiet) = (append_nil (ascii_errors 1 lines) r.1).0 (ap (λ q. q.1) e) in
      let (printable, same) = readable_all 1 lines fine in
      (
        printable,
        parsed_Reads lines 1 [] none ps (
            ap (parse_lines 1 [] none) (sym same)
            ∙ (ap (λ es. (r.0, es)) quiet ∙ ap (λ q. (q, [])) (ap (λ q. q.0) e))),
      ),
  λ (printable, reads).
      let lines = file_lines content in
      let (fine, same) = all_readable 1 lines printable in
      let e = ap (parse_lines 1 [] none) same ∙ Reads_parsed reads in
      ap (λ q. (q.0, ascii_errors 1 lines ++ q.1)) e ∙ ap (λ es. (ps, es ++ [])) fine,
)
