-- ===== src/Lockfile/Print.antt =====
-- How uv writes a lockfile, and that the reader gives back what was written.
use linuxmuster_radius.Prelude.{
  ℕ, suc, ◌+◌, ◌≡◌, refl, sym, ap, subst, ◌∙◌, Bool, true, false, none, some, List, [], ◌∷◌, ◌++◌,
  Text, codes, all, length, All, All-append, append_assoc, all-append, all_mono, split, arith,
}
use linuxmuster_radius.Prelude.StringLaws.{split-append, has-eq-false}
use linuxmuster_radius.Dict
use linuxmuster_radius.Dict.{Dict}
use linuxmuster_radius.Regex.Language.{Matches}
use linuxmuster_radius.Lockfile.{
  Pin, project_re, version_re, hash_prefix, with_hash, new_pin, parse, is_printable, is_low_hex,
  file_lines, drop_last_empty,
}
use linuxmuster_radius.Lockfile.Grammar.{IsDigest, continuation, Reads, end, pin, more, last}
use linuxmuster_radius.Lockfile.Patterns.{name_char, version_char, name_chars, version_chars}
use linuxmuster_radius.Lockfile.Parsing.{AllPrintable, parse_iff}

-- A pin with at least one hash.
pub record Entry : Type 0 where
  pub name : Text
  pub version : Text
  pub digest : Text
  pub others : List Text

abbrev pub IsEntry : Entry → Type 0
IsEntry e =
    Matches project_re e.name
    × Matches version_re e.version
    × IsDigest e.digest
    × All IsDigest e.others

abbrev pub pin_line : Entry → Text
pin_line e = e.name ++ (codes "==" ++ (e.version ++ codes " \\"))

abbrev pub hash_line : Text → Bool → Text
hash_line h continues = hash_prefix ++ (h ++ continuation continues)

unfoldable pub hash_lines : Text → List Text → List Text
hash_lines h [] = hash_line h false ∷ []
hash_lines h (g ∷ gs) = hash_line h true ∷ hash_lines g gs

unfoldable pub print_lines : List Entry → List Text
unfolding hash_lines
print_lines [] = []
print_lines (e ∷ es) = pin_line e ∷ (hash_lines e.digest e.others ++ print_lines es)

-- The pins of a written file whose first line has the number `n`.
unfoldable pub entry_pins : ℕ → List Entry → List Pin
entry_pins n [] = []
entry_pins n (e ∷ es) =
    record { name = e.name; version = e.version; line = n; hashes = e.digest ∷ e.others }
    ∷ entry_pins (suc (suc n) + length e.others) es

-- No name is in `seen`, nor twice in the list.
abbrev pub AreFresh : Dict ℕ → ℕ → List Entry → Type 0
AreFresh seen n [] = Unit
AreFresh seen n (e ∷ es) =
    (Dict.get seen e.name ≡ none)
    × AreFresh (Dict.put seen e.name n) (suc (suc n) + length e.others) es

abbrev closed : Pin → Text → List Text → Pin
closed p h gs = record p { hashes = p.hashes ++ h ∷ gs }

hash_lines-Reads :
    (n m : ℕ) (seen : Dict ℕ) (p : Pin) (h : Text) (gs : List Text) (ls : List Text) (ps : List Pin)
    → m ≡ suc n + length gs
    → IsDigest h
    → All IsDigest gs
    → Reads m seen none ls ps
    → Reads n seen (some p) (hash_lines h gs ++ ls) (closed p h gs ∷ ps)
unfolding hash_lines
hash_lines-Reads n m seen p h [] ls ps e d ds r =
    last h (refl, d) (subst (λ k. Reads k seen none ls ps) (omega (arith, e)) r)
hash_lines-Reads n m seen p h (g ∷ gs) ls ps e d ds r =
    more h (refl, d)
      (subst
        (λ hs.
          Reads (suc n) seen (some (with_hash p h)) (hash_lines g gs ++ ls)
            (record p { hashes = hs } ∷ ps))
        (append_assoc p.hashes (h ∷ []) (g ∷ gs))
        (hash_lines-Reads (suc n) m seen (with_hash p h) g gs ls ps (omega (arith, e)) ds.0 ds.1 r))

print-Reads :
    (n : ℕ) (seen : Dict ℕ) (es : List Entry)
    → All IsEntry es
    → AreFresh seen n es
    → Reads n seen none (print_lines es) (entry_pins n es)
unfolding print_lines entry_pins
print-Reads n seen [] ok fresh = end
print-Reads n seen (e ∷ es) ((named, versioned, first, others), ok) (new, fresh) =
    let m = suc (suc n) + length e.others in
    pin e.name e.version (refl, named, versioned) new
      (hash_lines-Reads (suc n) m (Dict.put seen e.name n) (new_pin e.name e.version n) e.digest
        e.others (print_lines es) (entry_pins m es) refl first others
        (print-Reads m (Dict.put seen e.name n) es ok fresh))

-- Lines with an end behind each.
unfoldable pub unlines : List Text → Text
unlines [] = []
unlines (l ∷ ls) = l ++ 10 ∷ unlines ls

split-unlines : (ls : List Text) → AllPrintable ls → split 10 (unlines ls) ≡ ls ++ [] ∷ []
unfolding unlines split
split-unlines [] h = refl
split-unlines (l ∷ ls) h =
    split-append 10 l (unlines ls) (has-eq-false is_printable 10 l refl h.0)
    ∙ ap (λ t. l ∷ t) (split-unlines ls h.1)

drop_last : (l : Text) (ls : List Text) → drop_last_empty (l ∷ (ls ++ [] ∷ [])) ≡ l ∷ ls
unfolding drop_last_empty
drop_last l [] = refl
drop_last l (m ∷ ls) = ap (λ t. l ∷ t) (drop_last m ls)

file_lines-unlines : (ls : List Text) → AllPrintable ls → file_lines (unlines ls) ≡ ls
unfolding file_lines
file_lines-unlines [] h = unfold unlines split drop_last_empty in refl
file_lines-unlines (l ∷ ls) h = ap drop_last_empty (split-unlines (l ∷ ls) h) ∙ drop_last l ls

printable-pin :
    (name version : Text)
    → Matches project_re name
    → Matches version_re version
    → all is_printable (name ++ (codes "==" ++ (version ++ codes " \\"))) ≡ true
printable-pin name version n v =
    all-append is_printable name _
      (all_mono name_char is_printable name (λ c h. ground (arith, h)) (name_chars name n))
      (all-append is_printable version _
        (all_mono version_char is_printable version (λ c h. ground (arith, h))
          (version_chars version v))
        refl)

printable-hash : (h : Text) (b : Bool) → IsDigest h → all is_printable (hash_line h b) ≡ true
printable-hash h true d =
    all-append is_printable h (continuation true)
      (all_mono is_low_hex is_printable h (λ c x. ground (arith, x)) d.0) refl
printable-hash h false d =
    all-append is_printable h (continuation false)
      (all_mono is_low_hex is_printable h (λ c x. ground (arith, x)) d.0) refl

printable-hashes :
    (h : Text) (gs : List Text) → IsDigest h → All IsDigest gs → AllPrintable (hash_lines h gs)
unfolding hash_lines
printable-hashes h [] d ds = (printable-hash h false d, tt)
printable-hashes h (g ∷ gs) d ds = (printable-hash h true d, printable-hashes g gs ds.0 ds.1)

printable-print : (es : List Entry) → All IsEntry es → AllPrintable (print_lines es)
unfolding print_lines
printable-print [] ok = tt
printable-print (e ∷ es) ((named, versioned, first, others), ok) = (
  printable-pin e.name e.version named versioned,
  All-append (λ l. all is_printable l ≡ true) (hash_lines e.digest e.others) (print_lines es)
      (printable-hashes e.digest e.others first others) (printable-print es ok),
)

-- Reading a lockfile that was written from entries with well-formed names, versions and hashes and
-- without a repeated name gives their pins, without a complaint.
pub parse-print_lines :
    (es : List Entry)
    → All IsEntry es
    → AreFresh [] 1 es
    → parse (unlines (print_lines es)) ≡ (entry_pins 1 es, [])
parse-print_lines es ok fresh =
    let same = file_lines-unlines (print_lines es) (printable-print es ok) in
    (parse_iff (unlines (print_lines es)) (entry_pins 1 es)).1 (
      subst AllPrintable (sym same) (printable-print es ok),
      subst (λ ls. Reads 1 [] none ls (entry_pins 1 es)) (sym same) (print-Reads 1 [] es ok fresh),
    )
