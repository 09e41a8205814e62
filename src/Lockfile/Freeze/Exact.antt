-- ===== src/Lockfile/Freeze/Exact.antt =====
-- What it means that the freeze gate has nothing to complain about.
use linuxmuster_radius.Prelude.{◌≡◌, ◌↔◌, refl, Option, some, List, [], ◌++◌, Text, arith, map, All}
use linuxmuster_radius.Dict
use linuxmuster_radius.Dict.{Dict}
use linuxmuster_radius.Lockfile.{
  Complaint, parse, file_lines, readable, ascii_errors, drop_not_pinned, own_missing,
}
use linuxmuster_radius.Lockfile.Names.{Among, AllDifferent, append_nil}
use linuxmuster_radius.Lockfile.Closure.{canonical}
use linuxmuster_radius.Lockfile.Freeze.{
  Entry, table, pop_all, want_from, have_from, compare, freeze,
}
use linuxmuster_radius.Lockfile.Freeze.Tables.{
  Lists, names, table_silent, table-get, pop_all_silent, pop_all-get,
}
use linuxmuster_radius.Lockfile.Parsing.{AllPrintable, readable_all, all_readable}
use linuxmuster_radius.Lockfile.Freeze.Reading.{
  lock_entries, freeze_entries, IsPlain, want_from_lem, have_from_lem,
}
use linuxmuster_radius.Lockfile.Freeze.Compare.{compare_silent, is_some_iff}

-- Every one of the names is in the list, and none of them is there twice among themselves.
abbrev pub AllListed : List Text → List Entry → Type 0
AllListed ks es = AllDifferent ks × ((k : Text) → Among k ks → (v : Text) × Lists es k v)

-- What a table without complaints has.
gets :
    (es : List Entry) (k v : Text)
    → (table [] es).1 ≡ []
    → (Dict.get (table [] es).0 k ≡ some v) ↔ Lists es k v
unfolding Dict.get
gets es k v silent = ground (arith, table-get [] es k v silent)

listed :
    (c : Text → Complaint) (es : List Entry) (ks : List Text)
    → (table [] es).1 ≡ []
    → ((pop_all c (table [] es).0 ks).1 ≡ []) ↔ AllListed ks es
listed c es ks silent =
    let d = (table [] es).0 in
    let pops = pop_all_silent c d ks in
    (
      λ quiet. (
        (pops.0 quiet).0,
        λ k m.
            let (v, e) = (is_some_iff (Dict.get d k)).0 ((pops.0 quiet).1 k m) in
            (v, (gets es k v silent).0 e),
      ),
      λ (different, there). pops.1 (
        different,
        λ k m.
            let (v, l) = there k m in (is_some_iff (Dict.get d k)).1 (v, (gets es k v silent).1 l),
      ),
    )

-- What is left of such a table.
left :
    (c : Text → Complaint) (es : List Entry) (ks : List Text) (k v : Text)
    → (table [] es).1 ≡ []
    → (Dict.get (pop_all c (table [] es).0 ks).0 k ≡ some v) ↔ (Lists es k v × (¬ Among k ks))
left c es ks k v silent = ground (arith, pop_all-get c (table [] es).0 ks k v, gets es k v silent)

once : (es : List Entry) → ((table [] es).1 ≡ []) ↔ AllDifferent (names es)
unfolding Dict.get
once es =
    let silent = table_silent [] es in
    (λ e. (silent.0 e).0, λ different. silent.1 (different, λ k m. refl))

-- The two tables after the names were popped, and their comparison.
popped_iff :
    (c c' : Text → Complaint) (es fs : List Entry) (ks js : List Text)
    → (table [] es).1 ≡ []
    → (table [] fs).1 ≡ []
    → ((((pop_all c (table [] es).0 ks).1 ≡ []) × ((pop_all c' (table [] fs).0 js).1 ≡ []))
        × (compare (pop_all c (table [] es).0 ks).0 (pop_all c' (table [] fs).0 js).0 ≡ []))
      ↔ ((AllListed ks es × AllListed js fs)
          × ((k v : Text) → (Lists es k v × (¬ Among k ks)) ↔ (Lists fs k v × (¬ Among k js))))
popped_iff c c' es fs ks js t1 t2 =
    let one = listed c es ks t1 in
    let two = listed c' fs js t2 in
    let agree = compare_silent (pop_all c (table [] es).0 ks).0 (pop_all c' (table [] fs).0 js).0 in
    (
      λ ((e1, e2), e3). (
        (one.0 e1, two.0 e2),
        λ k v. ground (arith, left c es ks k v t1, left c' fs js k v t2, agree.0 e3 k v),
      ),
      λ ((l1, l2), same). (
        (one.1 l1, two.1 l2),
        agree.1 (λ k v. ground (arith, left c es ks k v t1, left c' fs js k v t2, same k v)),
      ),
    )

six_nil :
    (e1 e2 e3 e4 e5 e6 : List Complaint)
    → (e1 ++ e2 ++ e3 ++ e4 ++ e5 ++ e6 ≡ [])
      ↔ ((e1 ≡ []) × (e2 ≡ []) × (e3 ≡ []) × (e4 ≡ []) × (e5 ≡ []) × (e6 ≡ []))
six_nil e1 e2 e3 e4 e5 e6 = ground (
  arith,
  append_nil (e1 ++ e2 ++ e3 ++ e4 ++ e5) e6,
  append_nil (e1 ++ e2 ++ e3 ++ e4) e5,
  append_nil (e1 ++ e2 ++ e3) e4,
  append_nil (e1 ++ e2) e3,
  append_nil e1 e2,
)

module _ (lower : Text → Text) (own drop_names : List Text) (frozen : Text)
    (locks : List Text) where
  -- The lockfiles can be read and pin no name twice, the output of `pip freeze` is plain pins of
  -- different names, what is dropped is pinned, what is one's own is installed, and apart from
  -- these the environment has exactly the pinned versions.
  pub record IsExact : Type 0 where
    pub locks_fine : All (λ lock. (parse lock).1 ≡ []) locks
    pub pinned_once : AllDifferent (names (lock_entries locks))
    pub dropped : AllListed (map (canonical lower) drop_names) (lock_entries locks)
    pub printable : AllPrintable (file_lines frozen)
    pub plain : All IsPlain (file_lines frozen)
    pub installed_once : AllDifferent (names (freeze_entries lower 1 (file_lines frozen)))
    pub owned : AllListed (map (canonical lower) own) (freeze_entries lower 1 (file_lines frozen))
    pub same_pins :
        (k v : Text)
        → (Lists (lock_entries locks) k v × (¬ Among k (map (canonical lower) drop_names))) ↔ (
            Lists (freeze_entries lower 1 (file_lines frozen)) k v
            × (¬ Among k (map (canonical lower) own)))

  abbrev dropped_names : List Text
  dropped_names = map (canonical lower) drop_names

  abbrev own_names : List Text
  own_names = map (canonical lower) own

  -- The loops, of readable lines.
  loops_iff :
      (ls : List (Option Text))
      → ls ≡ map some (file_lines frozen)
      → let (want, e1) = want_from [] locks in
        let (kept, e2) = pop_all drop_not_pinned want dropped_names in
        let (have, e4) = have_from lower 1 [] ls in
        let (rest, e5) = pop_all own_missing have own_names in
        ((e1 ≡ []) × (e4 ≡ []) × (((e2 ≡ []) × (e5 ≡ [])) × (compare kept rest ≡ []))) ↔ (
          (All (λ lock. (parse lock).1 ≡ []) locks × AllDifferent (names (lock_entries locks)))
          × (All IsPlain (file_lines frozen)
              × AllDifferent (names (freeze_entries lower 1 (file_lines frozen))))
          × ((AllListed dropped_names (lock_entries locks)
                × AllListed own_names (freeze_entries lower 1 (file_lines frozen)))
              × ((k v : Text)
                  → (Lists (lock_entries locks) k v × (¬ Among k dropped_names)) ↔ (
                      Lists (freeze_entries lower 1 (file_lines frozen)) k v
                      × (¬ Among k own_names)))))
  loops_iff ls same =
      let es = lock_entries locks in
      let fs = freeze_entries lower 1 (file_lines frozen) in
      let w = want_from_lem [] locks in
      let h = have_from_lem lower 1 [] (file_lines frozen) in
      let after = popped_iff drop_not_pinned own_missing es fs dropped_names own_names in
      rw (same, w.0, h.0)
        (
          λ (e1, e4, parts).
              let (fine, t1) = w.1.0 e1 in
              let (plain, t2) = h.1.0 e4 in
              ((fine, (once es).0 t1), (plain, (once fs).0 t2), (after t1 t2).0 parts),
          λ ((fine, o1), (plain, o2), parts).
              let t1 = (once es).1 o1 in
              let t2 = (once fs).1 o2 in
              (w.1.1 (fine, t1), h.1.1 (plain, t2), (after t1 t2).1 parts),
        )

  -- The freeze gate has nothing to complain about exactly if the lockfiles can be read and pin no
  -- name twice, the frozen output has plain pins of different names, what is dropped is pinned,
  -- what is one's own is installed, and apart from these the environment has exactly the pinned
  -- versions.
  pub freeze_iff : (freeze lower own drop_names frozen locks ≡ []) ↔ IsExact
  unfolding freeze
  freeze_iff =
      let lines = file_lines frozen in
      let want = want_from [] locks in
      let kept = pop_all drop_not_pinned want.0 dropped_names in
      let have = have_from lower 1 [] (map readable lines) in
      let rest = pop_all own_missing have.0 own_names in
      let parts =
        six_nil want.1 kept.1 (ascii_errors 1 lines) have.1 rest.1 (compare kept.0 rest.0) in
      (
        λ e.
            let (e1, e2, e3, e4, e5, e6) = parts.0 e in
            let (printable, same) = readable_all 1 lines e3 in
            let ((fine, o1), (plain, o2), ((l1, l2), agree)) =
              (loops_iff (map readable lines) same).0 (e1, e4, ((e2, e5), e6)) in
            record {
              locks_fine = fine;
              pinned_once = o1;
              dropped = l1;
              printable = printable;
              plain = plain;
              installed_once = o2;
              owned = l2;
              same_pins = agree;
            },
        λ x.
            let (e3, same) = all_readable 1 lines x.printable in
            let (e1, e4, ((e2, e5), e6)) = (loops_iff (map readable lines) same).1 (
              (x.locks_fine, x.pinned_once),
              (x.plain, x.installed_once),
              ((x.dropped, x.owned), x.same_pins),
            ) in
            parts.1 (e1, e2, e3, e4, e5, e6),
      )
