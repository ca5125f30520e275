-- ===== src/S5extract/Written.antt =====
-- The files that tools/s5extract.py leaves on the host.
use mame_sys.Base.{
  ℕ, List, [], ◌∷◌, ◌++◌, true, false, All, Option, some, ◌≡◌, ◌≢◌, refl, sym, ap, ◌∙◌, ◌⊎◌,
  Bool-cases, inl, inr, ◌==◌, ==_ne, ==_iff, if◌then◌else◌, arith,
}
use mame_sys.Base.Result.{Result, Fault, ok, err}
use mame_sys.S5.{contents}
use mame_sys.S5.Walk.{Node, is_dir}
use mame_sys.S5extract.{
  Action, Run, make_dirs, create, write, make_executable, print_file, print_special, then_run,
  fill_file, extract_file, extract_node, extract_nodes, target_of, is_regular, is_executable,
  dirname,
}

-- The contents of the host's files, by a number that stands for the file itself, as an inode number does.
abbrev pub Host : Type 0
Host = ℕ → Option (List ℕ)

abbrev with_file : ℕ → List ℕ → Host → Host
with_file file content host f = if f == file then some content else host f

with_file-other :
    (file : ℕ) (content : List ℕ) (f : ℕ) (host : Host)
    → f ≢ file
    → with_file file content host f ≡ host f
with_file-other file content f host ne = rw (==_ne f file ne) refl

with_file-own :
    (file : ℕ) (content : List ℕ) (host : Host) → with_file file content host file ≡ some content
with_file-own file content host = rw ((==_iff file file).1 refl) refl

then_run-ok :
    (first next : Run)
    → first.ended ≡ ok tt
    → then_run first next ≡ record { actions = first.actions ++ next.actions; ended = next.ended }
unfolding then_run
then_run-ok first next e = rw (then_run, e) refl

then_run-err :
    (first next : Run) {fault : Fault} → first.ended ≡ err fault → then_run first next ≡ first
unfolding then_run
then_run-err first next e =
    ap
      (λ (r : Result (Unit {0})). elim r [
        | ok u ↦ record { actions = first.actions ++ next.actions; ended = next.ended }
        | err fault ↦ first
      ])
      e

ended-cases : (r : Result (Unit {0})) → (r ≡ ok tt) ⊎ ((fault : Fault) × (r ≡ err fault))
ended-cases (ok tt) = inl refl
ended-cases (err fault) = inr (fault, refl)

fill_file-ended :
    (content target : List ℕ) (node : Node) → (fill_file (ok content) target node).ended ≡ ok tt
unfolding fill_file
fill_file-ended content target node = refl

regular-no_dir : (mode : ℕ) → is_regular mode ≡ true → is_dir mode ≡ false
unfolding is_regular is_dir
regular-no_dir mode e = ground arith

-- A run that ended without an exception had no exception in its first half.
then_run-ended :
    (first next : Run)
    → (then_run first next).ended ≡ ok tt
    → (first.ended ≡ ok tt) × (next.ended ≡ ok tt)
then_run-ended first next e = elim (ended-cases first.ended) [
  | inl f ↦
      (f, sym (ap {A = Run} {B = Result (Unit {0})} (λ r. r.ended) (then_run-ok first next f)) ∙ e)
  | inr (fault, f) ↦
      let g : err fault ≡ ok tt =
        sym f
        ∙ sym (ap {A = Run} {B = Result (Unit {0})} (λ r. r.ended) (then_run-err first next f))
        ∙ e in
      absurd cc
]

-- `file_of` is the host's: the file that a path names, once the directories on it exist, by whatever
-- links, dots and slashes. Nothing that the program does makes a path name another file.
module _ (file_of : List ℕ → ℕ) where
  -- What an action makes of the files. A file is written where it was created.
  abbrev pub act : Action → Host → Host
  act (make_dirs p) host = host
  act (create target) host = with_file (file_of target) [] host
  act (write target content) host = with_file (file_of target) content host
  act (make_executable target) host = host
  act (print_file p n) host = host
  act (print_special p a b) host = host

  abbrev pub act_all : List Action → Host → Host
  act_all [] host = host
  act_all (a ∷ actions) host = act_all actions (act a host)

  act_all-append :
      (xs ys : List Action) (host : Host) → act_all (xs ++ ys) host ≡ act_all ys (act_all xs host)
  act_all-append [] ys host = refl
  act_all-append (a ∷ xs) ys host = act_all-append xs ys (act a host)

  -- A run that leaves one file of the host alone.
  abbrev Keeps : ℕ → Run → Type 0
  Keeps p run = (host : Host) → act_all run.actions host p ≡ host p

  then_run-Keeps :
      (p : ℕ) (first next : Run) → Keeps p first → Keeps p next → Keeps p (then_run first next)
  then_run-Keeps p first next k l host = elim (ended-cases first.ended) [
    | inl e ↦ rw (then_run-ok first next e) (
        ap (λ h. h p) (act_all-append first.actions next.actions host)
        ∙ l (act_all first.actions host)
        ∙ k host)
    | inr (fault, e) ↦ rw (then_run-err first next e) (k host)
  ]

  fill_file-Keeps :
      (r : Result (List ℕ)) (target : List ℕ) (p : ℕ) (node : Node)
      → p ≢ file_of target
      → Keeps p (fill_file r target node)
  unfolding fill_file
  fill_file-Keeps (err fault) target p node ne host = refl
  fill_file-Keeps (ok content) target p node ne host =
      elim (Bool-cases (is_executable node.entry.mode)) [
        | inl e ↦ rw e (with_file-other (file_of target) content p host ne)
        | inr e ↦ rw e (with_file-other (file_of target) content p host ne)
      ]

  -- Another target is left alone by the whole body of the loop.
  extract_node-Keeps :
      (d out : List ℕ) (node : Node) (p : ℕ)
      → p ≢ file_of (target_of out node.path)
      → Keeps p (extract_node d out node)
  unfolding extract_node extract_file
  extract_node-Keeps d out node p ne = elim (Bool-cases (is_dir node.entry.mode)) [
    | inl dir ↦ rw dir (λ host. refl)
    | inr other ↦ elim (Bool-cases (is_regular node.entry.mode)) [
      | inl regular ↦
          rw (other, regular)
            (then_run-Keeps p
              (record {
                actions =
                    make_dirs (dirname (target_of out node.path))
                    ∷ create (target_of out node.path)
                    ∷ [];
                ended = ok tt;
              })
              (fill_file (contents d node.entry) (target_of out node.path) node)
              (λ host. with_file-other (file_of (target_of out node.path)) [] p host ne)
              (fill_file-Keeps (contents d node.entry) (target_of out node.path) p node ne))
      | inr special ↦ rw (other, special) (λ host. refl)
    ]
  ]

  extract_nodes-Keeps :
      (d out : List ℕ) (nodes : List Node) (p : ℕ)
      → All (λ node. p ≢ file_of (target_of out node.path)) nodes
      → Keeps p (extract_nodes d out nodes)
  unfolding extract_nodes
  extract_nodes-Keeps d out [] p all = λ host. refl
  extract_nodes-Keeps d out (node ∷ nodes) p all =
      then_run-Keeps p (extract_node d out node) (extract_nodes d out nodes)
        (extract_node-Keeps d out node p all.0) (extract_nodes-Keeps d out nodes p all.1)

  fill_file-own :
      (content target : List ℕ) (node : Node) (host : Host)
      → act_all (fill_file (ok content) target node).actions host (file_of target) ≡ some content
  unfolding fill_file
  fill_file-own content target node host = elim (Bool-cases (is_executable node.entry.mode)) [
    | inl e ↦ rw e (with_file-own (file_of target) content host)
    | inr e ↦ rw e (with_file-own (file_of target) content host)
  ]

  extract_node-own :
      (d out : List ℕ) (node : Node) (content : List ℕ) (host : Host)
      → is_dir node.entry.mode ≡ false
      → is_regular node.entry.mode ≡ true
      → contents d node.entry ≡ ok content
      → (act_all (extract_node d out node).actions host (file_of (target_of out node.path))
          ≡ some content)
        × ((extract_node d out node).ended ≡ ok tt)
  unfolding extract_node extract_file then_run
  extract_node-own d out node content host other regular read =
      rw (other, regular, read)
        (
          fill_file-own content (target_of out node.path) node
              (with_file (file_of (target_of out node.path)) [] host),
          fill_file-ended content (target_of out node.path) node,
        )

  -- When the loop over the nodes ends without an exception, take a regular file among them whose content
  -- can be read, and suppose that the target of no later node names the same file of the host, as two
  -- different paths may. Then the file that its target names holds that content afterwards, byte for
  -- byte, whatever the host's files held before.
  pub extract_nodes-writes :
      (d out : List ℕ) (before : List Node) (node : Node) (after : List Node) (content : List ℕ)
      (host : Host)
      → (extract_nodes d out (before ++ node ∷ after)).ended ≡ ok tt
      → is_regular node.entry.mode ≡ true
      → contents d node.entry ≡ ok content
      → All (λ later. file_of (target_of out node.path) ≢ file_of (target_of out later.path)) after
      → act_all
          (extract_nodes d out (before ++ node ∷ after)).actions
          host
          (file_of (target_of out node.path))
        ≡ some content
  unfolding extract_nodes
  extract_nodes-writes d out [] node after content host ended regular read apart =
      let first = extract_node d out node in
      let rest = extract_nodes d out after in
      let own =
        extract_node-own d out node content host (regular-no_dir node.entry.mode regular) regular
          read in
      ap (λ r. act_all r.actions host (file_of (target_of out node.path)))
        (then_run-ok first rest own.1)
      ∙ ap (λ h. h (file_of (target_of out node.path)))
          (act_all-append first.actions rest.actions host)
      ∙ extract_nodes-Keeps d out after (file_of (target_of out node.path)) apart
          (act_all first.actions host)
      ∙ own.0
  extract_nodes-writes d out (x ∷ before) node after content host ended regular read apart =
      let first = extract_node d out x in
      let rest = extract_nodes d out (before ++ node ∷ after) in
      let (e, e') = then_run-ended first rest ended in
      ap (λ r. act_all r.actions host (file_of (target_of out node.path)))
        (then_run-ok first rest e)
      ∙ ap (λ h. h (file_of (target_of out node.path)))
          (act_all-append first.actions rest.actions host)
      ∙ extract_nodes-writes d out before node after content (act_all first.actions host) e' regular
          read apart
