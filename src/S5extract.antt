-- ===== src/S5extract.antt =====
-- tools/s5extract.py: what the program asks of the host, in order, and how it ends. The calls on the host
-- are taken to succeed.
pub mod Written
use mame_sys.Base.{
  ℕ, ◌+◌, ◌-◌, ◌*◌, ◌/◌, ◌%◌, List, [], ◌∷◌, ◌++◌, Bool, true, false, ◌&&◌, ◌||◌, ◌==◌, Option,
  none, some, get_or, if◌then◌else◌, same_bytes,
}
use mame_sys.Base.Result.{Result, ok, err}
use mame_sys.Mkfs.Build.{rsplit}
use mame_sys.S5.{contents, open_image}
use mame_sys.S5.Walk.{Node, walk, format, is_dir}

pub data Action : Type 0 where
  -- `os.makedirs(path, exist_ok=True)`
  make_dirs : List ℕ → Action
  -- `open(target, 'wb')`, which empties the file
  create : List ℕ → Action
  write : List ℕ → List ℕ → Action
  -- `os.chmod(target, 0o755)`
  make_executable : List ℕ → Action
  print_file : List ℕ → ℕ → Action
  print_special : List ℕ → ℕ → ℕ → Action

-- What has been done, and whether an exception ended it.
pub record Run : Type 0 where
  pub actions : List Action
  pub ended : Result (Unit {0})

-- One run after another, which an exception in the first prevents.
unfoldable pub then_run : Run → Run → Run
then_run first next = elim first.ended [
  | ok u ↦ record { actions = first.actions ++ next.actions; ended = next.ended }
  | err fault ↦ first
]

-- `path.lstrip('/')`
unfoldable pub lstrip_slash : List ℕ → List ℕ
lstrip_slash [] = []
lstrip_slash (c ∷ cs) = if c == b'/' then lstrip_slash cs else c ∷ cs

unfoldable pub ends_slash : List ℕ → Bool
ends_slash [] = false
ends_slash (c ∷ []) = c == b'/'
ends_slash (c ∷ d ∷ cs) = ends_slash (d ∷ cs)

unfoldable pub starts_slash : List ℕ → Bool
starts_slash [] = false
starts_slash (c ∷ cs) = c == b'/'

-- `os.path.join(a, b)` on POSIX.
unfoldable pub join : List ℕ → List ℕ → List ℕ
join [] b = b
join (c ∷ a) b =
    if starts_slash b then b else (if ends_slash (c ∷ a) then (c ∷ a) ++ b else (c ∷ a) ++ b'/' ∷ b)

unfoldable pub all_slashes : List ℕ → Bool
all_slashes [] = true
all_slashes (c ∷ cs) = (c == b'/') && all_slashes cs

-- `rstrip('/')`
unfoldable pub rstrip_slash : List ℕ → List ℕ
rstrip_slash [] = []
rstrip_slash (c ∷ cs) = elim (rstrip_slash cs) [
  | [] ↦ if c == b'/' then [] else c ∷ []
  | d ∷ ds ↦ c ∷ d ∷ ds
]

-- `os.path.dirname(path)` on POSIX: the part before the last slash, without slashes at its end unless it
-- is nothing but slashes.
unfoldable pub dirname : List ℕ → List ℕ
dirname path = elim (rsplit path) [
  | none ↦ []
  | some (before, behind) ↦ if all_slashes before then before ++ b'/' ∷ [] else rstrip_slash before
]

-- `stat.S_ISREG`
unfoldable pub is_regular : ℕ → Bool
is_regular mode = format mode == 8

-- `mode & 0o111`, as a test.
unfoldable pub is_executable : ℕ → Bool
is_executable mode = (mode % 2 == 1) || ((mode / 8 % 2 == 1) || (mode / 64 % 2 == 1))

unfoldable pub target_of : List ℕ → List ℕ → List ℕ
target_of out path = join out (lstrip_slash path)

-- The body of `with open(target, 'wb')` and what follows it, once the file has been opened.
unfoldable pub fill_file : Result (List ℕ) → List ℕ → Node → Run
fill_file (err fault) target node = record { actions = []; ended = err fault }
fill_file (ok content) target node = record {
  actions =
      write target content
      ∷ ((if is_executable node.entry.mode then make_executable target ∷ [] else [])
          ++ print_file node.path node.entry.size ∷ []);
  ended = ok tt;
}

unfoldable pub extract_file : List ℕ → List ℕ → Node → Run
extract_file d target node =
    then_run (record { actions = make_dirs (dirname target) ∷ create target ∷ []; ended = ok tt })
      (fill_file (contents d node.entry) target node)

-- The body of the loop over `fs.walk()`.
unfoldable pub extract_node : List ℕ → List ℕ → Node → Run
extract_node d out node =
    let target = target_of out node.path in
    let dev = get_or node.entry.blk 0 0 in
    if is_dir node.entry.mode
    then record { actions = make_dirs target ∷ []; ended = ok tt }
    else (if is_regular node.entry.mode then extract_file d target node else record {
      actions = print_special node.path (dev / 256) (dev % 256) ∷ [];
      ended = ok tt;
    })

unfoldable pub extract_nodes : List ℕ → List ℕ → List Node → Run
extract_nodes d out [] = record { actions = []; ended = ok tt }
extract_nodes d out (node ∷ nodes) = then_run (extract_node d out node) (extract_nodes d out nodes)

-- `for path, ino, i in fs.walk()`
unfoldable pub extract_walk : List ℕ → List ℕ → Result (List Node) → Run
extract_walk d out (err fault) = record { actions = []; ended = err fault }
extract_walk d out (ok nodes) = extract_nodes d out nodes

-- `main` on the bytes of the image and the directory to extract to.
unfoldable pub extract : List ℕ → List ℕ → Run
extract d out = elim (open_image d) [
  | err fault ↦ record { actions = []; ended = err fault }
  | ok fs ↦
      then_run (record { actions = make_dirs out ∷ []; ended = ok tt })
        (extract_walk d out (walk d))
]
