-- ===== src/Mkfs/Build/Stores.antt =====
-- A store to a field of an inode, and `store_data`, as `build` of tools/mkfs.py calls them.
use mame_sys.Mkfs.Methods.{ok-state, ok-value}
use mame_sys.Mkfs.Build.Grows.{Grows, Grows-refl, Proper, Sound}
use mame_sys.Base.{
  ℕ, ◌+◌, ◌≤◌, ◌<◌, List, length, Option, some, none, Option-cases, Bool-cases, inl, inr, ◌≡◌, refl,
  sym, ap, ◌∙◌, arith, ◌==◌, ==_refl, ==_iff, replicate, if◌then◌else◌,
}
use mame_sys.Base.Result.{ok}
use mame_sys.Mkfs.{Fs, Inode, update, naddr}
use mame_sys.Mkfs.Blocks.{
  IsValid, store_all, store_all-next_block, store_all-IsValid, store_all-HoldsAt, block-store_all,
}
use mame_sys.Mkfs.Layout.{layout, layout_addr, nblk}
use mame_sys.Mkfs.Layout.Bounds.{layout-Fit, length-layout_addr}
use mame_sys.Mkfs.Store.{store_data}
use mame_sys.Mkfs.Writes.{max_blocks, store_data-layout}
use mame_sys.Mkfs.Needs.{store_data-needs}
use mame_sys.Mkfs.Files.{HasFile, store_all-rest}
use mame_sys.Mkfs.Build.{modify}
use mame_sys.Mkfs.Build.Sound.{Sound-inodes, Grows-inodes, update-all}

abbrev pub apply : (Inode → Inode) → Option Inode → Option Inode
apply f none = none
apply f (some ino) = some (f ino)

modify-none : (num : ℕ) (f : Inode → Inode) (fs : Fs) → fs.inodes num ≡ none → modify num f fs ≡ fs
unfolding modify
modify-none num f fs e = rw (modify, e) refl

modify-some :
    (num : ℕ) (f : Inode → Inode) (fs : Fs) {ino : Inode}
    → fs.inodes num ≡ some ino
    → modify num f fs ≡ record fs { inodes = update fs.inodes num (f ino) }
unfolding modify
modify-some num f fs e = rw (modify, e) refl

apply-update :
    (f : Inode → Inode) (inodes : ℕ → Option Inode) (num n : ℕ) {ino : Inode}
    → inodes num ≡ some ino
    → update inodes num (f ino) n ≡ (if n == num then apply f (inodes n) else inodes n)
apply-update f inodes num n {ino} e = elim (Bool-cases (n == num)) [
  | inl same ↦
      let there : inodes n ≡ some ino = ap inodes ((==_iff n num).0 same) ∙ e in
      rw (same, there) refl
  | inr other ↦ rw other refl
]

apply-none :
    (f : Inode → Inode) (inodes : ℕ → Option Inode) (num n : ℕ)
    → inodes num ≡ none
    → inodes n ≡ (if n == num then apply f (inodes n) else inodes n)
apply-none f inodes num n e = elim (Bool-cases (n == num)) [
  | inl same ↦
      let there : inodes n ≡ none = ap inodes ((==_iff n num).0 same) ∙ e in rw (same, there) refl
  | inr other ↦ rw other refl
]

-- What the table holds after a store to a field.
pub modify-inodes :
    (num : ℕ) (f : Inode → Inode) (fs : Fs) (n : ℕ)
    → (modify num f fs).inodes n ≡ (if n == num then apply f (fs.inodes n) else fs.inodes n)
modify-inodes num f fs n = elim (Option-cases (fs.inodes num)) [
  | inl e ↦
      ap {A = Fs} {B = Option Inode} (λ g. g.inodes n) (modify-none num f fs e)
      ∙ apply-none f fs.inodes num n e
  | inr (ino, e) ↦
      ap {A = Fs} {B = Option Inode} (λ g. g.inodes n) (modify-some num f fs e)
      ∙ apply-update f fs.inodes num n e
]

-- The object after a store to a field, when the store keeps the number and the addresses' count.
pub modify-Sound :
    (num : ℕ) (f : Inode → Inode) (fs : Fs)
    → ((i : Inode) → (f i).num ≡ i.num)
    → ((i : Inode) → length (f i).addr ≡ length i.addr)
    → Sound fs
    → Sound (modify num f fs) × Grows fs (modify num f fs)
modify-Sound num f fs same_num same_addr s = elim (Option-cases (fs.inodes num)) [
  | inl e ↦ rw (modify-none num f fs e) (s, Grows-refl fs)
  | inr (ino, e) ↦
      let p = s.proper num ino e in
      rw (modify-some num f fs e) (
        Sound-inodes fs (update fs.inodes num (f ino)) fs.next_ino s (omega arith) s.numbers (
            update-all (λ n i. (i.num ≡ n) × (length i.addr ≡ 13) × (n < fs.next_ino) × (1 ≤ n))
              fs.inodes num (f ino)
              (same_num ino ∙ p.num, same_addr ino ∙ p.sized, p.given, p.positive)
              (λ n i h. let q = s.proper n i h in (q.num, q.sized, q.given, q.positive))),
        Grows-inodes fs (update fs.inodes num (f ino)) fs.next_ino (omega arith),
      )
]

-- The inode after `store_data` of `content` from block `lo` on.
abbrev pub filled : ℕ → List ℕ → Inode → Inode
filled lo content ino = record ino { size = length content; addr = layout_addr lo content ino.addr }

-- What `store_data` does to the object.
pub record Stores (ino : Inode) (content : List ℕ) (fs : Fs) (ino' : Inode) (fs' : Fs)
    : Type 0 where
  pub made : ino' ≡ filled fs.next_block content ino
  pub sound : Sound fs'
  pub grows : Grows fs fs'
  pub inodes : (n : ℕ) → fs'.inodes n ≡ update fs.inodes ino.num ino' n
  pub next_ino : fs'.next_ino ≡ fs.next_ino
  pub there : ino.addr ≡ replicate naddr 0 → HasFile fs' ino.num fs.next_block ino' content

module _ (ino : Inode) (content : List ℕ) (fs : Fs) (s : Sound fs) (here : Proper fs ino.num ino)
    (few : nblk content ≤ max_blocks)
    (room : fs.next_block + length (layout fs.next_block content) ≤ fs.nblocks) where
  abbrev bufs : List (List ℕ)
  bufs = layout fs.next_block content

  abbrev ino₁ : Inode
  ino₁ = filled fs.next_block content ino

  abbrev fs₁ : Fs
  fs₁ = record (store_all bufs fs) { inodes = update (store_all bufs fs).inodes ino.num ino₁ }

  valid₁ : IsValid (store_all bufs fs)
  valid₁ = store_all-IsValid bufs fs (layout-Fit fs.next_block content few) room s.valid

  thirteen : length ino₁.addr ≡ 13
  thirteen = length-layout_addr fs.next_block content ino.addr ∙ here.sized

  inodes₁ : (n : ℕ) → (store_all bufs fs).inodes n ≡ fs.inodes n
  inodes₁ n = ap {A = Fs} {B = Option Inode} (λ g. g.inodes n) (store_all-rest bufs fs)

  proper₁ :
      (n : ℕ) (i : Inode)
      → fs₁.inodes n ≡ some i
      → (i.num ≡ n) × (length i.addr ≡ 13) × (n < fs.next_ino) × (1 ≤ n)
  proper₁ =
      update-all (λ n i. (i.num ≡ n) × (length i.addr ≡ 13) × (n < fs.next_ino) × (1 ≤ n))
        (store_all bufs fs).inodes ino.num ino₁ (refl, thirteen, here.given, here.positive)
        (λ n i h.
          let q = s.proper n i (sym (inodes₁ n) ∙ h) in (q.num, q.sized, q.given, q.positive))

  sound₁ : Sound fs₁
  sound₁ =
      let same = store_all-rest bufs fs in
      let next = store_all-next_block bufs fs in
      let blocks = ap {A = Fs} {B = ℕ} (λ f. f.nblocks) same in
      let table = ap {A = Fs} {B = ℕ} (λ f. f.iblocks) same in
      let first = ap {A = Fs} {B = ℕ} (λ f. f.first_data) same in
      let slots = ap {A = Fs} {B = ℕ} (λ f. f.ninodes) same in
      let up = ap {A = Fs} {B = ℕ} (λ f. f.next_ino) same in
      let l = s.laid_out in
      record {
        valid = record { sized = valid₁.sized; room = valid₁.room; fresh = valid₁.fresh };
        laid_out = record {
          sized = valid₁.sized;
          table = omega (arith, l.table, first, table);
          slots = omega (arith, l.slots, slots, table);
          data_blocks = omega (arith, l.data_blocks, first, next);
          within = omega (arith, next, blocks, room);
          small = omega (arith, l.small, blocks);
          addressed = λ n i e. (proper₁ n i e).1;
        };
        started = omega (arith, up, s.started);
        numbers = omega (arith, up, slots, s.numbers);
        proper = λ n i e.
            let (num, addr, given, positive) = proper₁ n i e in
            record {
              num = num;
              sized = addr;
              given = omega (arith, up, given);
              positive = positive;
            };
      }

  pub store_data-Stores_at : Stores ino content fs ino₁ fs₁
  store_data-Stores_at =
      let same = store_all-rest bufs fs in
      let fit = layout-Fit fs.next_block content few in
      let first = ap {A = Fs} {B = ℕ} (λ f. f.first_data) same in
      let next = store_all-next_block bufs fs in
      record {
        made = refl;
        sound = sound₁;
        grows = record {
          nblocks = ap {A = Fs} {B = ℕ} (λ f. f.nblocks) same;
          iblocks = ap {A = Fs} {B = ℕ} (λ f. f.iblocks) same;
          first_data = first;
          ninodes = ap {A = Fs} {B = ℕ} (λ f. f.ninodes) same;
          next_block = omega (arith, next);
          next_ino = omega (arith, ap {A = Fs} {B = ℕ} (λ f. f.next_ino) same);
          kept = λ b lt. block-store_all bufs fs b fit room s.valid lt;
        };
        inodes = λ n. ap (λ o. if n == ino.num then some ino₁ else o) (inodes₁ n);
        next_ino = ap {A = Fs} {B = ℕ} (λ f. f.next_ino) same;
        there = λ zeros. record {
          used = rw ==_refl refl;
          size = refl;
          addr = ap (layout_addr fs.next_block content) zeros;
          bounded = few;
          above = omega (arith, first, s.laid_out.data_blocks);
          below = omega (arith, next);
          holds = store_all-HoldsAt bufs fs fit room s.valid;
        };
      }

-- A `store_data` that succeeds on an inode of the table.
pub store_data-Stores :
    (ino : Inode) (content : List ℕ) (fs : Fs) {ino' : Inode} {fs' : Fs}
    → Sound fs
    → Proper fs ino.num ino
    → store_data ino content fs ≡ ok (ino', fs')
    → Stores ino content fs ino' fs'
store_data-Stores ino content fs {ino'} {fs'} s here e =
    let (few, room) = store_data-needs ino content fs ino' fs' e s.laid_out.within in
    let e' = sym (store_data-layout ino content fs s.laid_out.small few room) ∙ e in
    rw (← ok-value _ (ino', fs') e', ← ok-state _ (ino', fs') e')
      (store_data-Stores_at ino content fs s here few room)
