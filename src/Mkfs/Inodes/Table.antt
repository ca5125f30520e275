-- ===== src/Mkfs/Inodes/Table.antt =====
-- The table that `write_inodes` leaves, slot by slot.
use mame_sys.Base.{
  ℕ, zero, suc, ◌+◌, ◌-◌, ◌*◌, ◌^◌, ◌≤◌, ◌<◌, List, [], ◌∷◌, ◌++◌, length, Option, none, some,
}
use mame_sys.Base.{◌≡◌, ◌⊎◌, inl, inr, refl, ap, ◌∙◌, arith}
use mame_sys.Base.{
  replicate, splice, slice, length-append, length-replicate, length-splice, slice-splice_below,
}
use mame_sys.Base.{slice-splice_above, slice-splice_self, length-slice, append-nil, drop_all}
use mame_sys.Base.Codec.{le, length-le, pack, pack_signed, pack-eq-ok, pack_signed-eq-ok}
use mame_sys.Base.Result.{ok, >>=-eq-ok}
use mame_sys.Mkfs.{Inode, Fs, bsize}
use mame_sys.Mkfs.Inodes.{
  ljust, address_bytes, pack_inode, inode_blob, write_inodes_from, write_inodes,
}
use mame_sys.Mkfs.Blocks.{block}

-- The bytes of a packed inode, and what they need to be in range.
pub record Packed (ino : Inode) (now : ℕ) (blob : List ℕ) : Type 0 where
  pub bytes :
      blob
      ≡ le 2 ino.mode
        ++ (le 2 ino.nlink
            ++ (le 2 ino.uid
                ++ (le 2 ino.gid
                    ++ (le 4 ino.size
                        ++ (ljust (address_bytes ino.addr) 40
                            ++ (le 4 now ++ (le 4 now ++ le 4 now)))))))
  pub mode_fits : ino.mode < 2 ^ 16
  pub nlink_fits : ino.nlink < 2 ^ 15
  pub uid_fits : ino.uid < 2 ^ 16
  pub gid_fits : ino.gid < 2 ^ 16
  pub size_fits : ino.size < 2 ^ 32

pub pack_inode-Packed :
    (ino : Inode) (now : ℕ) {blob : List ℕ} → pack_inode ino now ≡ ok blob → Packed ino now blob
unfolding pack_inode
pack_inode-Packed ino now {blob} h =
    let (mode, e₁, h₁) = >>=-eq-ok (pack 2 ino.mode) _ h in
    let (nlink, e₂, h₂) = >>=-eq-ok (pack_signed 2 ino.nlink) _ h₁ in
    let (uid, e₃, h₃) = >>=-eq-ok (pack 2 ino.uid) _ h₂ in
    let (gid, e₄, h₄) = >>=-eq-ok (pack 2 ino.gid) _ h₃ in
    let (size, e₅, h₅) = >>=-eq-ok (pack 4 ino.size) _ h₄ in
    let (time, e₆, h₆) = >>=-eq-ok (pack 4 now) _ h₅ in
    let (b₁, s₁) = pack-eq-ok 2 ino.mode e₁ in
    let (b₂, s₂) = pack_signed-eq-ok 2 ino.nlink e₂ in
    let (b₃, s₃) = pack-eq-ok 2 ino.uid e₃ in
    let (b₄, s₄) = pack-eq-ok 2 ino.gid e₄ in
    let (b₅, s₅) = pack-eq-ok 4 ino.size e₅ in
    let (b₆, s₆) = pack-eq-ok 4 now e₆ in
    record {
      bytes = cc;
      mode_fits = s₁;
      nlink_fits = s₂;
      uid_fits = s₃;
      gid_fits = s₄;
      size_fits = s₅;
    }

pub length-address_bytes : (addr : List ℕ) → length (address_bytes addr) ≡ length addr * 3
unfolding address_bytes
length-address_bytes [] = refl
length-address_bytes (a ∷ addr) =
    omega
      (arith, length-append (le 3 a) (address_bytes addr), length-le 3 a, length-address_bytes addr)

pub length-ljust : (buf : List ℕ) (n : ℕ) → length buf ≤ n → length (ljust buf n) ≡ n
unfolding ljust
length-ljust buf n h = omega (
  arith,
  length-append buf (replicate (n - length buf) 0),
  length-replicate {A = ℕ} (n - length buf) 0,
)

-- Every inode of the object has its 13 addresses.
abbrev pub Addressed : (ℕ → Option Inode) → Type 0
Addressed inodes = (n : ℕ) (ino : Inode) → inodes n ≡ some ino → length ino.addr ≡ 13

length-inode_blob :
    (o : Option Inode) (now : ℕ) {blob : List ℕ}
    → ((ino : Inode) → o ≡ some ino → length ino.addr ≡ 13)
    → inode_blob o now ≡ ok blob
    → length blob ≡ 64
unfolding inode_blob le
length-inode_blob none now a e = ap length (cc) ∙ length-replicate {A = ℕ} 64 0
length-inode_blob (some ino) now {blob} a e =
    let p = pack_inode-Packed ino now e in
    let body = ljust (address_bytes ino.addr) 40 in
    let times = le 4 now ++ (le 4 now ++ le 4 now) in
    let n =
      length-ljust (address_bytes ino.addr) 40
        (omega (arith, length-address_bytes ino.addr, a ino refl)) in
    rw p.bytes (omega (arith, n, length-append body times))

-- The bytes of inode `n` in the table.
abbrev pub slot : List ℕ → ℕ → List ℕ
slot d n = slice d (2 * bsize + (n - 1) * 64) 64

-- What the rounds for the inodes from `n` to `n + k - 1` do.
pub record Written (fs fs' : Fs) (n k : ℕ) : Type 0 where
  pub rest : fs' ≡ record fs { image = fs'.image }
  pub sized : length fs'.image ≡ length fs.image
  pub outside : (j : ℕ) → 1 ≤ j → (j < n) ⊎ (n + k ≤ j) → slot fs'.image j ≡ slot fs.image j
  pub inside : (j : ℕ) → n ≤ j → j < n + k → inode_blob (fs.inodes j) fs.now ≡ ok (slot fs'.image j)
  pub blocks :
      (b : ℕ)
      → (b < 2) ⊎ (2 * bsize + (n + k - 1) * 64 ≤ b * bsize)
      → block fs'.image b ≡ block fs.image b

-- One round.
abbrev after : Fs → ℕ → List ℕ → Fs
after fs n blob = record fs { image = splice fs.image (2 * bsize + (n - 1) * 64) blob }

module _ (fs : Fs) (n k : ℕ) (h : 1 ≤ n) (room : 2 * bsize + (n + suc k - 1) * 64 ≤ length fs.image)
    (blob : List ℕ) (len : length blob ≡ 64) where
  slot-after_ne :
      (j : ℕ) → 1 ≤ j → (j < n) ⊎ (n < j) → slot (after fs n blob).image j ≡ slot fs.image j
  slot-after_ne j h₁ (inl lt) =
      slice-splice_below fs.image (2 * bsize + (n - 1) * 64) blob (2 * bsize + (j - 1) * 64) 64
        (omega arith) (omega arith)
  slot-after_ne j h₁ (inr gt) =
      slice-splice_above fs.image (2 * bsize + (n - 1) * 64) blob (2 * bsize + (j - 1) * 64) 64
        (omega arith) (omega arith)

  slot-after_self : slot (after fs n blob).image n ≡ blob
  slot-after_self =
      let old = slot fs.image n in
      slice-splice_self fs.image (2 * bsize + (n - 1) * 64) blob 64 (omega arith) (omega arith)
      ∙ ap (λ t. blob ++ t)
          (drop_all (length blob) old
            (omega (arith, length-slice fs.image (2 * bsize + (n - 1) * 64) 64)))
      ∙ append-nil blob

  block-after :
      (b : ℕ)
      → (b < 2) ⊎ (2 * bsize + (n + suc k - 1) * 64 ≤ b * bsize)
      → block (after fs n blob).image b ≡ block fs.image b
  block-after b (inl lt) =
      slice-splice_below fs.image (2 * bsize + (n - 1) * 64) blob (b * bsize) bsize (omega arith)
        (omega arith)
  block-after b (inr ge) =
      slice-splice_above fs.image (2 * bsize + (n - 1) * 64) blob (b * bsize) bsize (omega arith)
        (omega arith)

  length-after : length (after fs n blob).image ≡ length fs.image
  length-after = length-splice fs.image (2 * bsize + (n - 1) * 64) blob (omega arith)

  Written-cons :
      {fs' : Fs}
      → inode_blob (fs.inodes n) fs.now ≡ ok blob
      → Written (after fs n blob) fs' (n + 1) k
      → Written fs fs' n (suc k)
  Written-cons {fs'} e w = record {
    rest = w.rest;
    sized = w.sized ∙ length-after;
    outside = λ j h₁ sides. elim sides [
      | inl lt ↦ w.outside j h₁ (inl (omega arith)) ∙ slot-after_ne j h₁ (inl lt)
      | inr ge ↦ w.outside j h₁ (inr (omega arith)) ∙ slot-after_ne j h₁ (inr (omega arith))
    ];
    inside = λ j lo hi. elim (split j lo) [
      | inl eq ↦ rw (← eq) (rw (w.outside n h (inl (omega arith)) ∙ slot-after_self) e)
      | inr more ↦ w.inside j more (omega arith)
    ];
    blocks = λ b sides. elim sides [
      | inl lt ↦ w.blocks b (inl lt) ∙ block-after b (inl lt)
      | inr ge ↦ w.blocks b (inr (omega arith)) ∙ block-after b (inr ge)
    ];
  }
    where
      split : (j : ℕ) → n ≤ j → (n ≡ j) ⊎ (n + 1 ≤ j)
      split j lo = grind arith

write_inodes_from-Written :
    (k n : ℕ) (fs : Fs) {fs' : Fs}
    → 1 ≤ n
    → 2 * bsize + (n + k - 1) * 64 ≤ length fs.image
    → Addressed fs.inodes
    → write_inodes_from k n fs ≡ ok fs'
    → Written fs fs' n k
unfolding write_inodes_from
write_inodes_from-Written zero n fs {fs'} h room a e =
    let same : fs ≡ fs' = cc in
    rw (← same) (record {
      rest = refl;
      sized = refl;
      outside = λ j h₁ sides. refl;
      inside = λ j lo hi. absurd (omega arith);
      blocks = λ b sides. refl;
    })
write_inodes_from-Written (suc k) n fs h room a e =
    let (blob, e₁, e₂) = >>=-eq-ok (inode_blob (fs.inodes n) fs.now) _ e in
    let len = length-inode_blob (fs.inodes n) fs.now (a n) e₁ in
    let w =
      write_inodes_from-Written k (n + 1) (after fs n blob) (omega arith)
        (omega (arith, length-after fs n k h room blob len)) a e₂ in
    Written-cons fs n k h room blob len e₁ w

-- With room for the table, the rounds succeed if every inode packs.
pub write_inodes-Written :
    (fs : Fs) {fs' : Fs}
    → 2 * bsize + fs.ninodes * 64 ≤ length fs.image
    → Addressed fs.inodes
    → write_inodes fs ≡ ok fs'
    → Written fs fs' 1 fs.ninodes
unfolding write_inodes
write_inodes-Written fs room a e =
    write_inodes_from-Written fs.ninodes 1 fs (omega arith) (omega arith) a e
