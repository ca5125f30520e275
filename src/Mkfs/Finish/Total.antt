-- ===== src/Mkfs/Finish/Total.antt =====
-- `finish` succeeds when what it packs fits its fields.
use mathlib.Core.Path.{subst}
use mame_sys.Base.{
  ℕ, zero, suc, ◌+◌, ◌-◌, ◌*◌, ◌/◌, ◌^◌, ◌≤◌, ◌<◌, List, [], ◌∷◌, length, All, Option, none, some,
}
use mame_sys.Base.{◌≡◌, refl, sym, ap, ◌∙◌, arith, replicate, splice, take, length-take, le→leb}
use mame_sys.Base.Codec.{pack_fits, pack_signed_fits}
use mame_sys.Base.Result.{◌>>=◌, Succeeds, >>=-Succeeds}
use mame_sys.Mkfs.{Fs, Inode, bsize, nicfree, nicinod, fs_magic, fs_type}
use mame_sys.Mkfs.Layout.{range}
use mame_sys.Mkfs.Inodes.{pack_inode, inode_blob, write_inodes_from, write_inodes}
use mame_sys.Mkfs.Inodes.Table.{write_inodes-Written}
use mame_sys.Mkfs.FreeList.{build_free_list}
use mame_sys.Mkfs.FreeList.Chain.{walk-build_free_list}
use mame_sys.Mkfs.Superblock.{
  pack_into, pack_into_signed, pack_row, pack_sizes, free_inodes, pack_free_inodes, pack_totals,
  pack_names, superblock, write_superblock,
}
use mame_sys.Mkfs.Finish.{finish}
use mame_sys.Mkfs.Finish.Image.{IsLaidOut}

-- The fields of an inode fit where `pack_inode` puts them.
pub record InodeFits (ino : Inode) : Type 0 where
  pub mode : ino.mode < 2 ^ 16
  pub nlink : ino.nlink < 2 ^ 15
  pub uid : ino.uid < 2 ^ 16
  pub gid : ino.gid < 2 ^ 16
  pub size : ino.size < 2 ^ 32

abbrev pub UsedFit : (ℕ → Option Inode) → Type 0
UsedFit inodes = (n : ℕ) (ino : Inode) → inodes n ≡ some ino → InodeFits ino

-- All that goes into the image fits its fields.
pub record FsFits (fs : Fs) : Type 0 where
  pub inodes : UsedFit fs.inodes
  pub time : fs.now < 2 ^ 32
  pub table : fs.iblocks + 2 < 2 ^ 16
  pub numbers : fs.ninodes < 2 ^ 16
  pub used : fs.next_ino ≤ fs.ninodes + 1
  pub started : 1 ≤ fs.next_ino

pack_inode-Succeeds :
    (ino : Inode) (now : ℕ) → InodeFits ino → now < 2 ^ 32 → Succeeds (pack_inode ino now)
unfolding pack_inode
pack_inode-Succeeds ino now f h =
    rw
      (
        pack_fits 2 ino.mode f.mode,
        pack_signed_fits 2 ino.nlink f.nlink,
        pack_fits 2 ino.uid f.uid,
        pack_fits 2 ino.gid f.gid,
        pack_fits 4 ino.size f.size,
        pack_fits 4 now h,
      )
      (_, refl)

inode_blob-Succeeds :
    (o : Option Inode) (now : ℕ)
    → ((ino : Inode) → o ≡ some ino → InodeFits ino)
    → now < 2 ^ 32
    → Succeeds (inode_blob o now)
unfolding inode_blob
inode_blob-Succeeds none now f h = (_, refl)
inode_blob-Succeeds (some ino) now f h = pack_inode-Succeeds ino now (f ino refl) h

write_inodes_from-Succeeds :
    (k n : ℕ) (fs : Fs) → UsedFit fs.inodes → fs.now < 2 ^ 32 → Succeeds (write_inodes_from k n fs)
unfolding write_inodes_from
write_inodes_from-Succeeds zero n fs f h = (_, refl)
write_inodes_from-Succeeds (suc k) n fs f h =
    >>=-Succeeds (inode_blob (fs.inodes n) fs.now) _
      (inode_blob-Succeeds (fs.inodes n) fs.now (f n) h)
      (λ blob _.
        write_inodes_from-Succeeds k (n + 1)
          (record fs { image = splice fs.image (2 * bsize + (n - 1) * 64) blob }) f h)

pack_into-Succeeds : (w off v : ℕ) (sb : List ℕ) → v < 256 ^ w → Succeeds (pack_into w off v sb)
unfolding pack_into
pack_into-Succeeds w off v sb h = rw (pack_fits w v h) (_, refl)

pack_into_signed-Succeeds :
    (w off v : ℕ) (sb : List ℕ) → v < 256 ^ w / 2 → Succeeds (pack_into_signed w off v sb)
unfolding pack_into_signed
pack_into_signed-Succeeds w off v sb h = rw (pack_signed_fits w v h) (_, refl)

pack_row-Succeeds :
    (w off : ℕ) (xs sb : List ℕ) → All (λ x. x < 256 ^ w) xs → Succeeds (pack_row w off xs sb)
unfolding pack_row
pack_row-Succeeds w off [] sb h = (_, refl)
pack_row-Succeeds w off (x ∷ xs) sb h =
    >>=-Succeeds (pack_into w off x sb) _ (pack_into-Succeeds w off x sb h.0)
      (λ sb' _. pack_row-Succeeds w (off + w) xs sb' h.1)

range-All : (n lo k : ℕ) → lo + k ≤ n → All (λ x. x < n) (range lo k)
unfolding range
range-All n lo zero h = tt
range-All n lo (suc k) h = (omega arith, range-All n (lo + 1) k (omega arith))

take-All : (n k : ℕ) (xs : List ℕ) → All (λ x. x < n) xs → All (λ x. x < n) (take k xs)
unfolding take
take-All n zero xs h = tt
take-All n (suc k) [] h = tt
take-All n (suc k) (x ∷ xs) h = (h.0, take-All n k xs h.1)

module _ (fs : Fs) (f : FsFits fs) (small : fs.nblocks < 2 ^ 32) (few : fs.nfree ≤ nicfree)
    (counted : fs.tfree ≤ fs.nblocks) (free : All (λ x. x < 2 ^ 32) fs.free) where
  pack_sizes-Succeeds : (sb : List ℕ) → Succeeds (pack_sizes fs sb)
  unfolding pack_sizes
  pack_sizes-Succeeds sb =
      >>=-Succeeds (pack_into 2 0 (fs.iblocks + 2) sb) _
        (pack_into-Succeeds 2 0 (fs.iblocks + 2) sb f.table)
        λ sb₁ _.
          >>=-Succeeds (pack_into 4 4 fs.nblocks sb₁) _
            (pack_into-Succeeds 4 4 fs.nblocks sb₁ small)
            λ sb₂ _.
              >>=-Succeeds (pack_into_signed 2 8 fs.nfree sb₂) _
                (pack_into_signed-Succeeds 2 8 fs.nfree sb₂ (omega arith))
                λ sb₃ _. pack_row-Succeeds 4 12 fs.free sb₃ free

  pack_free_inodes-Succeeds : (sb : List ℕ) → Succeeds (pack_free_inodes (free_inodes fs) sb)
  unfolding pack_free_inodes free_inodes
  pack_free_inodes-Succeeds sb =
      let all = range fs.next_ino (fs.ninodes + 1 - fs.next_ino) in
      >>=-Succeeds (pack_into_signed 2 212 (length (take nicinod all)) sb) _
        (pack_into_signed-Succeeds 2 212 (length (take nicinod all)) sb
          (omega (arith, length-take nicinod all)))
        λ sb₁ _. pack_row-Succeeds 2 214 (take nicinod all) sb₁ (
          take-All (2 ^ 16) nicinod all (
            range-All (2 ^ 16) fs.next_ino (fs.ninodes + 1 - fs.next_ino)
              (omega (arith, f.numbers, f.used))))

  pack_totals-Succeeds : (sb : List ℕ) → Succeeds (pack_totals fs sb)
  unfolding pack_totals
  pack_totals-Succeeds sb =
      >>=-Succeeds (pack_into 4 420 fs.now sb) _ (pack_into-Succeeds 4 420 fs.now sb f.time)
        λ sb₁ _.
          >>=-Succeeds (pack_into 4 432 fs.tfree sb₁) _
            (pack_into-Succeeds 4 432 fs.tfree sb₁ (omega arith))
            λ sb₂ _. rw (le→leb fs.next_ino (fs.ninodes + 1) f.used) (
              pack_into-Succeeds 2 436 (fs.ninodes + 1 - fs.next_ino) sb₂
                (omega (arith, f.numbers, f.started)))

  pack_names-Succeeds : (sb : List ℕ) → Succeeds (pack_names sb)
  unfolding pack_names
  pack_names-Succeeds sb =
      >>=-Succeeds (pack_into 4 504 fs_magic _) _
        (pack_into-Succeeds 4 504 fs_magic _ (omega arith))
        λ sb₁ _. pack_into-Succeeds 4 508 fs_type sb₁ (omega arith)

  superblock-Succeeds : Succeeds (superblock fs)
  unfolding superblock
  superblock-Succeeds =
      >>=-Succeeds (pack_sizes fs (replicate 512 0)) _ (pack_sizes-Succeeds (replicate 512 0))
        λ sb₁ _.
          >>=-Succeeds (pack_free_inodes (free_inodes fs) sb₁) _ (pack_free_inodes-Succeeds sb₁)
            λ sb₂ _.
              >>=-Succeeds (pack_totals fs sb₂) _ (pack_totals-Succeeds sb₂)
                λ sb₃ _. pack_names-Succeeds sb₃

module _ (fs : Fs) (v : IsLaidOut fs) (f : FsFits fs) where
  finish_rest-Succeeds :
      (img : List ℕ)
      → length img ≡ fs.nblocks * bsize
      → Succeeds
          (build_free_list (record fs { image = img }) >>= (λ freed. write_superblock freed.1))
  unfolding write_superblock
  finish_rest-Succeeds img h =
      let (fs₂, built, _, tfree, _, at_most, _, small, _, _, same) =
        walk-build_free_list (record fs { image = img }) (omega (arith, v.data_blocks, v.table))
          v.within (omega (arith, v.small)) h in
      let f₂ : FsFits fs₂ = subst FsFits (sym same) (record {
        inodes = f.inodes;
        time = f.time;
        table = f.table;
        numbers = f.numbers;
        used = f.used;
        started = f.started;
      }) in
      let blocks : fs₂.nblocks ≡ fs.nblocks = ap {A = Fs} {B = ℕ} (λ g. g.nblocks) same in
      let packed =
        superblock-Succeeds fs₂ f₂ (omega (arith, v.small)) at_most (omega arith) small in
      rw (built, ◌>>=◌) (>>=-Succeeds (superblock fs₂) _ packed (λ sb _. (_, refl)))

  -- The end of `build` succeeds on an object that is laid out and whose fields fit the image's.
  pub finish-Succeeds : Succeeds (finish fs)
  unfolding finish write_inodes
  finish-Succeeds =
      >>=-Succeeds (write_inodes fs) _ (write_inodes_from-Succeeds fs.ninodes 1 fs f.inodes f.time)
        (λ fs₁ e.
          let w =
            write_inodes-Written fs
              (omega (arith, v.sized, v.table, v.slots, v.data_blocks, v.within)) v.addressed e in
          subst (λ g. Succeeds (build_free_list g >>= (λ freed. write_superblock freed.1)))
            (sym w.rest) (finish_rest-Succeeds fs₁.image (w.sized ∙ v.sized)))
