-- ===== src/Mkfs/Fresh.antt =====
-- The object that `Fs(nblocks, ninodes)` of tools/mkfs.py makes.
use mame_sys.Base.{
  ℕ, ◌+◌, ◌-◌, ◌*◌, ◌/◌, ◌^◌, ◌≤◌, ◌<◌, ◌≡◌, refl, ap, ◌∙◌, arith, replicate, length-replicate,
}
use mame_sys.Base.{slice_lem, take, drop-replicate, take-replicate}
use mame_sys.Mkfs.{new_fs, bsize, inopb}
use mame_sys.Mkfs.Blocks.{IsValid, block}
use mame_sys.Mkfs.Finish.Image.{IsLaidOut}
use mame_sys.Mkfs.Finish.Total.{FsFits}

block-zeros : (n b : ℕ) → b < n → block (replicate (n * bsize) 0) b ≡ replicate bsize 0
block-zeros n b h =
    slice_lem (replicate (n * bsize) 0) (b * bsize) bsize
    ∙ ap (take bsize) (drop-replicate {A = ℕ} (b * bsize) (n * bsize) 0)
    ∙ take-replicate {A = ℕ} bsize (n * bsize - b * bsize) 0 (omega arith)

-- `Fs(nblocks, ninodes)` with at least one inode, room for the table of inodes, at most 2 ^ 24
-- blocks, fewer than 2 ^ 16 - 16 inodes and a 32-bit time makes an object with an image of its
-- size, all zeros, which is laid out and whose numbers fit the fields of the image.
pub new_fs-IsValid :
    (nblocks ninodes now : ℕ)
    → (ninodes + 15) / 16 + 2 ≤ nblocks
    → nblocks ≤ 2 ^ 24
    → 1 ≤ ninodes
    → ninodes < 2 ^ 16 - 16
    → now < 2 ^ 32
    → IsValid (new_fs nblocks ninodes now)
      × IsLaidOut (new_fs nblocks ninodes now)
      × FsFits (new_fs nblocks ninodes now)
unfolding new_fs
new_fs-IsValid nblocks ninodes now room small some_inodes few time =
    let less : ninodes + 16 - 1 ≡ ninodes + 15 = omega arith in
    let rounds : (ninodes + inopb - 1) / inopb ≡ (ninodes + 15) / 16 = ap (λ k. k / 16) less in
    let per : (ninodes + inopb - 1) / inopb * inopb ≡ (ninodes + 15) / 16 * 16 =
      ap (λ k. k / 16 * 16) less in
    (
      record {
        sized = length-replicate {A = ℕ} (nblocks * bsize) 0;
        room = omega (arith, rounds, per);
        fresh = λ b lo hi. block-zeros nblocks b hi;
      },
      record {
        sized = length-replicate {A = ℕ} (nblocks * bsize) 0;
        table = refl;
        slots = refl;
        data_blocks = omega (arith, rounds, per);
        within = omega (arith, rounds, per);
        small = small;
        addressed = λ n ino e. absurd (cc);
      },
      record {
        inodes = λ n ino e. absurd (cc);
        time = time;
        table = omega (arith, rounds, per);
        numbers = omega (arith, rounds, per);
        used = omega (arith, rounds, per);
        started = omega (arith, rounds, per);
      },
    )
