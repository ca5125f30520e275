-- ===== src/S5/Inodes.antt =====
-- `S5.inode` reads back the inodes that `Fs.write_inodes` packed.
use mame_sys.Base.{ℕ, ◌+◌, ◌-◌, ◌*◌, ◌^◌, ◌≤◌, ◌<◌, List, [], ◌∷◌, ◌++◌, length, All}
use mame_sys.Base.{
  ◌≡◌, refl, sym, ap, ◌∙◌, arith, le→leb, lt→ltb, append_assoc, append-nil, take, drop, slice,
}
use mame_sys.Base.{length-append, take-append_left, drop-append_left}
use mame_sys.Base.Codec.{le, length-le, from_le, from_le-le, pos}
use mame_sys.Base.Result.{ok, ◌>>=◌}
use mame_sys.Mkfs.{Inode, bsize}
use mame_sys.Mkfs.Inodes.{ljust, address_bytes}
use mame_sys.Mkfs.Inodes.Table.{Packed, slot, length-address_bytes}
use mame_sys.S5.{Entry, addresses, inode}

-- What the reader should make of an inode.
abbrev pub entry_of : Inode → Entry
entry_of ino = record {
  mode = ino.mode;
  nlink = pos ino.nlink;
  uid = ino.uid;
  gid = ino.gid;
  size = ino.size;
  blk = ino.addr;
}

abbrev pub Addresses : List ℕ → Type 0
Addresses = All (λ a. a < 2 ^ 24)

addresses-address_bytes :
    (addr rest : List ℕ)
    → Addresses addr
    → addresses (length addr) (address_bytes addr ++ rest) ≡ ok addr
unfolding addresses address_bytes
addresses-address_bytes [] rest h = refl
addresses-address_bytes (a ∷ addr) rest h =
    let tail = address_bytes addr ++ rest in
    let bytes : (le 3 a ++ address_bytes addr) ++ rest ≡ le 3 a ++ tail =
      append_assoc (le 3 a) (address_bytes addr) rest in
    let enough : 3 ≤ length (le 3 a ++ tail) =
      omega (arith, length-append (le 3 a) tail, length-le 3 a) in
    rw
      (
        bytes,
        le→leb 3 (length (le 3 a ++ tail)) enough,
        take-append_left 3 (le 3 a) tail (sym (length-le 3 a)),
        drop-append_left 3 (le 3 a) tail (sym (length-le 3 a)),
        addresses-address_bytes addr rest h.1,
        ◌>>=◌,
      )
      (ap (λ x. ok (x ∷ addr)) (from_le-le 3 a h.0))

take-ljust :
    (addr times : List ℕ)
    → length addr ≡ 13
    → take 39 (ljust (address_bytes addr) 40 ++ times) ≡ address_bytes addr
unfolding ljust
take-ljust addr times h =
    let bytes = address_bytes addr in
    rw (append_assoc bytes) (take-append_left 39 bytes _ (omega (arith, length-address_bytes addr)))

-- The fields of a packed inode, each at its place.
module _ (ino : Inode) (now : ℕ) (blob : List ℕ) (p : Packed ino now blob) where
  fields :
      (from_le (slice blob 0 2) ≡ ino.mode)
      × (from_le (slice blob 2 2) ≡ ino.nlink)
      × (from_le (slice blob 4 2) ≡ ino.uid)
      × (from_le (slice blob 6 2) ≡ ino.gid)
      × (from_le (slice blob 8 4) ≡ ino.size)
  unfolding le from_le slice take drop
  fields = rw p.bytes (
    from_le-le 2 ino.mode p.mode_fits,
    from_le-le 2 ino.nlink (omega (arith, p.nlink_fits)),
    from_le-le 2 ino.uid p.uid_fits,
    from_le-le 2 ino.gid p.gid_fits,
    from_le-le 4 ino.size p.size_fits,
  )

  address_field :
      length ino.addr ≡ 13 → (slice blob 12 39 ≡ address_bytes ino.addr) × (12 ≤ length blob)
  unfolding le slice drop
  address_field h = rw p.bytes (take-ljust ino.addr _ h, omega arith)

-- The slot that a packed inode stands in reads back as that inode: every field of it, and its 13
-- addresses.
pub inode-Packed :
    (d : List ℕ) (n : ℕ) (ino : Inode) (now : ℕ)
    → 1 ≤ n
    → Packed ino now (slot d n)
    → length ino.addr ≡ 13
    → Addresses ino.addr
    → inode d n ≡ ok (entry_of ino)
unfolding inode
inode-Packed d n ino now h p thirteen small =
    let blob = slot d n in
    let (mode, nlink, uid, gid, size) = fields ino now blob p in
    let (addr, long) = address_field ino now blob p thirteen in
    let off : 2 * bsize + n * 64 - 64 ≡ 2 * bsize + (n - 1) * 64 = omega arith in
    let all : addresses 13 (address_bytes ino.addr) ≡ ok ino.addr =
      ap (λ k. addresses k (address_bytes ino.addr)) (sym thirteen)
      ∙ ap (addresses (length ino.addr)) (sym (append-nil (address_bytes ino.addr)))
      ∙ addresses-address_bytes ino.addr [] small in
    rw (
      off,
      le→leb 12 (length blob) long,
      addr,
      all,
      ◌>>=◌,
      mode,
      nlink,
      uid,
      gid,
      size,
      lt→ltb ino.nlink 32768 p.nlink_fits,
    )
