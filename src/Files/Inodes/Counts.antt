-- ===== src/Files/Inodes/Counts.antt =====
-- The reference counts that `get_inode` and `put_inode` of fs/open.c keep.
use mini_operate_system.Prelude.{
  ℕ, zero, suc, ◌+◌, ◌-◌, ◌<◌, ◌≡◌, ◌≢◌, refl, sym, ap, fun_ext, ◌∙◌, inl, inr, arith, true, false,
  ◌&&◌, ◌==◌, ltb, Option, none, some, update, Bool-cases, if◌then◌else◌,
}
use mini_operate_system.Files.Disk.{Inode, FileSystem, ◌>>=◌, ◌>>◌}
use mini_operate_system.Files.Inodes.{held, find_inode, nr_inode, get_inode, put_inode}

-- The search finds an inode in use with the device and the number.
pub record IsHeld (dev num : ℕ) (i : Inode) : Type 0 where
  pub in_use : 0 < i.i_cnt
  pub device : i.i_dev ≡ dev
  pub number : i.i_num ≡ num

pub find_inode-IsHeld :
    (n p : ℕ) (q : Option ℕ) (dev num : ℕ) (t : ℕ → Inode) (r : ℕ)
    → find_inode n p q dev num t ≡ held r
    → IsHeld dev num (t r)
unfolding find_inode
find_inode-IsHeld zero p q dev num t r e = cc
find_inode-IsHeld (suc n) p q dev num t r e = elim (Bool-cases (ltb 0 (t p).i_cnt)) [
  | inr unused ↦
      find_inode-IsHeld n (suc p) (elim q [ some i ↦ some i | none ↦ some p ]) dev num t r
        (sym (rw (find_inode, unused) refl) ∙ e)
  | inl used ↦ elim (Bool-cases (((t p).i_dev == dev) && ((t p).i_num == num))) [
    | inr other ↦
        find_inode-IsHeld n (suc p) q dev num t r (sym (rw (find_inode, used, other) refl) ∙ e)
    | inl same ↦
        let here : find_inode (suc n) p q dev num t ≡ held p = rw (find_inode, used, same) refl in
        let f = sym here ∙ e in
        let at : p ≡ r = ground arith in
        rw (← at) (record { in_use = ground arith; device = ground arith; number = ground arith })
  ]
]

pub put_back :
    (f : ℕ → Inode) (r j : ℕ)
    → let t = update f r (record (f r) { i_cnt = (f r).i_cnt + 1 }) in
      update t r (record (t r) { i_cnt = (t r).i_cnt - 1 }) j ≡ f j
put_back f r j = elim (Bool-cases (r == j)) [
  | inl own ↦ let e : r ≡ j = ground arith in ground arith
  | inr ne ↦ rw ne (ground arith)
]

-- `get_inode` of a number other than 0 that the inode table holds gives the inode in the table, and
-- `put_inode` of it leaves the file system exactly as it was before the two calls.
pub get_inode-put_inode :
    (s : FileSystem) (dev num r : ℕ)
    → num ≢ 0
    → find_inode nr_inode 0 none dev num s.inode_table ≡ held r
    → IsHeld dev num (s.inode_table r)
      × (s' : FileSystem) × (get_inode dev num s ≡ some (some r, s'))
      × ((s'.inode_table r).i_cnt ≡ (s.inode_table r).i_cnt + 1)
      × (put_inode r s' ≡ some (tt, s))
unfolding get_inode put_inode
get_inode-put_inode s dev num r some_number found =
    let h = find_inode-IsHeld nr_inode 0 none dev num s.inode_table r found in
    let nonzero : (num == 0) ≡ false = ground arith in
    let self : (r == r) ≡ true = ground arith in
    let i = s.inode_table r in
    let t = update s.inode_table r (record i { i_cnt = i.i_cnt + 1 }) in
    let count : (t r).i_cnt ≡ i.i_cnt + 1 = ground arith in
    let used : ltb 0 (t r).i_cnt ≡ true = rw count (ground arith) in
    (
      h,
      record s { inode_table = t },
      rw (nonzero, if◌then◌else◌, ◌>>=◌, found, ◌>>◌) refl,
      count,
      rw (put_inode, used)
          (ap (λ (t : ℕ → Inode). some (tt, record s { inode_table = t }))
            (fun_ext (λ j. put_back s.inode_table r j))),
    )
