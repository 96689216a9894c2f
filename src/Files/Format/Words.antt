-- ===== src/Files/Format/Words.antt =====
-- The super block on the disk, as `mkfs` of fs/fs.c writes it and `read_super_block` reads it.
use mini_operate_system.Prelude.{
  ℕ, zero, suc, ◌+◌, ◌*◌, ◌^◌, ◌≤◌, ◌<◌, ◌≡◌, ◌∙◌, refl, arith, List, [], ◌∷◌, length, get_or,
}
use mini_operate_system.Files.Disk.{SuperBlock, get32, put32}
use mini_operate_system.Files.Inodes.Roundtrip.{get32-put32, get32-outside}
use mini_operate_system.Files.Format.{super_block_words, put_words, load_super_block}

get32-put_words_below :
    (ws : List ℕ) (at i : ℕ) (b : ℕ → ℕ) → i + 4 ≤ at → get32 (put_words at ws b) i ≡ get32 b i
unfolding put_words
get32-put_words_below [] at i b le = refl
get32-put_words_below (w ∷ ws) at i b le =
    get32-put_words_below ws (at + 4) i (put32 w at b) (omega arith)
    ∙ get32-outside w at i b (omega arith)

-- Word `k` is read back from its place, if it fits 32 bits.
pub get32-put_words :
    (ws : List ℕ) (at k : ℕ) (b : ℕ → ℕ)
    → k < length ws
    → get_or ws k 0 < 2 ^ 32
    → get32 (put_words at ws b) (at + 4 * k) ≡ get_or ws k 0
unfolding put_words
get32-put_words [] at k b lt fits = absurd (omega arith)
get32-put_words (w ∷ ws) at zero b lt fits =
    let here_too : at + 4 * 0 ≡ at = omega arith in
    rw (here_too)
      (get32-put_words_below ws (at + 4) at (put32 w at b) (omega arith) ∙ get32-put32 w at b fits)
get32-put_words (w ∷ ws) at (suc k) b lt fits =
    let next : at + 4 * suc k ≡ at + 4 + 4 * k = omega arith in
    rw (next) (get32-put_words ws (at + 4) k (put32 w at b) (omega arith) fits)

-- Every field fits its 32 bits.
abbrev pub IsStorable : SuperBlock → Type 0
IsStorable sb = (k : ℕ) → k < 14 → get_or (super_block_words sb) k 0 < 2 ^ 32

-- What `mkfs` writes of a super block, `read_super_block` reads back: all 14 fields, if each fits 32
-- bits; the device is the one that it is read from.
pub super_block-roundtrip :
    (sb : SuperBlock) (b : ℕ → ℕ) (dev : ℕ)
    → IsStorable sb
    → load_super_block (put_words 0 (super_block_words sb) b) dev ≡ record sb { sb_dev = dev }
unfolding load_super_block super_block_words
super_block-roundtrip sb b dev fits =
    let word =
      λ (k : ℕ) (lt : k < 14). get32-put_words (super_block_words sb) 0 k b lt (fits k lt) in
    rw
      (
        word 0 (omega arith),
        word 1 (omega arith),
        word 2 (omega arith),
        word 3 (omega arith),
        word 4 (omega arith),
        word 5 (omega arith),
        word 6 (omega arith),
        word 7 (omega arith),
        word 8 (omega arith),
        word 9 (omega arith),
        word 10 (omega arith),
        word 11 (omega arith),
        word 12 (omega arith),
        word 13 (omega arith),
      )
      refl

get32-same :
    (a b : ℕ → ℕ) (i : ℕ) → ((j : ℕ) → j < 56 → a j ≡ b j) → i + 4 ≤ 56 → get32 a i ≡ get32 b i
unfolding get32
get32-same a b i same le =
    rw
      (
        same i (omega arith),
        same (i + 1) (omega arith),
        same (i + 2) (omega arith),
        same (i + 3) (omega arith),
      )
      refl

-- The super block depends on its 56 bytes only.
pub load_super_block-same :
    (a b : ℕ → ℕ) (dev : ℕ)
    → ((j : ℕ) → j < 56 → a j ≡ b j)
    → load_super_block a dev ≡ load_super_block b dev
unfolding load_super_block
load_super_block-same a b dev same =
    let word = λ (i : ℕ) (le : i + 4 ≤ 56). get32-same a b i same le in
    rw
      (
        word 0 (omega arith),
        word 4 (omega arith),
        word 8 (omega arith),
        word 12 (omega arith),
        word 16 (omega arith),
        word 20 (omega arith),
        word 24 (omega arith),
        word 28 (omega arith),
        word 32 (omega arith),
        word 36 (omega arith),
        word 40 (omega arith),
        word 44 (omega arith),
        word 48 (omega arith),
        word 52 (omega arith),
      )
      refl
