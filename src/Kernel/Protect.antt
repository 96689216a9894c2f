-- ===== src/Kernel/Protect.antt =====
-- The segment descriptors of include/protect.h and kernel/protect.c, and the address arithmetic
-- of include/page.h. A field of w bits holds a number below 2 ^ w: `& 0xFFFF` is `% 2 ^ 16` and
-- `>> k` is `/ 2 ^ k`, as the shifted values are unsigned.
pub mod Gates
use mini_operate_system.Prelude.{ℕ, ◌+◌, ◌*◌, ◌/◌, ◌%◌, ◌^◌, ◌≡◌, ◌<◌, arith}

-- `DESCRIPTOR`.
pub record Descriptor : Type 0 where
  pub limit_low : ℕ
  pub base_low : ℕ
  pub base_mid : ℕ
  pub attr1 : ℕ
  pub limit_high_attr2 : ℕ
  pub base_high : ℕ

-- `init_descriptor`. The `|` of `limit_high_attr2` joins bits 0 to 3 with bits 4 to 7, so it is a
-- sum: `(attribute >> 8) & 0xF0` keeps bits 12 to 15 of the attribute.
unfoldable pub init_descriptor : ℕ → ℕ → ℕ → Descriptor
init_descriptor base limit attribute = record {
  limit_low = limit % 2 ^ 16;
  base_low = base % 2 ^ 16;
  base_mid = base / 2 ^ 16 % 2 ^ 8;
  attr1 = attribute % 2 ^ 8;
  limit_high_attr2 = limit / 2 ^ 16 % 2 ^ 4 + attribute / 2 ^ 12 % 2 ^ 4 * 2 ^ 4;
  base_high = base / 2 ^ 24 % 2 ^ 8;
}

-- The sum of `ldt_proc_id2base`, in u32.
unfoldable pub descriptor_base : Descriptor → ℕ
descriptor_base d = (d.base_high * 2 ^ 24 + d.base_mid * 2 ^ 16 + d.base_low) % 2 ^ 32

-- `vir2linear`, in u32.
unfoldable pub vir2linear : ℕ → ℕ → ℕ
vir2linear seg_base vir = (seg_base + vir) % 2 ^ 32

-- The 20-bit limit that the processor reads from a descriptor.
unfoldable pub descriptor_limit : Descriptor → ℕ
descriptor_limit d = d.limit_low + d.limit_high_attr2 % 2 ^ 4 * 2 ^ 16

-- A descriptor that `init_descriptor` fills in gives back every 32-bit base by the computation of
-- `ldt_proc_id2base`, every 20-bit limit, and the attribute bits 0 to 7 and 12 to 15.
pub descriptor-roundtrip :
    (base limit attribute : ℕ)
    → base < 2 ^ 32
    → limit < 2 ^ 20
    → let d = init_descriptor base limit attribute in
      (descriptor_base d ≡ base)
      × (descriptor_limit d ≡ limit)
      × (d.attr1 ≡ attribute % 2 ^ 8)
      × (d.limit_high_attr2 / 2 ^ 4 ≡ attribute / 2 ^ 12 % 2 ^ 4)
unfolding init_descriptor descriptor_base descriptor_limit
descriptor-roundtrip base limit attribute hb hl = omega arith
