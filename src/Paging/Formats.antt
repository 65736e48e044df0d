-- ===== src/Paging/Formats.antt =====
-- What the walk relies on in the functions of asm/page.h and in the level shifts. The children show
-- that the three architectures have it.
pub mod Sv39
pub mod X86
pub mod Aarch64
use zonix_plus.Base.{Bool, false, suc, true, ℕ, ◌%◌, ◌*◌, ◌+◌, ◌-◌, ◌/◌, ◌<◌, ◌^◌, ◌≡◌}
use zonix_plus.Paging.{Format, block_base, page_bytes, split_entries}

-- The pages below `page_limit` have addresses that fit an entry.
pub record IsFormat (f : Format) (page_limit : ℕ) : Type 0 where
  pub depth : 0 < f.levels
  pub shift_top : (va : ℕ) → va < f.user_top → va / 2 ^ f.shift 0 < 512
  pub shift_next :
      (level va : ℕ)
      → suc level < f.levels
      → va / 2 ^ f.shift level ≡ va / 2 ^ f.shift (suc level) / 512
  pub shift_rest :
      (level va : ℕ)
      → suc level < f.levels
      → va % 2 ^ f.shift level
        ≡ va / 2 ^ f.shift (suc level) % 512 * 2 ^ f.shift (suc level)
          + va % 2 ^ f.shift (suc level)
  pub shift_last : 2 ^ f.shift (f.levels - 1) ≡ page_bytes
  pub zero_absent : f.present 0 ≡ false
  pub table_present : (p : ℕ) → p < page_limit → f.present (f.make_table (p * page_bytes)) ≡ true
  pub table_is_block : (p : ℕ) → p < page_limit → f.is_block (f.make_table (p * page_bytes)) ≡ false
  pub table_addr :
      (p : ℕ) → p < page_limit → f.addr (f.make_table (p * page_bytes)) ≡ p * page_bytes
  pub table_open :
      (p : ℕ) (write : Bool)
      → p < page_limit
      → f.table_accessible (f.make_table (p * page_bytes)) write ≡ true
  pub page_present :
      (p perm : ℕ) → p < page_limit → f.present (f.make_page (p * page_bytes) perm) ≡ true
  pub page_addr :
      (p perm : ℕ) → p < page_limit → f.addr (f.make_page (p * page_bytes) perm) ≡ p * page_bytes
  pub split_present :
      (level e i : ℕ)
      → suc level < f.levels
      → i < 512
      → f.present e ≡ true
      → f.present (split_entries f level e i) ≡ true
  pub split_is_block :
      (level e i : ℕ)
      → suc (suc level) < f.levels
      → i < 512
      → f.is_block e ≡ true
      → f.is_block (split_entries f level e i) ≡ true
  pub split_accessible :
      (level e i : ℕ) (write : Bool)
      → suc level < f.levels
      → i < 512
      → f.present e ≡ true
      → f.is_block e ≡ true
      → f.user_accessible (split_entries f level e i) write ≡ f.user_accessible e write
  pub split_base :
      (level e i : ℕ)
      → suc level < f.levels
      → i < 512
      → block_base f (suc level) (split_entries f level e i)
        ≡ block_base f level e + i * 2 ^ f.shift (suc level)
