-- ===== src/Parser.antt =====
-- The parser module, parser/: its data.
pub mod ScanBuf
pub mod TexTr
mod Tests
use opmes.Base.{ℕ, List}

-- MAX_TEX_TR_LEAVES and MAX_TEX_TR_DEPTH of common/config.h.
abbrev pub max_tex_tr_leaves : ℕ
max_tex_tr_leaves = 256

abbrev pub max_tex_tr_depth : ℕ
max_tex_tr_depth = 21

-- A branch word, `struct brw` of parser/brw.h: what a leaf-root path keeps beside its directory.
-- Both arrays begin at the leaf and have a 0 after their last entry; the first fan is the number of
-- grouped leaves.
pub record Brw : Type 0 where
  pub symbol_id : ℕ
  pub pin : List ℕ
  pub fan : List ℕ

-- `struct subpath`: the directory of a leaf-root path, as a string without its NUL, and its branch
-- word.
pub record Subpath : Type 0 where
  pub dir : List ℕ
  pub brw : Brw
