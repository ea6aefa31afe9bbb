-- ===== src/Lsf/Document.antt =====
-- src/lsf.h: `LsfString` and `LsfDocument`, and the fields of the metadata.
use bg3le.Common.{ℕ, ◌+◌, Bool, List, take, drop, leb, if◌then◌else◌, get_or}
use bg3le.Common.Bytes.{le_value}

pub record LsfString : Type 0 where
  pub offset : ℕ
  pub length : ℕ
  pub attribute : List ℕ

pub record LsfDocument : Type 0 where
  pub prefix : List ℕ
  pub metadata_at : ℕ
  pub version : ℕ
  pub has_keys : Bool
  pub strings : List ℕ
  pub nodes : List ℕ
  pub attributes : List ℕ
  pub values : List ℕ
  pub keys : List ℕ
  pub string_values : List LsfString

-- `u32(p + at)`
abbrev pub u32 : List ℕ → ℕ → ℕ
u32 p at = le_value (take 4 (drop at p))

-- The sizes of the sections, uncompressed (`u`) and on disk (`d`), the flags and the format.
pub record Metadata : Type 0 where
  pub su : ℕ
  pub sd : ℕ
  pub ku : ℕ
  pub kd : ℕ
  pub nu : ℕ
  pub nd : ℕ
  pub au : ℕ
  pub ad : ℕ
  pub vu : ℕ
  pub vd : ℕ
  pub flags : ℕ
  pub format : ℕ

-- The metadata `m`, which has the keys' sizes from version 6 on.
unfoldable pub metadata : ℕ → List ℕ → Metadata
metadata version m =
    if leb 6 version
    then record {
      su = u32 m 0;
      sd = u32 m 4;
      ku = u32 m 8;
      kd = u32 m 12;
      nu = u32 m 16;
      nd = u32 m 20;
      au = u32 m 24;
      ad = u32 m 28;
      vu = u32 m 32;
      vd = u32 m 36;
      flags = get_or m 40 0;
      format = u32 m 44;
    }
    else record {
      su = u32 m 0;
      sd = u32 m 4;
      ku = 0;
      kd = 0;
      nu = u32 m 8;
      nd = u32 m 12;
      au = u32 m 16;
      ad = u32 m 20;
      vu = u32 m 24;
      vd = u32 m 28;
      flags = get_or m 32 0;
      format = u32 m 36;
    }

abbrev pub metadata_place : ℕ → ℕ
metadata_place version = 8 + (if leb 5 version then 8 else 4)

abbrev pub metadata_size : ℕ → ℕ
metadata_size version = if leb 6 version then 48 else 40
