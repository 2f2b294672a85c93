-- ===== src/Exits/Geography/Row.antt =====
-- One row of the countries table (modules/exits/geography.go).
use Prim.Native.String.{String}

pub record Country : Type 0 where
  pub name : String
  pub continent : String
  pub sub_region : String
  pub intermediate_region : String

abbrev pub row : String → String → String → String → String → String × Country
row code name continent sub_region intermediate_region = (
  code,
  record {
    name = name;
    continent = continent;
    sub_region = sub_region;
    intermediate_region = intermediate_region;
  },
)
