-- ===== src/Rpgb/Oid.antt =====
-- The type oids of pg-binary-decode.ts and pg-binary-encode.ts.
use mtdd.Prelude.{ℕ}

abbrev pub bool : ℕ
bool = 16

abbrev pub bytea : ℕ
bytea = 17

abbrev pub int8 : ℕ
int8 = 20

abbrev pub int2 : ℕ
int2 = 21

abbrev pub int4 : ℕ
int4 = 23

abbrev pub float4 : ℕ
float4 = 700

abbrev pub float8 : ℕ
float8 = 701

abbrev pub date : ℕ
date = 1082

abbrev pub timestamp : ℕ
timestamp = 1114

abbrev pub timestamptz : ℕ
timestamptz = 1184

abbrev pub numeric : ℕ
numeric = 1700

abbrev pub uuid : ℕ
uuid = 2950
