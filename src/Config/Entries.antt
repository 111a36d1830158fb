-- ===== src/Config/Entries.antt =====
-- The macros C_STR, C_INT and C_CHR of src/default_config.h, and the macros of src/config.h that read a
-- value.
use Prim.Native.String.{String}
use itmmorgue.Base.{ℕ, Result, ok, stop, undefined, ◌>>=◌, Bytes, codes}
use itmmorgue.Config.Values.{Conf, sval, ival, cval, ℤ}

abbrev pub c_str : String → String → Bytes × Conf
c_str key val = (codes key, sval (codes val))

abbrev pub c_int : String → ℤ → Bytes × Conf
c_int key val = (codes key, ival val)

abbrev pub c_chr : String → ℕ → Bytes × Conf
c_chr key val = (codes key, cval val)

-- `conf(key)` of the configuration that is read.
abbrev pub Lookup : Type 0
Lookup = Bytes → Result Conf

-- CONF_IVAL, CONF_CVAL and CONF_SVAL. A member of the union that was not written has no value here.
abbrev pub conf_ival : Lookup → Bytes → Result ℤ
conf_ival conf key = do v ← conf key; elim v [ ival n ↦ ok n | _ ↦ stop undefined ]

abbrev pub conf_cval : Lookup → Bytes → Result ℕ
conf_cval conf key = do v ← conf key; elim v [ cval c ↦ ok c | _ ↦ stop undefined ]

abbrev pub conf_sval : Lookup → Bytes → Result Bytes
conf_sval conf key = do v ← conf key; elim v [ sval s ↦ ok s | _ ↦ stop undefined ]
