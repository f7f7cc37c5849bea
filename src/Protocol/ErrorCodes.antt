-- ===== src/Protocol/ErrorCodes.antt =====
-- protocol/errorcodes.go: the error codes, class by class. A class is named by its first two characters.
pub mod Distinct
use Prim.Native.String.{String}
use crunchy_proxy.Go.{Bytes, codes}
use crunchy_proxy.Prelude.{List, [], ◌∷◌, ◌++◌}

abbrev strings : List String → List Bytes
strings [] = []
strings (s ∷ rest) = codes s ∷ strings rest

-- Class 00
unfoldable pub class_00 : List Bytes
class_00 = strings ("00000" ∷ [])

-- Class 01
unfoldable pub class_01 : List Bytes
class_01 =
    strings ("01000" ∷ "0100C" ∷ "01008" ∷ "01003" ∷ "01007" ∷ "01006" ∷ "01004" ∷ "01P01" ∷ [])

-- Class 02
unfoldable pub class_02 : List Bytes
class_02 = strings ("02000" ∷ "02001" ∷ [])

-- Class 03
unfoldable pub class_03 : List Bytes
class_03 = strings ("03000" ∷ [])

-- Class 08
unfoldable pub class_08 : List Bytes
class_08 = strings ("08000" ∷ "08003" ∷ "08006" ∷ "08001" ∷ "08004" ∷ "08007" ∷ "08P01" ∷ [])

-- Class 09
unfoldable pub class_09 : List Bytes
class_09 = strings ("09000" ∷ [])

-- Class 0A
unfoldable pub class_0a : List Bytes
class_0a = strings ("0A000" ∷ [])

-- Class 0B
unfoldable pub class_0b : List Bytes
class_0b = strings ("0B000" ∷ [])

-- Class 0F
unfoldable pub class_0f : List Bytes
class_0f = strings ("0F000" ∷ "0F001" ∷ [])

-- Class 0L
unfoldable pub class_0l : List Bytes
class_0l = strings ("0L000" ∷ "0LP01" ∷ [])

-- Class 0P
unfoldable pub class_0p : List Bytes
class_0p = strings ("0P000" ∷ [])

-- Class 0Z
unfoldable pub class_0z : List Bytes
class_0z = strings ("0Z000" ∷ "0Z002" ∷ [])

-- Class 20
unfoldable pub class_20 : List Bytes
class_20 = strings ("20000" ∷ [])

-- Class 21
unfoldable pub class_21 : List Bytes
class_21 = strings ("21000" ∷ [])

-- Class 22
unfoldable pub class_22 : List Bytes
class_22 = strings (
    "22000" ∷ "2202E" ∷ "22021" ∷ "22008" ∷ "22012" ∷ "22005" ∷ "2200B" ∷ "22022" ∷ "22015"
    ∷ "2201E" ∷ "22014" ∷ "22016" ∷ "2201F" ∷ "2201G" ∷ "22018" ∷ "22007" ∷ "22019" ∷ "2200D"
    ∷ "22025" ∷ "22P06" ∷ "22023" ∷ "2201B" ∷ "2201W" ∷ "2201X" ∷ "2202H" ∷ "2202G" ∷ "22009"
    ∷ "2200C" ∷ "2200G" ∷ "22004" ∷ "22002" ∷ "22003" ∷ "22026" ∷ "22001" ∷ "22011" ∷ "22027"
    ∷ "22024" ∷ "2200F" ∷ "22P01" ∷ "22P02" ∷ "22P03" ∷ "22P04" ∷ "22P05" ∷ "2200L" ∷ "2200M"
    ∷ "2200N" ∷ "2200S" ∷ "2200T" ∷ [])

-- Class 23
unfoldable pub class_23 : List Bytes
class_23 = strings ("23000" ∷ "23001" ∷ "23502" ∷ "23503" ∷ "23505" ∷ "23514" ∷ "23P01" ∷ [])

-- Class 24
unfoldable pub class_24 : List Bytes
class_24 = strings ("24000" ∷ [])

-- Class 25
unfoldable pub class_25 : List Bytes
class_25 = strings (
    "25000" ∷ "25001" ∷ "25002" ∷ "25008" ∷ "25003" ∷ "25004" ∷ "25005" ∷ "25006" ∷ "25007"
    ∷ "25P01" ∷ "25P02" ∷ "25P03" ∷ [])

-- Class 26
unfoldable pub class_26 : List Bytes
class_26 = strings ("26000" ∷ [])

-- Class 27
unfoldable pub class_27 : List Bytes
class_27 = strings ("27000" ∷ [])

-- Class 28
unfoldable pub class_28 : List Bytes
class_28 = strings ("28000" ∷ "28P01" ∷ [])

-- Class 2B
unfoldable pub class_2b : List Bytes
class_2b = strings ("2B000" ∷ "2BP01" ∷ [])

-- Class 2D
unfoldable pub class_2d : List Bytes
class_2d = strings ("2D000" ∷ [])

-- Class 2F
unfoldable pub class_2f : List Bytes
class_2f = strings ("2F000" ∷ "2F005" ∷ "2F002" ∷ "2F003" ∷ "2F004" ∷ [])

-- Class 34
unfoldable pub class_34 : List Bytes
class_34 = strings ("34000" ∷ [])

-- Class 38
unfoldable pub class_38 : List Bytes
class_38 = strings ("38000" ∷ "38001" ∷ "38002" ∷ "38003" ∷ "38004" ∷ [])

-- Class 39
unfoldable pub class_39 : List Bytes
class_39 = strings ("39000" ∷ "39001" ∷ "39004" ∷ "39P01" ∷ "39P02" ∷ "39P03" ∷ [])

-- Class 3B
unfoldable pub class_3b : List Bytes
class_3b = strings ("3B000" ∷ "3B001" ∷ [])

-- Class 3D
unfoldable pub class_3d : List Bytes
class_3d = strings ("3D000" ∷ [])

-- Class 3F
unfoldable pub class_3f : List Bytes
class_3f = strings ("3F000" ∷ [])

-- Class 40
unfoldable pub class_40 : List Bytes
class_40 = strings ("40000" ∷ "40002" ∷ "40001" ∷ "40003" ∷ "40P01" ∷ [])

-- Class 42
unfoldable pub class_42 : List Bytes
class_42 = strings (
    "42000" ∷ "42601" ∷ "42501" ∷ "42846" ∷ "42803" ∷ "42P20" ∷ "42P19" ∷ "42830" ∷ "42602"
    ∷ "42622" ∷ "42939" ∷ "42804" ∷ "42P18" ∷ "42P21" ∷ "42P22" ∷ "42809" ∷ "42703" ∷ "42883"
    ∷ "42P01" ∷ "42P02" ∷ "42704" ∷ "42701" ∷ "42P03" ∷ "42P04" ∷ "42723" ∷ "42P05" ∷ "42P06"
    ∷ "42P07" ∷ "42712" ∷ "42710" ∷ "42702" ∷ "42725" ∷ "42P08" ∷ "42P09" ∷ "42P10" ∷ "42611"
    ∷ "42P11" ∷ "42P12" ∷ "42P13" ∷ "42P14" ∷ "42P15" ∷ "42P16" ∷ "42P17" ∷ [])

-- Class 44
unfoldable pub class_44 : List Bytes
class_44 = strings ("44000" ∷ [])

-- Class 53
unfoldable pub class_53 : List Bytes
class_53 = strings ("53000" ∷ "53100" ∷ "53200" ∷ "53300" ∷ "53400" ∷ [])

-- Class 54
unfoldable pub class_54 : List Bytes
class_54 = strings ("54000" ∷ "54001" ∷ "54011" ∷ "54023" ∷ [])

-- Class 55
unfoldable pub class_55 : List Bytes
class_55 = strings ("55000" ∷ "55006" ∷ "55P02" ∷ "55P03" ∷ [])

-- Class 57
unfoldable pub class_57 : List Bytes
class_57 = strings ("57000" ∷ "57014" ∷ "57P01" ∷ "57P02" ∷ "57P03" ∷ "57P04" ∷ [])

-- Class 58
unfoldable pub class_58 : List Bytes
class_58 = strings ("58000" ∷ "58030" ∷ "58P01" ∷ "58P02" ∷ [])

-- Class 72
unfoldable pub class_72 : List Bytes
class_72 = strings ("72000" ∷ [])

-- Class F0
unfoldable pub class_f0 : List Bytes
class_f0 = strings ("F0000" ∷ "F0001" ∷ [])

-- Class HV
unfoldable pub class_hv : List Bytes
class_hv = strings (
    "HV000" ∷ "HV005" ∷ "HV002" ∷ "HV010" ∷ "HV021" ∷ "HV024" ∷ "HV007" ∷ "HV008" ∷ "HV004"
    ∷ "HV006" ∷ "HV091" ∷ "HV00B" ∷ "HV00C" ∷ "HV00D" ∷ "HV090" ∷ "HV00A" ∷ "HV009" ∷ "HV014"
    ∷ "HV001" ∷ "HV00P" ∷ "HV00J" ∷ "HV00K" ∷ "HV00Q" ∷ "HV00R" ∷ "HV00L" ∷ "HV00M" ∷ "HV00N" ∷ [])

-- Class P0
unfoldable pub class_p0 : List Bytes
class_p0 = strings ("P0000" ∷ "P0001" ∷ "P0002" ∷ "P0003" ∷ "P0004" ∷ [])

-- Class XX
unfoldable pub class_xx : List Bytes
class_xx = strings ("XX000" ∷ "XX001" ∷ "XX002" ∷ [])

-- The whole table
unfoldable pub error_codes : List Bytes
unfolding class_00 class_01 class_02 class_03 class_08 class_09 class_0a class_0b class_0f class_0l
    class_0p class_0z class_20 class_21 class_22 class_23 class_24 class_25 class_26 class_27
    class_28 class_2b class_2d class_2f class_34 class_38 class_39 class_3b class_3d class_3f
    class_40 class_42 class_44 class_53 class_54 class_55 class_57 class_58 class_72 class_f0
    class_hv class_p0 class_xx
error_codes =
    class_00 ++ class_01 ++ class_02 ++ class_03 ++ class_08 ++ class_09 ++ class_0a ++ class_0b
    ++ class_0f ++ class_0l ++ class_0p ++ class_0z ++ class_20 ++ class_21 ++ class_22 ++ class_23
    ++ class_24 ++ class_25 ++ class_26 ++ class_27 ++ class_28 ++ class_2b ++ class_2d ++ class_2f
    ++ class_34 ++ class_38 ++ class_39 ++ class_3b ++ class_3d ++ class_3f ++ class_40 ++ class_42
    ++ class_44 ++ class_53 ++ class_54 ++ class_55 ++ class_57 ++ class_58 ++ class_72 ++ class_f0
    ++ class_hv ++ class_p0 ++ class_xx
