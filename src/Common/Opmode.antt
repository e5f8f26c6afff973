-- ===== src/Common/Opmode.antt =====
-- common/mx_utils.c: the operation mode, read from the text at the start of the device's memory.
pub mod Magic
use pcie_host_driver.Prelude.{ℕ, Bool, true, false, ◌&&◌, List, [], ◌∷◌, ◌==◌, if◌then◌else◌}
use pcie_host_driver.Mmio.{Mem, Bytes, rd_buf}

-- `enum mx_opmode`
pub data Opmode : Type 0 where
  unknown boot loader app_vpual app_vpulink : Opmode

-- memcmp over the length of the first text
abbrev pub starts_with : Bytes → Bytes → Bool
starts_with [] bs = true
starts_with (x ∷ xs) [] = false
starts_with (x ∷ xs) (b ∷ bs) = (x == b) && starts_with xs bs

-- "VPUBOOT"
abbrev pub boot_str : Bytes
boot_str = 86 ∷ 80 ∷ 85 ∷ 66 ∷ 79 ∷ 79 ∷ 84 ∷ []

-- "VPULOADER"
abbrev pub load_str : Bytes
load_str = 86 ∷ 80 ∷ 85 ∷ 76 ∷ 79 ∷ 65 ∷ 68 ∷ 69 ∷ 82 ∷ []

-- "VPUAL"
abbrev pub vpual_str : Bytes
vpual_str = 86 ∷ 80 ∷ 85 ∷ 65 ∷ 76 ∷ []

-- "VPULINK"
abbrev pub vpulink_str : Bytes
vpulink_str = 86 ∷ 80 ∷ 85 ∷ 76 ∷ 73 ∷ 78 ∷ 75 ∷ []

abbrev pub main_magic : ℕ
main_magic = 0x00

abbrev pub magic_length : ℕ
magic_length = 16

unfoldable pub get_opmode : Mem → Opmode
get_opmode mmio =
    let magic = rd_buf mmio main_magic magic_length in
    if starts_with boot_str magic
    then boot
    else if starts_with load_str magic
    then loader
    else if starts_with vpual_str magic
    then app_vpual
    else if starts_with vpulink_str magic
    then app_vpulink
    else unknown

-- equality of modes
abbrev pub same_mode : Opmode → Opmode → Bool
same_mode unknown unknown = true
same_mode boot boot = true
same_mode loader loader = true
same_mode app_vpual app_vpual = true
same_mode app_vpulink app_vpulink = true
same_mode _ _ = false

-- MX_IS_OPMODE_APP
abbrev pub is_app : Opmode → Bool
is_app app_vpual = true
is_app app_vpulink = true
is_app _ = false
