-- ===== src/Ctype/Tests.antt =====
-- The classes at some bytes.
use xlinux.Common.{◌≡◌, false, refl}
use xlinux.Ctype.{isspace}

nul_is_no_space : isspace 0 ≡ false
unfolding isspace
nul_is_no_space = refl
