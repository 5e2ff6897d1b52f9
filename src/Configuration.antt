-- ===== src/Configuration.antt =====
-- src/common/m_configuration.h: the constants that several components share.
use mosito.Base.{ℕ}

-- CPU_CORE and DATAVOLUME.
abbrev pub cpu_core : ℕ
cpu_core = 4

abbrev pub datavolume : ℕ
datavolume = 50000000
