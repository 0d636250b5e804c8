-- ===== src/Router/Ended.antt =====
-- What a logout ends.
use auth_n_z.Device.Service.{Device}
