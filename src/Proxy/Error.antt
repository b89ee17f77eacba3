-- ===== src/Proxy/Error.antt =====
-- `ProxyError` of src/error.rs, without the texts of its messages, and the status it is answered
-- with.
use ement_e2ee.Prelude.{ℕ}
use ement_e2ee.Session.Device.{DeviceConflict}

pub data ProxyError : Type 0 where
  upstream : ProxyError
  internal : ProxyError
  bad_request : ProxyError
  device_conflict : DeviceConflict → ProxyError
  device_unchecked : ProxyError

-- `into_response`
unfoldable pub status : ProxyError → ℕ
status ProxyError.upstream = 502
status ProxyError.internal = 500
status ProxyError.bad_request = 400
status (ProxyError.device_conflict c) = 409
status ProxyError.device_unchecked = 502
