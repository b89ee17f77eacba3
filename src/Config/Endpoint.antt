-- ===== src/Config/Endpoint.antt =====
-- `AdminEndpoint` and `connect_addr` of src/config.rs. `print` is `Display` of a socket address.
use ement_e2ee.Prelude.{
  Bool, ◌==◌, Option, none, some, ◌++◌, Text, codes, if◌then◌else◌, unwrap_or, ◌>>=?◌,
}
use ement_e2ee.Config.Load.{
  IpAddr, SocketAddr, System, PathBuf, v4_localhost, v6_localhost, default_listen, trim_end, read,
}

abbrev pub is_unspecified : IpAddr → Bool
is_unspecified (IpAddr.v4 a) = a == 0
is_unspecified (IpAddr.v6 a) = a == 0

unfoldable pub connect_ip : IpAddr → IpAddr
connect_ip (IpAddr.v4 a) = if a == 0 then IpAddr.v4 v4_localhost else IpAddr.v4 a
connect_ip (IpAddr.v6 a) = if a == 0 then IpAddr.v6 v6_localhost else IpAddr.v6 a

unfoldable pub connect_addr : SocketAddr → SocketAddr
unfolding connect_ip
connect_addr listen = record { ip = connect_ip listen.ip; port = listen.port }

pub record AdminEndpoint : Type 0 where
  pub url : Text
  pub admin_token : Option Text

module _ (S : System) (print : SocketAddr → Text) where
  unfoldable pub endpoint_url : Option SocketAddr → Option Text → Text
  unfolding connect_addr trim_end
  endpoint_url listen (some proxy) = trim_end (λ c. c == b'/') proxy
  endpoint_url listen none =
      codes "http://" ++ print (connect_addr (unwrap_or listen default_listen))

  unfoldable pub load : Option PathBuf → Option Text → Option AdminEndpoint
  unfolding endpoint_url
  load config proxy = read S config >>=? λ file.
      some (record { url = endpoint_url file.listen proxy; admin_token = file.admin_token })

  unfoldable pub listen_of : PathBuf → Option SocketAddr
  listen_of config = read S (some config) >>=? λ file. some (unwrap_or file.listen default_listen)
