-- ===== src/Config/Defaults.antt =====
-- DefaultConfig of internal/config/defaults.go, one definition for each of its maps.
use tlspxy.Common.{true, false}
use tlspxy.Config.Koanf.{pos, str, boolean, int, object, Fields, end, field}

abbrev pub server_timeouts_default : Fields
server_timeouts_default =
    field "read" (str "0s")
      (field "write" (str "0s") (field "idle" (str "300s") (field "handshake" (str "10s") end)))

abbrev pub server_tls_letsencrypt_default : Fields
server_tls_letsencrypt_default =
    field "enable" (boolean false)
      (field "domain" (str "") (field "cachedir" (str "/tmp/letsencrypt") end))

abbrev pub server_tls_default : Fields
server_tls_default = field "verify" (boolean false) (
    field "require" (boolean false) (
      field "autoreload" (boolean false) (
        field "cert" (str "") (
          field "key" (str "") (
            field "ca" (str "") (
              field "minversion" (str "") (
                field "maxversion" (str "") (
                  field "ciphersuites" (str "") (
                    field "alpn" (str "")
                      (field "letsencrypt" (object server_tls_letsencrypt_default) end))))))))))

abbrev pub server_default : Fields
server_default = field "addr" (str ":9898") (
    field "type" (str "tcp") (
      field "healthcheck" (str "") (
        field "maxconns" (int (pos 0)) (
          field "http2" (boolean false) (
            field "trustxff" (boolean false) (
              field "timeouts" (object server_timeouts_default)
                (field "tls" (object server_tls_default) end)))))))

abbrev pub remote_timeouts_default : Fields
remote_timeouts_default = field "dial" (str "10s") end

abbrev pub remote_tls_default : Fields
remote_tls_default = field "enable" (boolean true) (
    field "verify" (boolean true) (
      field "cert" (str "") (
        field "key" (str "") (
          field "ca" (str "") (
            field "sysroots" (boolean true) (
              field "minversion" (str "") (
                field "maxversion" (str "")
                  (field "ciphersuites" (str "") (field "alpn" (str "") end)))))))))

abbrev pub remote_default : Fields
remote_default = field "addr" (str "") (
    field "proxyprotocol" (str "") (
      field "timeouts" (object remote_timeouts_default)
        (field "tls" (object remote_tls_default) end)))

abbrev pub log_default : Fields
log_default =
    field "level" (str "info")
      (field "contents" (boolean false) (field "destination" (str "stdout") end))

abbrev pub metrics_default : Fields
metrics_default =
    field "enable" (boolean false) (field "addr" (str ":9090") (field "path" (str "/metrics") end))

unfoldable pub default_config : Fields
default_config = field "server" (object server_default) (
    field "remote" (object remote_default) (
      field "log" (object log_default)
        (field "validate" (boolean false) (field "metrics" (object metrics_default) end))))
