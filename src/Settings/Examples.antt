-- ===== src/Settings/Examples.antt =====
-- The load of a configuration file of internal/config.
use trino_goway.Base.{
  ℕ, ◌≡◌, refl, true, false, Option, some, [], Text, codes, text_eq, has_prefix, pos,
}
use trino_goway.Settings.{Config, default_config, apply_defaults}
use trino_goway.Settings.Checks.{
  Loaded, loaded, failed, same_ports, load, same, is_positive, one_of, multiplier,
}
use trino_goway.Settings.Load.{is_set, monitor_types, loaded_usable}

-- the file sets the admin port alone, to the given one
abbrev unmarshal : ℕ → Text → Config ℕ → Option (Config ℕ)
unmarshal port bytes c = some (record c { admin_port = pos port })

abbrev usual : Config ℕ
usual = apply_defaults 1 (record default_config { admin_port = pos 9000 })

file_read : load 1 (unmarshal 9000) (some []) ≡ loaded usual
unfolding load text_eq has_prefix
file_read = refl

abbrev clashing : Loaded ℕ
clashing = load 1 (unmarshal 8080) (some [])

clash : clashing ≡ failed same_ports
unfolding load text_eq has_prefix
clash = refl

mebibytes : multiplier (codes "MiB") ≡ some 1048576
unfolding multiplier text_eq
mebibytes = refl

loaded_usable_example :
    (apply_defaults 1 usual ≡ usual)
    × (same usual.proxy.port usual.admin_port ≡ false)
    × (is_positive usual.proxy.response_size ≡ true)
    × (usual.routing_type ≡ codes "EXTERNAL")
    × (one_of usual.monitor_type monitor_types ≡ true)
    × (is_positive usual.monitor.stats_timeout ≡ true)
    × (is_positive usual.monitor.refresh_interval ≡ true)
    × (is_set usual.monitor.interval ≡ true)
    × (is_set usual.cookie_ttl ≡ true)
loaded_usable_example = loaded_usable 1 (unmarshal 9000) (some []) usual file_read
