-- ===== src/Ipc/Protocol/Daemon.antt =====
-- shared/ipc/IpcProtocol.{h,cpp}: the addresses of the fabric, `IpcDaemon`, with their wire
-- values and names. `unnamed n` is a value of the enum class that has no enumerator.
use Prim.Native.String.{String}
use text.Mathlib.Text.{◌==◌ as str_eq}
use nf_nms.Common.{ℕ, List, [], ◌∷◌, ◌≡◌, refl, arith, Bool, ◌==◌, if◌then◌else◌}
use nf_nms.Ipc.Protocol.Enum.{of_table, Filed, code-of_table}

pub data IpcDaemon : Type 0 where
  unknown ipcd engined authd probed collectord topologyd mgmtd apid broadcast : IpcDaemon
  unnamed : ℕ → IpcDaemon

-- `static_cast<std::uint8_t>(daemon)`
unfoldable pub daemon_code : IpcDaemon → ℕ
daemon_code unknown = 0
daemon_code ipcd = 1
daemon_code engined = 2
daemon_code authd = 3
daemon_code probed = 4
daemon_code collectord = 5
daemon_code topologyd = 6
daemon_code mgmtd = 7
daemon_code apid = 8
daemon_code broadcast = 255
daemon_code (unnamed n) = n

abbrev pub daemon_table : List (ℕ × IpcDaemon)
daemon_table =
    (0, unknown)
    ∷ (1, ipcd)
    ∷ (2, engined)
    ∷ (3, authd)
    ∷ (4, probed)
    ∷ (5, collectord)
    ∷ (6, topologyd)
    ∷ (7, mgmtd)
    ∷ (8, apid)
    ∷ (255, broadcast)
    ∷ []

-- `static_cast<IpcDaemon>(byte)`
unfoldable pub daemon_of_code : ℕ → IpcDaemon
daemon_of_code n = of_table daemon_code unnamed daemon_table n

-- `a == b` on the enum class
abbrev pub daemon_eq : IpcDaemon → IpcDaemon → Bool
daemon_eq a b = daemon_code a == daemon_code b

unfoldable pub daemon_to_str : IpcDaemon → String
daemon_to_str ipcd = "ipcd"
daemon_to_str engined = "engined"
daemon_to_str authd = "authd"
daemon_to_str probed = "probed"
daemon_to_str collectord = "collectord"
daemon_to_str topologyd = "topologyd"
daemon_to_str mgmtd = "mgmtd"
daemon_to_str apid = "apid"
daemon_to_str broadcast = "broadcast"
daemon_to_str _ = "unknown"

unfoldable pub str_to_daemon : String → IpcDaemon
str_to_daemon daemon =
    if str_eq daemon "ipcd"
    then ipcd
    else if str_eq daemon "engined"
    then engined
    else if str_eq daemon "authd"
    then authd
    else if str_eq daemon "probed"
    then probed
    else if str_eq daemon "collectord"
    then collectord
    else if str_eq daemon "topologyd"
    then topologyd
    else if str_eq daemon "mgmtd"
    then mgmtd
    else if str_eq daemon "apid"
    then apid
    else if str_eq daemon "broadcast"
    then broadcast
    else unknown

-- A cast from the wire value and back changes nothing, for every byte.
pub daemon_code-of_code : (n : ℕ) → daemon_code (daemon_of_code n) ≡ n
unfolding daemon_code daemon_of_code
daemon_code-of_code n = code-of_table daemon_code unnamed (λ k. refl) daemon_table n filed
  where
    filed : Filed daemon_code unnamed daemon_table
    filed = omega arith

-- The enumerators, `Unknown` left out.
pub data IsNamed : IpcDaemon → Type 0 where
  ipcd_named : IsNamed ipcd
  engined_named : IsNamed engined
  authd_named : IsNamed authd
  probed_named : IsNamed probed
  collectord_named : IsNamed collectord
  topologyd_named : IsNamed topologyd
  mgmtd_named : IsNamed mgmtd
  apid_named : IsNamed apid
  broadcast_named : IsNamed broadcast

-- A named daemon's name is read back as that daemon.
pub str_to_daemon-to_str : {d : IpcDaemon} → IsNamed d → str_to_daemon (daemon_to_str d) ≡ d
unfolding str_to_daemon daemon_to_str
str_to_daemon-to_str ipcd_named = refl
str_to_daemon-to_str engined_named = refl
str_to_daemon-to_str authd_named = refl
str_to_daemon-to_str probed_named = refl
str_to_daemon-to_str collectord_named = refl
str_to_daemon-to_str topologyd_named = refl
str_to_daemon-to_str mgmtd_named = refl
str_to_daemon-to_str apid_named = refl
str_to_daemon-to_str broadcast_named = refl
