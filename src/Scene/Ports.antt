-- ===== src/Scene/Ports.antt =====
-- Names and numbers of ports (src/ov_render_tascar.cc).
pub mod Laws
use libov.Prelude.{
  ℕ, ◌+◌, ◌-◌, ◌*◌, ◌%◌, ◌^◌, Bool, true, false, not, ◌&&◌, ◌||◌, List, [], ◌∷◌, ◌++◌,
  if◌then◌else◌, bytes_eq, length, drop, take, ltb, codes,
}
use libov.Message.{Bytes}
use libov.Settings.{DeviceChannel}

-- The UDP port of the audio of a device.
unfoldable pub get_zitaport : ℕ → ℕ → ℕ → ℕ
get_zitaport deviceid offset xoffset = (4464 + 2 * deviceid + offset + xoffset) % 2 ^ 16

unfoldable pub ends_with : Bytes → Bytes → Bool
ends_with full ending =
    if ltb (length full) (length ending)
    then false
    else bytes_eq (drop (length full - length ending) full) ending

unfoldable pub starts_with : Bytes → Bytes → Bool
starts_with full beginning =
    if ltb (length full) (length beginning)
    then false
    else bytes_eq (take (length beginning) full) beginning

-- The ports that are no inputs of the device: its own outputs, and those of the system.
unfoldable pub is_own_port : Bytes → Bytes → Bool
is_own_port deviceid port =
    ends_with port (codes ":sync_out")
    || starts_with port (deviceid ++ codes ".main")
    || starts_with port (codes "levelanalysis." ++ deviceid)
    || starts_with port (deviceid ++ codes ".metronome")
    || ends_with port (codes "." ++ deviceid ++ codes ":out_1")
    || ends_with port (codes "." ++ deviceid ++ codes ":out_2")
    || ends_with port (codes "." ++ deviceid ++ codes ":out_3")
    || ends_with port (codes "." ++ deviceid ++ codes ":out_4")
    || (starts_with port (codes "bus.") && ends_with port (codes ":out.0"))
    || starts_with port (codes "system:midi_")

-- Of the output ports that JACK lists, those that are inputs of the device.
unfoldable pub get_jack_input_ports : List Bytes → Bytes → List Bytes
get_jack_input_ports [] deviceid = []
get_jack_input_ports (port ∷ ports) deviceid =
    let rest = get_jack_input_ports ports deviceid in
    if is_own_port deviceid port then rest else port ∷ rest

abbrev pub get_channel_source : {R : Type 0} → DeviceChannel R → Bytes
get_channel_source ch = codes "bus." ++ ch.id ++ codes ":out.0"
