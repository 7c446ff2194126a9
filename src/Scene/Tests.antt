-- ===== src/Scene/Tests.antt =====
-- Documents and names for a concrete renderer; numbers stand for floats, and a text for each of them.
use libov.Prelude.{
  ℕ, ◌≡◌, refl, ◌↔◌, inl, inr, true, false, not, ◌&&◌, [], ◌∷◌, ◌++◌, arith, if◌then◌else◌, codes,
}
use libov.Real.{nat_real}
use libov.Message.{Bytes}
use libov.Settings.{DeviceChannel, StageDevice, default_pos, default_device, tenth}
use libov.Session.{Render, new_render}
use libov.Session.Tascar.{channel_gain}
use libov.Scene.{Doc, Numbers, Setup, session_add_connect, child, attribute}
use libov.Scene.Ports.{get_zitaport, ends_with, get_jack_input_ports}
use libov.Scene.Ports.Laws.{ends_with_iff, Meet, get_zitaport-Meet}
use libov.Scene.Sources.{is_this, sound_gain}
use libov.Scene.Gains.{channel_gain-sound_gain}

abbrev num : Numbers ℕ
num = record {
  text = λ x. x ∷ [];
  pos_text = λ p. [];
  euler_text = λ e. [];
  std_text = λ x. x ∷ [];
  nat_text = λ n. n ∷ [];
  bool_str = λ b. [];
  join = λ ts. [];
  log10 = λ x. x;
  log10f = λ x. x;
  sqrt = λ x. x;
  exp = λ x. x;
  cos = λ x. x;
  sin = λ x. x;
  pi = 3;
  deg2rad = 1;
  rad2deg = 1;
}

abbrev setup : Setup
setup = record {
  zitapath = [];
  secondary = false;
  folder = [];
  localfile = λ url. url;
  file_good = λ name. true;
}

abbrev voice : DeviceChannel ℕ
voice = record {
  id = b'v' ∷ [];
  sourceport = b'p' ∷ [];
  gain = 2;
  position = default_pos nat_real;
  directivity = [];
  plugins = [];
  name = [];
}

abbrev singer : ℕ → StageDevice ℕ
singer n = let d = default_device nat_real in record d { id = n; channels = voice ∷ []; gain = 3 }

-- Devices 1, which is this one, and 2.
abbrev duet : Render ℕ
duet =
    let r = new_render nat_real (9 ∷ []) in
    let s = r.stage in
    record r {
      stage = record s {
        host = b'h' ∷ [];
        thisstagedeviceid = 1;
        thisdevice = singer 1;
        stage = (1, singer 1) ∷ (2, singer 2) ∷ [];
      };
    }

ends_split :
    (ends_with (codes "system:in_1") (codes "in_1") ≡ true)
    ↔ ((p : Bytes) × (codes "system:in_1" ≡ p ++ codes "in_1"))
ends_split = ends_with_iff (codes "system:in_1") (codes "in_1")

input_kept :
    get_jack_input_ports (codes "box:sync_out" ∷ codes "system:capture_1" ∷ []) (codes "me")
    ≡ codes "system:capture_1" ∷ []
unfolding get_jack_input_ports libov.Scene.Ports.is_own_port ends_with libov.Scene.Ports.starts_with
input_kept = refl

get_zitaport-Meet_example : Meet 20 2 64 0 0 100
unfolding get_zitaport
get_zitaport-Meet_example =
    get_zitaport-Meet 20 2 64 0 0 100 (omega arith) (omega arith) (inr refl) (inl refl) (inl refl)
      (inr refl) refl

channel_gain-sound_gain_example : channel_gain nat_real duet 2 (singer 2) voice ≡ (
    if not (is_this nat_real num duet (singer 2)) && duet.stage.rendersettings.distancelaw
    then nat_real.mul (sound_gain nat_real num duet (singer 2) voice) (tenth nat_real 6)
    else sound_gain nat_real num duet (singer 2) voice)
unfolding new_render
channel_gain-sound_gain_example =
    channel_gain-sound_gain nat_real num duet 2 (singer 2) voice refl refl

abbrev empty_doc : Doc
empty_doc = record { size = 1; edits = [] }

connected : session_add_connect 0 (b'a' ∷ []) (b'b' ∷ []) empty_doc ≡ (
  tt,
  record {
    size = 2;
    edits =
        attribute 1 (codes "dest") (b'b' ∷ [])
        ∷ attribute 1 (codes "src") (b'a' ∷ [])
        ∷ child 0 (codes "connect")
        ∷ [];
  },
)
unfolding session_add_connect libov.Scene.add_named libov.Scene.put_attribute
connected = refl
