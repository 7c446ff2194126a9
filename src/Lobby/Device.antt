-- ===== src/Lobby/Device.antt =====
-- `get_stage_dev` (src/ov_client_orlandoviols.cc): a stage device from its JSON value.
use libov.Prelude.{
  ℕ, ◌+◌, ◌-◌, ◌%◌, ◌^◌, true, false, Option, some, List, [], ◌∷◌, ◌++◌, ◌==◌, if◌then◌else◌,
  length,
}
use libov.Real.{RealOps}
use libov.Message.{Bytes}
use libov.Settings.{Pos, ZyxEuler, AudioDevice, DeviceChannel, StageDevice}
use libov.Lobby.{JsonApi, ◌>>=◌, string_of, bool_of, real_of, int_of, update_plugin_cfg}
use libov.Lobby.Key

module _ {J R : Type 0} (json : JsonApi J R) (real : RealOps R) where
  -- What "x", "y" and "z" are in a member, with 0 for what is missing.
  abbrev pub pos_of : J → Option (Pos R)
  pos_of js = do
    x ← real_of json js Key.x (real.of_nat 0)
    y ← real_of json js Key.y (real.of_nat 0)
    z ← real_of json js Key.z (real.of_nat 0)
    some (record { x = x; y = y; z = z })

  abbrev pub euler_of : J → Option (ZyxEuler R)
  euler_of js = do
    z ← real_of json js Key.z (real.of_nat 0)
    y ← real_of json js Key.y (real.of_nat 0)
    x ← real_of json js Key.x (real.of_nat 0)
    some (record { z = z; y = y; x = x })

  -- The settings of the audio device.
  unfoldable pub audio_of_json : J → Option (AudioDevice R)
  audio_of_json js = do
    driver ← string_of json js Key.driver (b'j' ∷ b'a' ∷ b'c' ∷ b'k' ∷ [])
    device ← string_of json js Key.device (b'h' ∷ b'w' ∷ b':' ∷ b'1' ∷ [])
    srate ← real_of json js Key.srate (real.of_nat 48000)
    periodsize ← int_of json js Key.periodsize 96
    numperiods ← int_of json js Key.numperiods 2
    priority ← int_of json js Key.priority 40
    some (record {
      drivername = driver;
      devicename = device;
      srate = srate;
      periodsize = periodsize;
      numperiods = numperiods;
      priority = priority;
    })

  -- std::to_string of a number that is not negative.
  module _ (to_string : ℕ → Bytes) where
    -- A channel without a name is numbered.
    abbrev pub channel_id : Bytes → ℕ → ℕ → Bytes → Bytes
    channel_id label id chcnt name =
        label
        ++ (b'_'
            ∷ (to_string id
                ++ (b'_' ∷ (if length name == 0 then b'c' ∷ to_string chcnt else name))))

    unfoldable pub channel_of : Bytes → ℕ → ℕ → J → Option (DeviceChannel R)
    channel_of label id chcnt ch = do
      name ← string_of json ch Key.name []
      sourceport ← string_of json ch Key.sourceport []
      gain ← real_of json ch Key.gain (real.of_nat 1)
      chpos ← json.member ch Key.position
      position ← pos_of chpos
      directivity ← string_of json ch Key.directivity (b'o' ∷ b'm' ∷ b'n' ∷ b'i' ∷ [])
      cfg ← json.member ch Key.plugins
      update_plugin_cfg json cfg (record {
        id = channel_id label id chcnt name;
        sourceport = sourceport;
        gain = gain;
        position = position;
        directivity = directivity;
        plugins = [];
        name = name;
      })

    -- The loop over the channels; `chcnt` counts those without a name.
    unfoldable pub channels_of : Bytes → ℕ → ℕ → List J → Option (List (DeviceChannel R))
    channels_of label id chcnt [] = some []
    channels_of label id chcnt (ch ∷ js) = do
      c ← channel_of label id chcnt ch
      rest ← channels_of label id (if length c.name == 0 then chcnt + 1 else chcnt) js
      some (c ∷ rest)

    unfoldable pub get_stage_dev : J → Option (StageDevice R)
    get_stage_dev dev = do
      number ← int_of json dev Key.id (2 ^ 32 - 1)
      uid ← string_of json dev Key.deviceid []
      label ← string_of json dev Key.label []
      receivedownmix ← bool_of json dev Key.receivedownmix false
      senddownmix ← bool_of json dev Key.senddownmix false
      nozita ← bool_of json dev Key.nozita false
      hiresping ← bool_of json dev Key.hiresping false
      chs ← json.member dev Key.channels
      channels ←
          (if json.is_array chs
            then channels_of label (number % 2 ^ 8) 0 (json.elements chs)
            else some [])
      devpos ← json.member dev Key.position
      position ← pos_of devpos
      devorient ← json.member dev Key.orientation
      orientation ← euler_of devorient
      gain ← real_of json dev Key.gain (real.of_nat 1)
      mute ← bool_of json dev Key.mute false
      jitter ← json.member dev Key.jitter
      receiverjitter ← real_of json jitter Key.receive (real.of_nat 5)
      senderjitter ← real_of json jitter Key.send (real.of_nat 5)
      sendlocal ← bool_of json dev Key.sendlocal true
      some (record {
        id = number % 2 ^ 8;
        uid = uid;
        label = label;
        channels = channels;
        position = position;
        orientation = orientation;
        gain = gain;
        mute = mute;
        senderjitter = senderjitter;
        receiverjitter = receiverjitter;
        sendlocal = sendlocal;
        receivedownmix = receivedownmix;
        senddownmix = senddownmix;
        nozita = nozita;
        hiresping = hiresping;
      })
