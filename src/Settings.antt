-- ===== src/Settings.antt =====
-- The settings of a session (src/ov_types.h, src/ov_types.cc): audio device, channels, stage devices,
-- rendering, with their defaults and the operators `!=`, by which the program decides what to restart.
-- A float is a value of `R`; a string is the list of its bytes; a map lists its entries by key.
pub mod Differ
pub mod Laws
mod Tests
use libov.Prelude.{ℕ, Bool, true, false, List, [], ◌∷◌}
use libov.Real.{RealOps}
use libov.Message.{Bytes}

pub record Pos (R : Type 0) : Type 0 where
  pub x : R
  pub y : R
  pub z : R

pub record ZyxEuler (R : Type 0) : Type 0 where
  pub z : R
  pub y : R
  pub x : R

pub record AudioDevice (R : Type 0) : Type 0 where
  pub drivername : Bytes
  pub devicename : Bytes
  pub srate : R
  pub periodsize : ℕ
  pub numperiods : ℕ
  pub priority : ℕ

pub record ChannelPlugin : Type 0 where
  pub name : Bytes
  pub params : List (Bytes × Bytes)

pub record DeviceChannel (R : Type 0) : Type 0 where
  pub id : Bytes
  pub sourceport : Bytes
  pub gain : R
  pub position : Pos R
  pub directivity : Bytes
  pub plugins : List ChannelPlugin
  pub name : Bytes

pub record StageDevice (R : Type 0) : Type 0 where
  pub id : ℕ
  pub uid : Bytes
  pub label : Bytes
  pub channels : List (DeviceChannel R)
  pub position : Pos R
  pub orientation : ZyxEuler R
  pub gain : R
  pub mute : Bool
  pub senderjitter : R
  pub receiverjitter : R
  pub sendlocal : Bool
  pub receivedownmix : Bool
  pub senddownmix : Bool
  pub nozita : Bool
  pub hiresping : Bool

-- `xports` is an unordered map.
pub record RenderSettings (R : Type 0) : Type 0 where
  pub id : ℕ
  pub roomsize : Pos R
  pub absorption : R
  pub damping : R
  pub reverbgain : R
  pub reverbgainroom : R
  pub reverbgaindev : R
  pub renderreverb : Bool
  pub renderism : Bool
  pub distancelaw : Bool
  pub rawmode : Bool
  pub receive : Bool
  pub rectype : Bytes
  pub egogain : R
  pub outputgain : R
  pub peer2peer : Bool
  pub outputport1 : Bytes
  pub outputport2 : Bytes
  pub xports : List (Bytes × Bytes)
  pub xrecport : List ℕ
  pub secrec : R
  pub headtracking : Bool
  pub headtrackingserial : Bool
  pub headtrackingrotrec : Bool
  pub headtrackingrotsrc : Bool
  pub headtrackingport : ℕ
  pub ambientsound : Bytes
  pub ambientlevel : R
  pub lmetertc : R
  pub lmeterfw : Bytes
  pub delaycomp : R
  pub decorr : R
  pub usetcptunnel : Bool
  pub encryption : Bool

pub record Stage (R : Type 0) : Type 0 where
  pub host : Bytes
  pub port : ℕ
  pub pin : ℕ
  pub rendersettings : RenderSettings R
  pub thisdeviceid : Bytes
  pub thisstagedeviceid : ℕ
  pub stage : List (ℕ × StageDevice R)
  pub thisdevice : StageDevice R

module _ {R : Type 0} (real : RealOps R) where
  -- The literal `n / 10`.
  abbrev pub tenth : ℕ → R
  tenth n = real.div (real.of_nat n) (real.of_nat 10)

  abbrev pub default_pos : Pos R
  default_pos = record { x = real.of_nat 0; y = real.of_nat 0; z = real.of_nat 0 }

  abbrev pub default_roomsize : Pos R
  default_roomsize = record { x = tenth 75; y = real.of_nat 13; z = real.of_nat 5 }

  abbrev pub default_rot : ZyxEuler R
  default_rot = record { z = real.of_nat 0; y = real.of_nat 0; x = real.of_nat 0 }

  abbrev pub default_device : StageDevice R
  default_device = record {
    id = 0;
    uid = [];
    label = [];
    channels = [];
    position = default_pos;
    orientation = default_rot;
    gain = real.of_nat 1;
    mute = false;
    senderjitter = real.of_nat 5;
    receiverjitter = real.of_nat 5;
    sendlocal = true;
    receivedownmix = false;
    senddownmix = false;
    nozita = false;
    hiresping = false;
  }

  abbrev pub default_settings : RenderSettings R
  default_settings = record {
    id = 0;
    roomsize = default_roomsize;
    absorption = tenth 6;
    damping = tenth 7;
    reverbgain = real.of_nat 1;
    reverbgainroom = real.of_nat 1;
    reverbgaindev = real.of_nat 1;
    renderreverb = true;
    renderism = false;
    distancelaw = false;
    rawmode = false;
    receive = true;
    rectype = b'h' ∷ b'r' ∷ b't' ∷ b'f' ∷ [];
    egogain = real.of_nat 1;
    outputgain = real.of_nat 1;
    peer2peer = true;
    outputport1 = [];
    outputport2 = [];
    xports = [];
    xrecport = [];
    secrec = real.of_nat 0;
    headtracking = false;
    headtrackingserial = false;
    headtrackingrotrec = true;
    headtrackingrotsrc = true;
    headtrackingport = 0;
    ambientsound = [];
    ambientlevel = real.of_nat 50;
    lmetertc = tenth 5;
    lmeterfw = b'Z' ∷ [];
    delaycomp = tenth 24;
    decorr = real.of_nat 0;
    usetcptunnel = false;
    encryption = true;
  }

  abbrev pub default_stage : Stage R
  default_stage = record {
    host = [];
    port = 0;
    pin = 0;
    rendersettings = default_settings;
    thisdeviceid = [];
    thisstagedeviceid = 0;
    stage = [];
    thisdevice = default_device;
  }
