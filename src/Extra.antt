-- ===== src/Extra.antt =====
-- The settings of `ov_render_tascar_t` that `set_extra_config` changes (src/ov_render_tascar.h,
-- src/ov_render_tascar.cc), and what the running session and client are told at once.
pub mod Draft
pub mod Sections
pub mod Media
pub mod Proxy
pub mod Config
mod Tests
use libov.Prelude.{ℕ, Bool, true, false, not, ◌||◌, List, [], ◌∷◌, ◌==◌, codes}
use libov.Real.{RealOps}
use libov.Message.{Bytes}
use libov.Settings.Differ.{ne, bool_eq}

pub record Metronome (R : Type 0) : Type 0 where
  pub bpb : ℕ
  pub bpm : R
  pub bypass : Bool
  pub delay : R
  pub level : R

pub record Extra (R : Type 0) : Type 0 where
  pub headtrack_tauref : R
  pub headtrack_eogpath : Bytes
  pub headtrack_autorefzonly : Bool
  pub selfmonitor_delay : R
  pub selfmonitor_onlyreverb : Bool
  pub selfmonitor_active : Bool
  pub metronome : Metronome R
  pub proxyclients : List (ℕ × Bytes)
  pub is_proxy : Bool
  pub use_proxy : Bool
  pub proxyip : Bytes
  pub sorter_deadline : R
  pub expedited_forwarding_phb : Bool
  pub render_soundscape : Bool
  pub tscinclude : Bytes
  pub jackrec_fileformat : Bytes
  pub jackrec_sampleformat : Bytes
  pub mczita : Bool
  pub mczitasend : Bool
  pub mczitasendch : ℕ
  pub mczitaaddr : Bytes
  pub mczitaport : ℕ
  pub mczitadevice : Bytes
  pub mczitabuffer : ℕ
  pub mczitachannels : List ℕ
  pub mczita_autoconnect_rec : Bool
  pub zitasampleformat : Bytes
  pub useloudspeaker : Bool
  pub fdnforwardstages : ℕ
  pub fdnorder : ℕ
  pub echoc_maxdist : R
  pub echoc_nrep : ℕ
  pub echoc_level : R
  pub echoc_filterlen : ℕ
  pub emptysessionismonitor : Bool
  pub mhaconfig : Bytes
  pub usebcf2000 : Bool
  pub start_webmixer : Bool
  pub tuner_tuning : Bytes
  pub tuner_f0 : R
  pub tuner_active : Bool
  pub spkcalib_use : Bool
  pub spkcalib_firlen : ℕ
  pub spkcalib_vfreq : Bytes
  pub spkcalib_vgainl : Bytes
  pub spkcalib_vgainr : Bytes
  pub reclevelanalyser : Bool
  pub getoscvars : Bool

-- What `set_extra_config` tells the client, and the session of a device.
pub data Notice (R : Type 0) : Type 0 where
  deadline_set : R → Notice R
  forwarding_expedited : Notice R
  metronome_sent : Bytes → Metronome R → Notice R

module _ {R : Type 0} (real : RealOps R) where
  abbrev pub default_metronome : Metronome R
  default_metronome = record {
    bpb = 4;
    bpm = real.of_nat 120;
    bypass = true;
    delay = real.of_nat 40;
    level = real.of_nat 65;
  }

  -- The constructor, and the initial values of the fields.
  abbrev pub default_extra : Extra R
  default_extra = record {
    headtrack_tauref = real.div (real.of_nat 33315) (real.of_nat 1000);
    headtrack_eogpath = [];
    headtrack_autorefzonly = false;
    selfmonitor_delay = real.of_nat 0;
    selfmonitor_onlyreverb = false;
    selfmonitor_active = true;
    metronome = default_metronome;
    proxyclients = [];
    is_proxy = false;
    use_proxy = false;
    proxyip = [];
    sorter_deadline = real.of_nat 5;
    expedited_forwarding_phb = false;
    render_soundscape = true;
    tscinclude = [];
    jackrec_fileformat = codes "WAV";
    jackrec_sampleformat = codes "PCM_16";
    mczita = false;
    mczitasend = false;
    mczitasendch = 1;
    mczitaaddr = [];
    mczitaport = 10007;
    mczitadevice = [];
    mczitabuffer = 10;
    mczitachannels = 1 ∷ 2 ∷ [];
    mczita_autoconnect_rec = false;
    zitasampleformat = codes "16bit";
    useloudspeaker = false;
    fdnforwardstages = 0;
    fdnorder = 5;
    echoc_maxdist = real.of_nat 4;
    echoc_nrep = 64;
    echoc_level = real.of_nat 60;
    echoc_filterlen = 65;
    emptysessionismonitor = false;
    mhaconfig = [];
    usebcf2000 = false;
    start_webmixer = true;
    tuner_tuning = codes "equal";
    tuner_f0 = real.of_nat 440;
    tuner_active = false;
    spkcalib_use = false;
    spkcalib_firlen = 1025;
    spkcalib_vfreq = [];
    spkcalib_vgainl = [];
    spkcalib_vgainr = [];
    reclevelanalyser = false;
    getoscvars = false;
  }

  unfoldable pub metronome_ne : Metronome R → Metronome R → Bool
  metronome_ne m a =
      not (a.bpb == m.bpb)
      || (ne real a.bpm m.bpm
          || (not (bool_eq a.bypass m.bypass)
              || (ne real a.delay m.delay || ne real a.level m.level)))
