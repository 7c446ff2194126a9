-- ===== src/Lobby/Config.antt =====
-- The rendering settings in `parse_config` (src/ov_client_orlandoviols.cc). Whether an ambient sound can
-- be fetched, whether its file can be read, and the address of this device, are arguments.
use libov.Prelude.{
  ℕ, ◌%◌, ◌^◌, Bool, true, false, Option, none, some, List, [], ◌∷◌, ◌==◌, if◌then◌else◌, length,
  codes, ◌++◌, ◌||◌,
}
use libov.Real.{RealOps}
use libov.Message.{Bytes}
use libov.Settings.{Pos, RenderSettings, tenth}
use libov.Tools.{ovstrrep}
use libov.Lobby.{JsonApi, ◌>>=◌, string_of, bool_of, real_of, int_of, xports, xrecports}
use libov.Lobby.Key

-- What lies outside: the texts of numbers, what the files say, and the address of this device.
pub record Outside (J : Type 0) : Type 0 where
  pub to_string : ℕ → Bytes
  pub atoi : Bytes → ℕ
  pub downloads : Bytes → Bool
  pub has_ambient : Bytes → Bool
  pub localip : Bytes

module _ {J R : Type 0} (json : JsonApi J R) (real : RealOps R) (out : Outside J) where
  abbrev pub ports_of : J → List ℕ
  ports_of js = if json.is_array js then xrecports json out.atoi (json.elements js) else []

  abbrev pub connections_of : J → List (Bytes × Bytes)
  connections_of js = if json.is_array js then xports json (json.elements js) [] else []

  abbrev pub room_size : J → Option (Pos R)
  room_size js = do
    x ← real_of json js Key.x (real.of_nat 25)
    y ← real_of json js Key.y (real.of_nat 13)
    z ← real_of json js Key.z (tenth real 75)
    some (record { x = x; y = y; z = z })

  -- The address of the ambient sound, with `\/` for `/` replaced.
  abbrev pub ambient_of : J → Option Bytes
  ambient_of stage = do
    raw ← string_of json stage Key.ambientsound []
    ovstrrep raw (0x5c ∷ b'/' ∷ []) (b'/' ∷ [])

  -- The settings up to the ambient sound, whose file is not fetched yet.
  unfoldable pub settings_begun : J → J → Option (RenderSettings R)
  settings_begun js stage = do
    size ← json.member stage Key.size
    reverb ← json.member stage Key.reverb
    id ← int_of json js Key.id 0
    roomsize ← room_size size
    absorption ← real_of json reverb Key.absorption (tenth real 6)
    damping ← real_of json reverb Key.damping (tenth real 7)
    reverbgain ← real_of json reverb Key.gain (tenth real 4)
    reverbgainroom ← real_of json reverb Key.roomgain (tenth real 4)
    reverbgaindev ← real_of json reverb Key.devgain (real.of_nat 1)
    renderreverb ← bool_of json js Key.renderreverb true
    renderism ← bool_of json js Key.renderism false
    distancelaw ← bool_of json js Key.distancelaw false
    delaycomp ← real_of json js Key.delaycomp (tenth real 24)
    decorr ← real_of json js Key.decorr (real.of_nat 0)
    outputport1 ← string_of json js Key.outputport1 []
    outputport2 ← string_of json js Key.outputport2 []
    rawmode ← bool_of json js Key.rawmode false
    receive ← bool_of json js Key.receive true
    rectype ← string_of json js Key.rectype (b'h' ∷ b'r' ∷ b't' ∷ b'f' ∷ [])
    secrec ← real_of json js Key.secrec (real.of_nat 0)
    egogain ← real_of json js Key.egogain (real.of_nat 1)
    outputgain ← real_of json js Key.outputgain (real.of_nat 1)
    peer2peer ← bool_of json js Key.peer2peer true
    usetcptunnel ← bool_of json js Key.usetcptunnel false
    encryption ← bool_of json js Key.encryption true
    lmetertc ← real_of json js Key.lmetertc (tenth real 5)
    lmeterfw ← string_of json js Key.lmeterfw (b'Z' ∷ [])
    ambientsound ← ambient_of stage
    ambientlevel ← real_of json stage Key.ambientlevel (real.of_nat 0)
    some (record {
      id = id % 2 ^ 8;
      roomsize = roomsize;
      absorption = absorption;
      damping = damping;
      reverbgain = reverbgain;
      reverbgainroom = reverbgainroom;
      reverbgaindev = reverbgaindev;
      renderreverb = renderreverb;
      renderism = renderism;
      distancelaw = distancelaw;
      rawmode = rawmode;
      receive = receive;
      rectype = rectype;
      egogain = egogain;
      outputgain = outputgain;
      peer2peer = peer2peer;
      outputport1 = outputport1;
      outputport2 = outputport2;
      xports = [];
      xrecport = [];
      secrec = secrec;
      headtracking = false;
      headtrackingserial = false;
      headtrackingrotrec = true;
      headtrackingrotsrc = true;
      headtrackingport = 0;
      ambientsound = ambientsound;
      ambientlevel = ambientlevel;
      lmetertc = lmetertc;
      lmeterfw = lmeterfw;
      delaycomp = delaycomp;
      decorr = decorr;
      usetcptunnel = usetcptunnel;
      encryption = encryption;
    })

  -- The message that is reported where the file cannot be fetched.
  unfoldable pub ambient_error : J → J → Option Bytes
  ambient_error js stage = settings_begun js stage >>= (λ s.
      if length s.ambientsound == 0 || out.downloads s.ambientsound
      then none
      else some (codes "Unable to download ambient sound file from " ++ s.ambientsound))

  -- The rest of the settings. A file that cannot be read, whether it was fetched or not, is an
  -- exception.
  unfoldable pub settings_of_json : J → J → Option (RenderSettings R)
  settings_of_json js stage = do
    s ← settings_begun js stage
    checked ←
        (if length s.ambientsound == 0
          then some s
          else if out.has_ambient s.ambientsound
          then some s
          else none)
    xport ← json.member js Key.xport
    xrecport ← json.member js Key.xrecport
    headtracking ← bool_of json js Key.headtracking false
    headtrackingserial ← bool_of json js Key.headtrackingserial false
    headtrackingrotrec ← bool_of json js Key.headtrackingrot true
    headtrackingrotsrc ← bool_of json js Key.headtrackingrotsrc true
    headtrackingport ← int_of json js Key.headtrackingport 0
    some (record checked {
      xports = connections_of xport;
      xrecport = ports_of xrecport;
      headtracking = headtracking;
      headtrackingserial = headtrackingserial;
      headtrackingrotrec = headtrackingrotrec;
      headtrackingrotsrc = headtrackingrotsrc;
      headtrackingport = headtrackingport % 2 ^ 16;
    })
