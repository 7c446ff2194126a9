-- ===== src/Scene/Join.antt =====
-- The client that `start_session` makes in a room (src/ov_render_tascar.cc): the arguments of its
-- constructor, and what it is told before the session starts. The callbacks are left out.
use libov.Prelude.{ℕ, Bool, not, ◌||◌, List, [], ◌∷◌, ◌++◌, map, if◌then◌else◌}
use libov.Real.{RealOps}
use libov.Message.{Bytes}
use libov.Session.{Render}
use libov.Scene.{Setup, portoffset, dist_to_other_tascarport, this_entry}
use libov.Scene.Ports.{get_zitaport}

pub record ClientSetup (R : Type 0) : Type 0 where
  pub desthost : Bytes
  pub destport : ℕ
  pub recport : ℕ
  pub portoffset : ℕ
  pub prio : ℕ
  pub secret : ℕ
  pub callerid : ℕ
  pub peer2peer : Bool
  pub donotsend : Bool
  pub receivedownmix : Bool
  pub sendlocal : Bool
  pub deadline : R
  pub senddownmix : Bool
  pub usingproxy : Bool
  pub use_tcp_tunnel : Bool
  pub encryption : Bool

pub data Order : Type 0 where
  extraport : ℕ → Order
  receiverport : ℕ → ℕ → Order
  proxy_client : ℕ → Bytes → Order
  hiresping : Bool → Order

module _ {R : Type 0} (real : RealOps R) (setup : Setup) (r : Render R) where
  unfoldable pub client_setup : ClientSetup R
  client_setup =
      let s = r.stage in
      record {
        desthost = s.host;
        destport = s.port;
        recport = get_zitaport s.thisstagedeviceid (portoffset setup) 0;
        portoffset = portoffset setup;
        prio = 30;
        secret = s.pin;
        callerid = s.thisstagedeviceid;
        peer2peer = s.rendersettings.peer2peer;
        donotsend = r.extra.use_proxy || not s.rendersettings.receive;
        receivedownmix = s.thisdevice.receivedownmix;
        sendlocal = (this_entry real r).sendlocal;
        deadline = r.extra.sorter_deadline;
        senddownmix = s.thisdevice.senddownmix;
        usingproxy = r.extra.use_proxy;
        use_tcp_tunnel = s.rendersettings.usetcptunnel;
        encryption = s.rendersettings.encryption;
      }

  unfoldable pub client_orders : List Order
  client_orders =
      let s = r.stage.rendersettings in
      (if real.lt (real.of_nat 0) s.secrec then extraport 100 ∷ [] else [])
      ++ map (λ p. receiverport p p) s.xrecport
      ++ receiverport (dist_to_other_tascarport setup) 9871 ∷ []
      ++ map (λ (id, ip). proxy_client id ip) r.extra.proxyclients
      ++ hiresping r.stage.thisdevice.hiresping ∷ []
